-- ===== src/SendStep/DueLaws.antt =====
-- No due time is lost: src/send_step/due.rs.
use xmip_core_runtime.Base.{
  ℕ, ◌≤◌, min, ◌≡◌, inl, inr, refl, ◌∙◌, ap, Bool, true, false, List, [], ◌∷◌, ◌++◌, Option, none,
  some, Text, arith, get, insert, get-insert_self, get-insert_ne, nat_eq, nat_beq_iff,
  if◌then◌else◌, ◌==◌, Bool-cases, Option-cases,
}
use xmip_core_runtime.SendStep.State.{State, Due}
use xmip_core_runtime.SendStep.Due.{
  earlier, wakes, note, entry, of, earliest, wakes_at, reading, not_due, noted, replaced, merged,
  waited, Tells, hand_on, claimed_early, tell, tell_each,
}

abbrev queue_of : Tells → ℕ
queue_of (hand_on q at) = q
queue_of (claimed_early q at) = q

abbrev time_of : Tells → ℕ
time_of (hand_on q at) = at
time_of (claimed_early q at) = at

abbrev AtMost : ℕ → Option ℕ → Type 0
AtMost at none = ⊥
AtMost at (some m) = m ≤ at

-- The queue is woken for no later than `at`, and a whole read under way keeps that.
abbrev Kept : ℕ → Option Due → Type 0
Kept at none = ⊥
Kept at (some d) = AtMost at d.at × AtMost at d.noted

told : Text → Tells → Due → Due
told port (hand_on q at) d = note at d
told port (claimed_early q at) d = wakes at d

tell-due :
    (port : Text) (t : Tells) (s : State)
    → (tell port t s).due ≡ insert (queue_of t) (told port t (entry port (queue_of t) s.due)) s.due
unfolding tell told noted not_due
tell-due port (hand_on q at) s = refl
tell-due port (claimed_early q at) s = refl

told-Kept : (port : Text) (t : Tells) (d : Due) → Kept (time_of t) (some (told port t d))
unfolding told note wakes earlier
told-Kept port (hand_on q at) d = ground arith
told-Kept port (claimed_early q at) d = ground arith

told-keeps :
    (port : Text) (t : Tells) (d : Due) (at : ℕ) → Kept at (some d) → Kept at (some (told port t d))
unfolding told note wakes earlier
told-keeps port (hand_on q later) d at k = ground arith
told-keeps port (claimed_early q later) d at k = ground arith

entry-Kept :
    (port : Text) (t : Tells) (q at : ℕ) (m : List (ℕ × Due))
    → Kept at (get q m)
    → Kept at (some (told port t (entry port q m)))
unfolding entry
entry-Kept port t q at m k = elim (Option-cases (get q m)) [
  | inl e ↦ absurd (rw e at k)
  | inr (d, e) ↦ rw (e, entry) (told-keeps port t d at (rw e at k))
]

tell-Kept :
    (port : Text) (t : Tells) (s : State) → Kept (time_of t) (get (queue_of t) (tell port t s).due)
tell-Kept port t s =
    rw
      (
        tell-due port t s,
        get-insert_self (queue_of t) (told port t (entry port (queue_of t) s.due)) s.due,
      )
      (told-Kept port t (entry port (queue_of t) s.due))

tell-keeps :
    (port : Text) (t : Tells) (s : State) (q at : ℕ)
    → Kept at (get q s.due)
    → Kept at (get q (tell port t s).due)
tell-keeps port t s q at k = elim (Bool-cases (queue_of t == q)) [
  | inl same ↦
      let e : queue_of t ≡ q = (nat_beq_iff (queue_of t) q).0 same in
      rw (tell-due port t s, e, get-insert_self q (told port t (entry port q s.due)) s.due)
        (entry-Kept port t q at s.due k)
  | inr other ↦
      rw
        (
          tell-due port t s,
          get-insert_ne (queue_of t) q (told port t (entry port (queue_of t) s.due)) s.due other,
        )
        k
]

tell_each-keeps :
    (port : Text) (ts : List Tells) (s : State) (q at : ℕ)
    → Kept at (get q s.due)
    → Kept at (get q (tell_each port ts s).due)
unfolding tell_each
tell_each-keeps port [] s q at k = k
tell_each-keeps port (t ∷ ts) s q at k =
    tell_each-keeps port ts (tell port t s) q at (tell-keeps port t s q at k)

tell_each-Kept :
    (port : Text) (before after : List Tells) (t : Tells) (s : State)
    → Kept (time_of t) (get (queue_of t) (tell_each port (before ++ t ∷ after) s).due)
unfolding tell_each
tell_each-Kept port [] after t s =
    tell_each-keeps port after (tell port t s) (queue_of t) (time_of t) (tell-Kept port t s)
tell_each-Kept port (b ∷ before) after t s = tell_each-Kept port before after t (tell port b s)

answered-AtMost :
    (waits d : Due) (whole : Bool) (at : ℕ)
    → Kept at (some d)
    → AtMost at (if whole then replaced waits d else merged waits d).at
unfolding replaced merged earlier
answered-AtMost waits d true at k = ground arith
answered-AtMost waits d false at k = ground arith

abbrev WokenBy : ℕ → Option Due → Type 0
WokenBy at none = ⊥
WokenBy at (some d) = AtMost at d.at

entry-some :
    (port : Text) (q : ℕ) (m : List (ℕ × Due)) (d : Due) → get q m ≡ some d → entry port q m ≡ d
unfolding entry
entry-some port q m d e = rw (e, entry)

get-waited :
    (q : ℕ) (waits : Due) (whole : Bool) (s : State) (d : Due)
    → entry waits.port q s.due ≡ d
    → get q (waited q waits whole s).due ≡ some (if whole then replaced waits d else merged waits d)
unfolding waited
get-waited q waits whole s d e =
    rw e (get-insert_self q (if whole then replaced waits d else merged waits d) s.due)

waited-WokenBy :
    (q : ℕ) (waits : Due) (whole : Bool) (s : State) (at : ℕ)
    → Kept at (get q s.due)
    → WokenBy at (get q (waited q waits whole s).due)
waited-WokenBy q waits whole s at k = elim (Option-cases (get q s.due)) [
  | inl e ↦ absurd (rw e at k)
  | inr (d, e) ↦
      rw (get-waited q waits whole s d (entry-some waits.port q s.due d e))
        (answered-AtMost waits d whole at (rw e at k))
]

earliest-le : (until : ℕ) (m : List (ℕ × Due)) → earliest until m ≤ until
unfolding earliest
earliest-le until [] = omega arith
earliest-le until ((q, d) ∷ m) = elim (Option-cases d.at) [
  | inl e ↦ rw (e, earliest) (earliest-le until m)
  | inr (at, e) ↦ rw (e, earliest) (omega (arith, earliest-le (min until at) m))
]

earliest-WokenBy :
    (until q at : ℕ) (m : List (ℕ × Due)) → WokenBy at (get q m) → earliest until m ≤ at
unfolding earliest get
earliest-WokenBy until q at [] w = absurd w
earliest-WokenBy until q at ((j, d) ∷ m) w = elim (Option-cases d.at) [
  | inl e ↦ rw (e, earliest) (earliest-WokenBy until q at m (ground (arith, w)))
  | inr (x, e) ↦
      rw (e, earliest)
        (ground (arith, earliest-le (min until x) m, earliest-WokenBy (min until x) q at m))
]

-- Whatever a queue's read was passing meanwhile, and however it answers, a retry that a hand-on or a
-- scan's claim told of while it was under way is woken for no later than it is due.
pub wakes_at-told :
    (port : Text) (before after : List Tells) (t : Tells) (waits : Due) (whole : Bool) (until : ℕ)
    → (s : State)
    → wakes_at until (waited (queue_of t) waits whole (tell_each port (before ++ t ∷ after) s))
      ≤ time_of t
unfolding wakes_at
wakes_at-told port before after t waits whole until s =
    let told_of = tell_each port (before ++ t ∷ after) s in
    earliest-WokenBy until (queue_of t) (time_of t) (waited (queue_of t) waits whole told_of).due (
      waited-WokenBy (queue_of t) waits whole told_of (time_of t)
        (tell_each-Kept port before after t s))

noted_of : Option Due → Option ℕ
noted_of none = none
noted_of (some d) = d.noted

-- The earliest time told of queue `q`, and `acc`.
abbrev pub told_for : ℕ → Option ℕ → List Tells → Option ℕ
told_for q acc [] = acc
told_for q acc (t ∷ ts) =
    told_for q (if queue_of t == q then some (earlier acc (time_of t)) else acc) ts

told-noted :
    (port : Text) (t : Tells) (d : Due) → (told port t d).noted ≡ some (earlier d.noted (time_of t))
unfolding told note wakes
told-noted port (hand_on q at) d = refl
told-noted port (claimed_early q at) d = refl

noted-entry :
    (port : Text) (q : ℕ) (m : List (ℕ × Due)) → (entry port q m).noted ≡ noted_of (get q m)
unfolding entry noted_of of
noted-entry port q m = elim (Option-cases (get q m)) [
  | inl e ↦ rw (e, entry)
  | inr (d, e) ↦ rw (e, entry)
]

tell-noted_of :
    (port : Text) (t : Tells) (s : State) (q : ℕ)
    → noted_of (get q (tell port t s).due) ≡ (
        if queue_of t == q
        then some (earlier (noted_of (get q s.due)) (time_of t))
        else noted_of (get q s.due))
unfolding noted_of
tell-noted_of port t s q = elim (Bool-cases (queue_of t == q)) [
  | inl same ↦
      let e : queue_of t ≡ q = (nat_beq_iff (queue_of t) q).0 same in
      rw (same, tell-due port t s, e)
        (rw (get-insert_self q (told port t (entry port q s.due)) s.due)
          (rw (told-noted port t (entry port q s.due), noted-entry port q s.due)))
  | inr other ↦ rw (
    other,
    tell-due port t s,
    get-insert_ne (queue_of t) q (told port t (entry port (queue_of t) s.due)) s.due other,
  )
]

tell_each-noted_of :
    (port : Text) (ts : List Tells) (s : State) (q : ℕ)
    → noted_of (get q (tell_each port ts s).due) ≡ told_for q (noted_of (get q s.due)) ts
unfolding tell_each
tell_each-noted_of port [] s q = refl
tell_each-noted_of port (t ∷ ts) s q =
    tell_each-noted_of port ts (tell port t s) q
    ∙ ap (λ acc. told_for q acc ts) (tell-noted_of port t s q)

reading-noted_of : (q : ℕ) (s : State) → noted_of (get q (reading q s).due) ≡ none
unfolding reading noted_of
reading-noted_of q s = elim (Option-cases (get q s.due)) [
  | inl e ↦ rw (e, reading) (rw e)
  | inr (d, e) ↦ rw (e, reading) (rw (get-insert_self q (record d { noted = none }) s.due))
]

-- What a whole read found, and the earliest time told while it was under way.
abbrev pub with_told : Due → Option ℕ → Due
with_told waits none = waits
with_told waits (some at) = record waits { at = some (earlier waits.at at); noted = some at }

replaced-with_told : (waits d : Due) → replaced waits d ≡ with_told waits d.noted
unfolding replaced
replaced-with_told waits d = ground arith

-- A read of the whole queue answers for all that was noted before it began: after it, the queue's
-- entry is what the read found with the earliest time told while it was under way, and nothing else.
pub read_answers :
    (port : Text) (q : ℕ) (ts : List Tells) (waits : Due) (s : State)
    → get q (waited q waits true (tell_each port ts (reading q s))).due
      ≡ some (with_told waits (told_for q none ts))
read_answers port q ts waits s =
    let t = tell_each port ts (reading q s) in
    get-waited q waits true t (entry waits.port q t.due) refl
    ∙ ap some (
        replaced-with_told waits (entry waits.port q t.due)
        ∙ ap (with_told waits) (
            noted-entry waits.port q t.due
            ∙ tell_each-noted_of port ts (reading q s) q
            ∙ ap (λ acc. told_for q acc ts) (reading-noted_of q s)))
