-- ===== src/StreamShare/Taking.antt =====
-- What a departure is given as its read lets it fall behind and it joins others: `Lent::take` of
-- src/stream_share.rs.
use xmip_core_runtime.Base.{
  ℕ, suc, ◌+◌, ◌-◌, ◌≤◌, ◌<◌, ◌≡◌, refl, ap, subst, ◌⊎◌, inl, inr, Bool, Option, none, some, arith,
  length, get, get-insert_self, ltb, nat_eq, u32_mod, Bool-cases, Option-cases,
}
use xmip_core_runtime.StreamShare.OneRead.{
  Answer, chunk, end, Source, Turn, gives, ends, behind, fails, rests, again, chunk_loop,
}
use xmip_core_runtime.StreamShare.Window.{Answered, chunk_answers}
use xmip_core_runtime.StreamShare.Shares.{
  Shared, left, leaves, best, joins, joins_best, joined, better, position, moves_to, moved,
  readers_of, Given, chunk_of, at_end, falls_behind, faulted, waits, too_far, unanswered, put,
  given, asked, Take, take_loop, take,
}
use xmip_core_runtime.StreamShare.SharesLaws.{
  AllWindows, Reads, kept-AllWindows, left-AllWindows, leaves-AllWindows, joins-AllWindows,
  opens-AllWindows, joins-Reads, left-Reads, opens-Reads, fits-Reads, best-fits, better-fits,
}

joins_best-Reads :
    (read : ℕ → Answer) (number place now : ℕ) (s : Shared) (o : Option (ℕ × ℕ))
    → best place s.store none s.reads ≡ o
    → AllWindows read s
    → let r = joins_best number place now s o in AllWindows read r.0 × Reads r.1 place r.0
joins_best-Reads read number place now s none e a =
    (opens-AllWindows read number place now s a, opens-Reads number place now s)
joins_best-Reads read number place now s (some (n, id)) e a =
    elim (best-fits place s.store none s.reads n id e) [
      | inl f ↦ cc
      | inr f ↦ (
        joins-AllWindows read id number place now s a,
        joins-Reads id number place now s (fits-Reads id place s f),
      )
    ]

-- A departure that joins is given a read that reaches its place.
pub joined-Reads :
    (read : ℕ → Answer) (on : Option ℕ) (number place now : ℕ) (s : Shared)
    → AllWindows read s
    → let r = joined on number place now s in AllWindows read r.0 × Reads r.1 place r.0
unfolding joined
joined-Reads read on number place now s a =
    let t = leaves on number s in
    joins_best-Reads read number place now t (best place t.store none t.reads) refl
      (leaves-AllWindows read on number s a)

abbrev or_this : Shared × ℕ → Option (Shared × ℕ) → Shared × ℕ
or_this x none = x
or_this x (some y) = y

moves_to-Reads :
    (read : ℕ → Answer) (on number place now mine others : ℕ) (locked : ℕ → Bool) (s : Shared)
    → (o : Option ℕ) → better locked mine others place s.store 0 s.reads ≡ o
    → (t : Shared) (id : ℕ) → moves_to on number place now s o ≡ some (t, id)
    → AllWindows read s
    → AllWindows read t × Reads id place t
moves_to-Reads read on number place now mine others locked s none b t id e a = cc
moves_to-Reads read on number place now mine others locked s (some j) b t id e a =
    let fit = better-fits locked mine others place s.store 0 s.reads j b in
    let u = joins j number place now s in
    let w = left-AllWindows read on number u (joins-AllWindows read j number place now s a) in
    let r =
      left-Reads on number j place u
        (joins-Reads j number place now s (fits-Reads j place s fit)) in
    subst (λ (x : Shared × ℕ). AllWindows read x.0 × Reads x.1 place x.0)
      (ap (or_this (left on number u, j)) e) (w, r)

pub moved-Reads :
    (read : ℕ → Answer) (locked : ℕ → Bool) (on number place now : ℕ) (s t : Shared) (id : ℕ)
    → moved locked on number place now s ≡ some (t, id)
    → AllWindows read s
    → AllWindows read t × Reads id place t
unfolding moved
moved-Reads read locked on number place now s t id e a =
    elim (Bool-cases (ltb (length s.reads) 2)) [
      | inl few ↦ let x : none ≡ some (t, id) = rw (moved, few) at e in cc
      | inr many ↦ elim (Option-cases (position on s.reads)) [
        | inl p ↦ let x : none ≡ some (t, id) = rw (moved, many, p) at e in cc
        | inr (mine, p) ↦
            let others = readers_of (get on s.store) - 1 in
            moves_to-Reads read on number place now mine others locked s
              (better locked mine others place s.store 0 s.reads) refl t id
              (rw (moved, many, p) at e) a
      ]
    ]

-- What a read said is true of the Stream.
abbrev pub Says : (ℕ → Answer) → ℕ → ℕ → Shared → Given → Type 0
Says read place on s (chunk_of c) = read place ≡ chunk c
Says read place on s at_end = (n : ℕ) × (n ≤ place) × (read n ≡ end)
Says read place on s falls_behind =
    (source : Source) × (get on s.store ≡ some source) × (place < source.first)
Says read place on s (faulted why) = Unit
Says read place on s (waits left) = Unit
Says read place on s too_far = ⊥
Says read place on s unanswered = get on s.store ≡ none

-- The read a departure takes from is there.
abbrev pub IsThere : ℕ → Shared → Type 0
IsThere on s = (source : Source) × (get on s.store ≡ some source)

given-Says :
    (read : ℕ → Answer) (place on : ℕ) (s : Shared) (source : Source) (o : Option Turn)
    → get on s.store ≡ some source
    → Answered read place source o
    → AllWindows read s
    → let r = given on s o in AllWindows read r.0 × Says read place on s r.1 × IsThere on r.0
given-Says read place on s source none e w a = absurd w
given-Says read place on s source (some (gives c t)) e w a =
    (kept-AllWindows read s (put on s t) on t refl w.1 a, w.0, (t, get-insert_self on t s.store))
given-Says read place on s source (some (ends t)) e w a =
    (kept-AllWindows read s (put on s t) on t refl w.1 a, w.0, (t, get-insert_self on t s.store))
given-Says read place on s source (some (behind t)) e w a = (
  kept-AllWindows read s (put on s t) on t refl w.1 a,
  (source, e, w.0),
  (t, get-insert_self on t s.store),
)
given-Says read place on s source (some (fails why t)) e w a =
    (kept-AllWindows read s (put on s t) on t refl w a, tt, (t, get-insert_self on t s.store))
given-Says read place on s source (some (rests left t)) e w a =
    (kept-AllWindows read s (put on s t) on t refl w a, tt, (t, get-insert_self on t s.store))
given-Says read place on s source (some (again t)) e w a = absurd w

pub asked-Says :
    (read : ℕ → Answer) (stall now on number place : ℕ) (s : Shared)
    → AllWindows read s
    → IsThere on s
    → let r = asked read stall now on number place s in
      AllWindows read r.0 × Says read place on s r.1 × IsThere on r.0
unfolding asked
asked-Says read stall now on number place s a (source, e) =
    rw (asked, e)
      (given-Says read place on s source (chunk_loop read (place + 3) stall number place now source)
        e (chunk_answers read stall number place now source (a.window on source e)) a)

-- What a departure is given is true of the Stream, and is an answer.
abbrev pub Good : (ℕ → Answer) → ℕ → Given → Type 0
Good read place (chunk_of c) = read place ≡ chunk c
Good read place at_end = (n : ℕ) × (n ≤ place) × (read n ≡ end)
Good read place falls_behind = ⊥
Good read place (faulted why) = Unit
Good read place (waits left) = Unit
Good read place too_far = u32_mod ≤ place
Good read place unanswered = ⊥

abbrev pub IsTaken : (ℕ → Answer) → ℕ → Take → Type 0
IsTaken read place t = AllWindows read t.shared × Good read place t.given × IsThere t.on t.shared

module _ (read : ℕ → Answer) (stall now number place : ℕ) where
  Reads-IsThere : (on : ℕ) (s : Shared) → Reads on place s → IsThere on s
  Reads-IsThere on s (source, e, h) = (source, e)

  -- What the loop does with what its read said.
  loop_on :
      (fuel on : ℕ) (s : Shared) (g : Given)
      → (asked read stall now on number place s).1 ≡ g
      → let r = asked read stall now on number place s in
        AllWindows read r.0 × Says read place on s g × IsThere on r.0
        → IsThere on s
        → (Reads on place s
            ⊎ (let j =
                  joined (some on) number place now (asked read stall now on number place s).0 in
                IsTaken read place (take_loop read fuel stall now j.1 number place j.0)))
        → IsTaken read place (take_loop read (suc fuel) stall now on number place s)
  unfolding take_loop
  loop_on fuel on s (chunk_of c) e (a, says, there) was next = rw (take_loop, e, e) (a, says, there)
  loop_on fuel on s at_end e (a, says, there) was next = rw (take_loop, e, e) (a, says, there)
  loop_on fuel on s (faulted why) e (a, says, there) was next = rw (take_loop, e, e) (a, tt, there)
  loop_on fuel on s (waits left) e (a, says, there) was next = rw (take_loop, e, e) (a, tt, there)
  loop_on fuel on s too_far e (a, says, there) was next = absurd says
  loop_on fuel on s unanswered e (a, says, there) (source, g) next = cc
  loop_on fuel on s falls_behind e (a, (source, g, b), there) was (inl (other, h, k)) =
      absurd (ground (arith, g, h, b, k))
  loop_on fuel on s falls_behind e (a, says, there) was (inr next) =
      elim (Bool-cases (ltb place u32_mod)) [
        | inl near ↦ rw (take_loop, e, near) next
        | inr far ↦ rw (take_loop, e, far) (a, ground arith, there)
      ]

  once_IsTaken :
      (fuel on : ℕ) (s : Shared)
      → AllWindows read s
      → Reads on place s
      → IsTaken read place (take_loop read (suc fuel) stall now on number place s)
  once_IsTaken fuel on s a r =
      let there = Reads-IsThere on s r in
      loop_on fuel on s (asked read stall now on number place s).1 refl
        (asked-Says read stall now on number place s a there) there (inl r)

  take_loop-IsTaken :
      (on : ℕ) (s : Shared)
      → AllWindows read s
      → IsThere on s
      → IsTaken read place (take_loop read 2 stall now on number place s)
  take_loop-IsTaken on s a there =
      let says = asked-Says read stall now on number place s a there in
      let t = (asked read stall now on number place s).0 in
      let j = joined-Reads read (some on) number place now t says.0 in
      loop_on 1 on s (asked read stall now on number place s).1 refl says there (
        inr (
          once_IsTaken 0 (joined (some on) number place now t).1
            (joined (some on) number place now t).0 j.0 j.1))

  -- With no other departure at work within the take, which is one step then: the departure is answered
  -- by its second read.
  pub take-IsTaken :
      (locked : ℕ → Bool) (on : ℕ) (s : Shared)
      → AllWindows read s
      → IsThere on s
      → IsTaken read place (take read locked stall now on number place s)
  unfolding take
  take-IsTaken locked on s a there = elim (Option-cases (moved locked on number place now s)) [
    | inl e ↦ rw (take, e) (take_loop-IsTaken on s a there)
    | inr ((t, id), e) ↦
        let m = moved-Reads read locked on number place now s t id e a in
        rw (take, e) (once_IsTaken 1 id t m.0 m.1)
  ]
