-- ===== src/SendStep/DispatchLaws.antt =====
-- What the dispatching takes up and what a settled pass leaves: src/send_step/dispatch.rs.
use xmip_core_runtime.Base.{
  ℕ, ◌≤◌, min, ◌≡◌, ◌↔◌, ◌⊎◌, refl, subst, inl, inr, Bool, true, false, ◌&&◌, ◌||◌, List, [], ◌∷◌,
  ◌++◌, none, some, arith, any, get, remove, get-remove, contains, push_new, any-append,
  contains-push_all_new, ◌==◌, leb, nat_eq, nat_beq_iff, if◌then◌else◌, Bool-cases, Option-cases,
}
use xmip_core_runtime.SendStep.State.{State, Due, Departure}
use xmip_core_runtime.SendStep.Admission.{freed}
use xmip_core_runtime.SendStep.Due.{earliest, wakes_at, noted}
use xmip_core_runtime.SendStep.Renewal.{let_go}
use xmip_core_runtime.SendStep.Dispatch.{
  Ended, completed, waiting, failed, lost, untried, behind, unwritten, ready, ask_due, take_due,
  next, settles, settle,
}

remove_own : (id : ℕ) {V : Type 0} (m : List (ℕ × V)) → get id (remove id m) ≡ none
remove_own id m = rw (get-remove id id m, (nat_beq_iff id id).1 refl)

freed_asks : (s : State) (q : ℕ) → contains s.starved q ≡ true → contains (freed s).asked q ≡ true
unfolding freed
freed_asks s q h = contains-push_all_new s.starved s.asked q h

settles-starved :
    (now : ℕ) (d : Departure) (e : Ended) (s : State) → (settles now d e s).starved ≡ s.starved
unfolding settles noted
settles-starved now d completed s = refl
settles-starved now d (waiting after) s = refl
settles-starved now d (failed reason) s = refl
settles-starved now d lost s = refl
settles-starved now d untried s = refl
settles-starved now d (behind ask) s = ground arith
settles-starved now d (unwritten why) s = refl

-- However a pass ends, its Message is owned no more, and every queue that waited for a place in the
-- pool is asked to be read now: none waits for one any longer.
pub settle_frees :
    (now : ℕ) (d : Departure) (e : Ended) (s : State) (q : ℕ)
    → (get d.journey.journey_id (settle now d e s).owned ≡ none)
      × ((settle now d e s).starved ≡ [])
      × (contains s.starved q ≡ true → contains (settle now d e s).asked q ≡ true)
unfolding settle let_go
settle_frees now d lost s q = (
  remove_own d.journey.journey_id s.owned,
  refl,
  λ h. contains-push_all_new s.starved s.asked q h,
)
settle_frees now d e s q =
    let t = settles now d e s in
    (
      remove_own d.journey.journey_id t.owned,
      refl,
      λ h. contains-push_all_new t.starved t.asked q (rw (settles-starved now d e s) h),
    )

later_due :
    (now until : ℕ) (m : List (ℕ × Due)) → (earliest until (take_due now m) ≤ now) ↔ (until ≤ now)
unfolding earliest take_due
later_due now until [] = (λ h. h, λ h. h)
later_due now until ((q, d) ∷ m) = elim (Option-cases d.at) [
  | inl e ↦ ground (arith, e, later_due now until m)
  | inr (at, e) ↦ ground (arith, e, later_due now until m, later_due now (min until at) m)
]

-- A queue with a retry due by now.
abbrev pub has_due : (now q : ℕ) → ℕ × Due → Bool
has_due now q (j, d) = j == q && (elim d.at [ none ↦ false | some at ↦ leb at now ])

contains-push_new_eq :
    (xs : List ℕ) (a q : ℕ) → contains (push_new xs a) q ≡ (contains xs q || a == q)
contains-push_new_eq xs a q = elim (Bool-cases (contains xs a)) [
  | inl old ↦ elim (Bool-cases (a == q)) [
    | inl same ↦
        let e : a ≡ q = (nat_beq_iff a q).0 same in
        let there : contains xs q ≡ true = subst (λ x. contains xs x ≡ true) e old in
        ground (arith, old, there, same)
    | inr other ↦ ground (arith, old, other)
  ]
  | inr fresh ↦ ground (arith, fresh, any-append (λ x. x == q) xs (a ∷ []))
]

ask_due_lem :
    (now : ℕ) (m : List (ℕ × Due)) (asked : List ℕ) (q : ℕ)
    → contains (ask_due now m asked) q ≡ (contains asked q || any (has_due now q) m)
unfolding ask_due
ask_due_lem now [] asked q = ground arith
ask_due_lem now ((j, d) ∷ m) asked q = elim (Option-cases d.at) [
  | inl e ↦ ground (arith, e, ask_due_lem now m asked q)
  | inr (at, e) ↦ ground (
    arith,
    e,
    ask_due_lem now m asked q,
    ask_due_lem now m (push_new asked j) q,
    contains-push_new_eq asked j q,
  )
]

rests :
    (now until : ℕ) (s : State)
    → (ready until now (next now s).state ≡ true) ↔ ((s.closed ≡ true) ⊎ (until ≤ now))
unfolding next ready wakes_at
rests now until s =
    let r = later_due now until s.due in (λ h. ground (arith, r.0), λ h. ground (arith, r.1))

-- What `next` hands on it hands on whole, and asks no more: a queue is asked just where it was asked
-- before, or is served and a sequence moved, or has a retry due by now; what was handed is handed on,
-- and whether it was closed told; and after it the dispatching has nothing to do at `now` unless it was
-- closed or the next scan is due. What is owned and admitted stays as it was.
pub next_takes :
    (now until : ℕ) (s : State) (q : ℕ)
    → (contains (next now s).asked q
        ≡ (contains s.asked q || s.rescan && contains s.served q || any (has_due now q) s.due))
      × ((next now s).handed ≡ s.handed)
      × ((next now s).closed ≡ s.closed)
      × ((ready until now (next now s).state ≡ true) ↔ ((s.closed ≡ true) ⊎ (until ≤ now)))
      × ((next now s).state.owned ≡ s.owned)
      × ((next now s).state.admitted ≡ s.admitted)
unfolding next ready wakes_at
next_takes now until s q =
    let asked = if s.rescan then s.asked ++ s.served else s.asked in
    (
      ground (arith, ask_due_lem now s.due asked q, any-append (λ x. x == q) s.asked s.served),
      refl,
      refl,
      rests now until s,
      refl,
      refl,
    )
