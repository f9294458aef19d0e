-- ===== src/SendStep/Bound.antt =====
-- Every interleaving of the send step's critical sections keeps what the node holds within the Send
-- pool: src/send_step/admission.rs, with src/send_step.rs, renewal.rs, due.rs and dispatch.rs.
use xmip_core_runtime.Base.{
  ℕ, ◌+◌, ◌-◌, ◌≤◌, max, ◌≡◌, inl, inr, Bool, true, List, [], ◌∷◌, Option, Text, arith, length,
  contains, push_new, get, length-insert-le, length-insert_old, length-remove-le, Option-cases,
  nat_eq,
}
use xmip_core_runtime.Journey.{Journey}
use xmip_core_runtime.SendStep.State.{State, Claim, Owned, Departure, Due, empty}
use xmip_core_runtime.SendStep.Admission.{admit, freed, withdraw, own, untake, starve}
use xmip_core_runtime.SendStep.Lined.{
  Config, LinedUp, Claimed, hand_one, hand_each, ask_one, ask_each, handed, ask, rescan, close,
}
use xmip_core_runtime.Sequence.Point.{Hold}
use xmip_core_runtime.SendStep.Passed.{pass_over, read_whole}
use xmip_core_runtime.SendStep.Due.{reading, waited, noted, not_due}
use xmip_core_runtime.SendStep.Renewal.{
  Renewed, stands, renewed, answer_for, flying, renew_each, renew, let_go,
}
use xmip_core_runtime.SendStep.Dispatch.{Ended, lost, next, settles, settle}

-- The step's state, and the places the node's threads hold: admitted, and not yet owned or given back.
pub record System : Type 0 where
  pub state : State
  pub places : ℕ

-- A critical section of some thread. A thread gives back, or owns under, a place that it holds.
pub data Step (most : ℕ) (s : System) : System → Type 0 where
  admits :
      (wanted : ℕ)
      → Step most s (record {
        state = (admit most wanted s.state).0;
        places = s.places + (admit most wanted s.state).1;
      })
  withdraws :
      (n : ℕ)
      → n ≤ s.places
      → Step most s (record { state = withdraw n s.state; places = s.places - n })
  takes :
      (id : ℕ)
      → Step most s (record s { state = record (s.state) { taking = push_new s.state.taking id } })
  owns :
      (id : ℕ) (o : Owned)
      → 1 ≤ s.places
      → Step most s (record { state = own id o s.state; places = s.places - 1 })
  untakes :
      (id : ℕ)
      → contains s.state.taking id ≡ true
      → 1 ≤ s.places
      → Step most s (record { state = untake id s.state; places = s.places - 1 })
  hands :
      (c : Config) (lined : LinedUp) (journeys : List Journey)
      → length lined.claimed ≤ lined.admitted
      → lined.admitted ≤ s.places
      → Step most s
          (record { state = handed c lined journeys s.state; places = s.places - lined.admitted })
  starves : (queue : ℕ) → Step most s (record s { state = starve queue s.state })
  asks : (queue : ℕ) → Step most s (record s { state = ask queue s.state })
  rescans : Step most s (record s { state = rescan s.state })
  closes : Step most s (record s { state = close s.state })
  reads : (queue : ℕ) → Step most s (record s { state = reading queue s.state })
  waits :
      (queue : ℕ) (found : Due) (whole : Bool)
      → Step most s (record s { state = waited queue found whole s.state })
  finds_early :
      (port : Text) (queue at : ℕ)
      → Step most s (record s { state = not_due port queue at s.state })
  passes_over :
      (queue : ℕ) (place : ℕ × ℕ) → Step most s (record s { state = pass_over queue place s.state })
  reads_whole :
      (queue : ℕ) (present : List (ℕ × ℕ))
      → Step most s (record s { state = read_whole queue present s.state })
  -- What a round's answer says of one claim, at whatever instant it is taken; and a whole round.
  renews_one :
      (lease asked now : ℕ) (c : Claim) (r : Renewed)
      → Step most s (record s { state = (renewed lease asked now c r s.state).0 })
  renews :
      (lease asked now : ℕ) (answered : Option (List Claim))
      → Step most s (record s { state = renew lease asked now answered s.state })
  nexts : (now : ℕ) → Step most s (record s { state = (next now s.state).state })
  ends :
      (now : ℕ) (d : Departure) (e : Ended)
      → Step most s (record s { state = settle now d e s.state })

pub data Reach (most : ℕ) : System → Type 0 where
  start : Reach most (record { state = empty; places = 0 })
  later : {s t : System} → Reach most s → Step most s t → Reach most t

pub record IsBounded (most : ℕ) (s : System) : Type 0 where
  pub counted : s.state.admitted ≡ s.places
  pub within : length s.state.owned + s.state.admitted ≤ max most 1

-- The places kept and the Messages owned are as before, or fewer Messages are.
abbrev pub Holds : State → State → Type 0
Holds s t = (t.admitted ≡ s.admitted) × (length t.owned ≤ length s.owned)

hand_one-Holds :
    (until : ℕ) (js : List Journey) (x : Claimed) (s : State)
    → ((hand_one until js x s).admitted ≡ s.admitted)
      × (length (hand_one until js x s).owned ≤ length s.owned + 1)
unfolding hand_one
hand_one-Holds until js x s = grind (arith, length-insert-le)

pub hand_each-Holds :
    (until : ℕ) (js : List Journey) (xs : List Claimed) (s : State)
    → ((hand_each until js xs s).admitted ≡ s.admitted)
      × (length (hand_each until js xs s).owned ≤ length s.owned + length xs)
unfolding hand_each
hand_each-Holds until js [] s = omega arith
hand_each-Holds until js (x ∷ xs) s =
    let one = hand_one-Holds until js x s in
    let rest = hand_each-Holds until js xs (hand_one until js x s) in
    omega (arith, one.0, one.1, rest.0, rest.1)

ask_one-Holds : (h : Hold) (s : State) → Holds s (ask_one h s)
unfolding ask_one
ask_one-Holds h s = ground arith

pub ask_each-Holds : (hs : List Hold) (s : State) → Holds s (ask_each hs s)
unfolding ask_each
ask_each-Holds [] s = omega arith
ask_each-Holds (h ∷ hs) s =
    let one = ask_one-Holds h s in
    let rest = ask_each-Holds hs (ask_one h s) in omega (arith, one.0, one.1, rest.0, rest.1)

renewed-Holds :
    (lease asked now : ℕ) (c : Claim) (r : Renewed) (s : State)
    → Holds s (renewed lease asked now c r s).0
unfolding renewed
renewed-Holds lease asked now c r s = elim (Option-cases (get c.journey s.owned)) [
  | inl e ↦ rw (e, renewed) (omega arith)
  | inr (o, e) ↦
      ground (arith, length-insert_old c.journey (stands lease asked now r o).0 o s.owned e)
]

renew_each-Holds :
    (lease asked now : ℕ) (answered : Option (List Claim)) (cs : List Claim) (s : State)
    → Holds s (renew_each lease asked now answered cs s)
unfolding renew_each
renew_each-Holds lease asked now answered [] s = omega arith
renew_each-Holds lease asked now answered (c ∷ cs) s =
    let answer = answer_for answered c in
    let one = renewed-Holds lease asked now c answer s in
    let rest =
      renew_each-Holds lease asked now answered cs (renewed lease asked now c answer s).0 in
    omega (arith, one.0, one.1, rest.0, rest.1)

settle-Holds : (now : ℕ) (d : Departure) (e : Ended) (s : State) → Holds s (settle now d e s)
unfolding settle settles let_go noted
settle-Holds now d lost s = omega (arith, length-remove-le d.journey.journey_id s.owned)
settle-Holds now d e s = ground (arith, length-remove-le d.journey.journey_id s.owned)

waited-Holds : (q : ℕ) (found : Due) (whole : Bool) (s : State) → Holds s (waited q found whole s)
unfolding waited
waited-Holds q found whole s = omega arith

reading-Holds : (q : ℕ) (s : State) → Holds s (reading q s)
unfolding reading
reading-Holds q s = ground arith

same :
    {most : ℕ} {s : System} (t : State)
    → Holds s.state t
    → IsBounded most s
    → IsBounded most (record s { state = t })
same t h b = ground (arith, b.counted, b.within)

pub Step-IsBounded : {most : ℕ} {s t : System} → Step most s t → IsBounded most s → IsBounded most t
unfolding admit withdraw own untake handed starve ask rescan close not_due next freed renew
Step-IsBounded (admits wanted) b = ground arith
Step-IsBounded (withdraws n h) b = ground arith
Step-IsBounded (takes id) b = ground arith
Step-IsBounded {s} (owns id o h) b = ground (arith, length-insert-le id o s.state.owned)
Step-IsBounded (untakes id c h) b = ground arith
Step-IsBounded {s} (hands c lined js h k) b =
    let before : State = record (s.state) { admitted = s.state.admitted - lined.admitted } in
    let middle = hand_each (lined.asked + c.lease) js lined.claimed before in
    let each = hand_each-Holds (lined.asked + c.lease) js lined.claimed before in
    let asks = ask_each-Holds lined.holds middle in omega (arith, each.0, each.1, asks.0, asks.1)
Step-IsBounded (starves q) b = ground arith
Step-IsBounded (asks q) b = ground arith
Step-IsBounded rescans b = ground arith
Step-IsBounded closes b = ground arith
Step-IsBounded {s} (reads q) b = same (reading q s.state) (reading-Holds q s.state) b
Step-IsBounded {s} (waits q found whole) b =
    same (waited q found whole s.state) (waited-Holds q found whole s.state) b
Step-IsBounded (finds_early port q at) b = ground arith
Step-IsBounded (passes_over q place) b = ground arith
Step-IsBounded (reads_whole q present) b = ground arith
Step-IsBounded {s} (renews_one lease asked now c r) b =
    same (renewed lease asked now c r s.state).0 (renewed-Holds lease asked now c r s.state) b
Step-IsBounded {s} (renews lease asked now answered) b =
    same (renew lease asked now answered s.state)
      (renew_each-Holds lease asked now answered (flying s.state.owned) s.state) b
Step-IsBounded (nexts now) b = ground arith
Step-IsBounded {s} (ends now d e) b = same (settle now d e s.state) (settle-Holds now d e s.state) b

-- Whatever the Publications, the scans, the sends, the renewals and the dispatching do, in any order,
-- the Messages the node owns and the places admitted for more are never more than the Send pool's
-- most threads, of which there is one at least; and the places counted are those its threads hold.
pub Reach-IsBounded : {most : ℕ} {s : System} → Reach most s → IsBounded most s
Reach-IsBounded start = omega arith
Reach-IsBounded (later r st) = Step-IsBounded st (Reach-IsBounded r)
