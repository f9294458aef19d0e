-- ===== src/SendStep/LinedLaws.antt =====
-- What a Publication lines up, confirms and hands on: src/send_step.rs and src/send_step/admission.rs.
use xmip_core_runtime.Base.{
  ℕ, zero, suc, ◌+◌, ◌-◌, ◌≤◌, min, ◌≡◌, refl, ap, inl, inr, Bool, not, ◌&&◌, List, [], ◌∷◌, Option,
  Text, map, arith, length, keep, lt→ltb, Bool-cases, Option-cases,
}
use xmip_core_runtime.Journey.{Journey}
use xmip_core_runtime.Sequence.Point.{Hold}
use xmip_core_runtime.Sending.Defs.{Subscriber, Sends, serves, sequential, filter_map}
use xmip_core_runtime.SendStep.State.{State, Claim}
use xmip_core_runtime.SendStep.Admission.{room, admit, withdraw}
use xmip_core_runtime.SendStep.Lined.{
  Claimed, LinedUp, Config, sent_here, wanted, claim_of, claimed_of, claims_of, claim_each,
  hold_each, line_up, held_as, with_claim, confirmed, hand_each, handed,
}
use xmip_core_runtime.SendStep.Bound.{hand_each-Holds, ask_each-Holds}

length-filter_map-le {ℓ κ} :
    {A : Type ℓ} {B : Type κ} (f : A → Option B) (xs : List A)
    → length (filter_map f xs) ≤ length xs
length-filter_map-le f [] = omega arith
length-filter_map-le f (x ∷ xs) = elim (Option-cases (f x)) [
  | inl e ↦ rw (e, filter_map) (omega (arith, length-filter_map-le f xs))
  | inr (y, e) ↦ rw (e, filter_map) (omega (arith, length-filter_map-le f xs))
]

length-claim_each :
    (c : Config) (sends : Sends) (places minted : ℕ) (ds : List (Journey × Subscriber))
    → length (claim_each c sends places minted ds) ≡ min places (length (keep (sent_here sends) ds))
unfolding claim_each
length-claim_each c sends places minted [] = omega arith
length-claim_each c sends places minted (d ∷ ds) = ground (
  arith,
  length-claim_each c sends (places - 1) (minted + 1) ds,
  length-claim_each c sends places minted ds,
)

length-hold_each :
    (c : Config) (body : Text) (ds : List (Journey × Subscriber))
    → length (hold_each c body ds) ≡ length ds
unfolding hold_each
length-hold_each c body [] = refl
length-hold_each c body ((j, to) ∷ ds) = omega (arith, length-hold_each c body ds)

-- A Message this node sends, of a Port that is not Sequential.
abbrev pub out_of_order : Sends → Journey × Subscriber → Bool
out_of_order sends (j, to) = serves sends to && not (sequential sends to)

-- Each claimed Message is that departing one, its claim for its Journey by this node, to the token
-- minted for it.
abbrev pub Claims : Config → (minted : ℕ) → List (Journey × Subscriber) → List Claimed → Type 0
Claims c minted [] [] = Unit {0}
Claims c minted ((j, to) ∷ ds) (x ∷ xs) =
    (x.journey ≡ j.journey_id)
    × (x.to ≡ to)
    × (x.queue ≡ c.queue to)
    × (x.claim.journey ≡ j.journey_id)
    × (x.claim.holder ≡ c.node)
    × (x.claim.token ≡ c.ids minted)
    × Claims c (minted + 1) ds xs
Claims c minted _ _ = ⊥

-- Each departing Message has its place, in its queue.
abbrev pub Places : Config → List (Journey × Subscriber) → List Hold → Type 0
Places c [] [] = Unit {0}
Places c ((j, to) ∷ ds) (h ∷ hs) =
    (h.journey ≡ j.journey_id) × (h.queue ≡ c.queue to) × Places c ds hs
Places c _ _ = ⊥

abbrev pub take : List (Journey × Subscriber) → ℕ → List (Journey × Subscriber)
take [] n = []
take (d ∷ ds) zero = []
take (d ∷ ds) (suc n) = d ∷ take ds n

take_none : (ds : List (Journey × Subscriber)) → take ds 0 ≡ []
take_none [] = refl
take_none (d ∷ ds) = refl

claim_each_none :
    (c : Config) (sends : Sends) (minted : ℕ) (ds : List (Journey × Subscriber))
    → claim_each c sends 0 minted ds ≡ []
unfolding claim_each
claim_each_none c sends minted [] = refl
claim_each_none c sends minted (d ∷ ds) = claim_each_none c sends minted ds

claim_each-Claims :
    (c : Config) (sends : Sends) (places minted : ℕ) (ds : List (Journey × Subscriber))
    → Claims c minted
        (take (keep (out_of_order sends) ds) places)
        (claim_each c sends places minted ds)
unfolding claim_each sent_here claimed_of claim_of
claim_each-Claims c sends zero minted ds =
    rw (take_none (keep (out_of_order sends) ds), claim_each_none c sends minted ds) tt
claim_each-Claims c sends (suc places) minted [] = tt
claim_each-Claims c sends (suc places) minted ((j, to) ∷ ds) =
    elim (Bool-cases (out_of_order sends (j, to))) [
      | inl goes ↦
          let room_left = lt→ltb 0 (suc places) (omega arith) in
          let one_fewer : suc places - 1 ≡ places = omega arith in
          rw (goes, claim_each, room_left, one_fewer)
            (refl, refl, refl, refl, refl, refl, claim_each-Claims c sends places (minted + 1) ds)
      | inr stays ↦
          rw (stays, claim_each, lt→ltb 0 (suc places) (omega arith))
            (claim_each-Claims c sends (suc places) minted ds)
    ]

hold_each-Places :
    (c : Config) (body : Text) (ds : List (Journey × Subscriber))
    → Places c ds (hold_each c body ds)
unfolding hold_each
hold_each-Places c body [] = tt
hold_each-Places c body ((j, to) ∷ ds) = (refl, refl, hold_each-Places c body ds)

claims_of_lem : (xs : List Claimed) → claims_of xs ≡ map (λ (x : Claimed). x.claim) xs
claims_of_lem [] = refl
claims_of_lem (x ∷ xs) = ap (λ l. x.claim ∷ l) (claims_of_lem xs)

length-out_of_order :
    (sends : Sends) (ds : List (Journey × Subscriber))
    → length (keep (sent_here sends) ds) ≡ length (keep (out_of_order sends) ds)
unfolding sent_here
length-out_of_order sends [] = refl
length-out_of_order sends ((j, to) ∷ ds) = ground (arith, length-out_of_order sends ds)

-- A Publication keeps a place in its queue for every Message it lines up, and claims the first of
-- those this node sends out of order, as many as the Send pool has room for, each by this node and to
-- the token minted for it: every one it was admitted for.
pub line_up_claims :
    (c : Config) (sends : Sends) (ds : List (Journey × Subscriber)) (body : Text) (now : ℕ)
    → (s : State)
    → let lined = (line_up c sends ds body now s).1 in
      Places c ds lined.holds
      × Claims c 0 (take (keep (out_of_order sends) ds) lined.admitted) lined.claimed
      × (lined.claims ≡ map (λ (x : Claimed). x.claim) lined.claimed)
      × (length lined.claimed ≡ lined.admitted)
      × (lined.admitted ≡ min (length (keep (out_of_order sends) ds)) (room c.most s))
unfolding line_up admit wanted
line_up_claims c sends ds body now s =
    let same = length-out_of_order sends ds in
    let places = min (wanted sends ds) (room c.most s) in
    (
      hold_each-Places c body ds,
      claim_each-Claims c sends places 0 ds,
      claims_of_lem (claim_each c sends places 0 ds),
      omega (arith, length-claim_each c sends places 0 ds),
      omega (arith, same),
    )

-- What Xmip Storage's answer takes away of a Publication's claims gives its places back at once.
confirmed_balance :
    (lined : LinedUp) (holds : List Claim) (s : State)
    → length lined.claimed ≡ lined.admitted
    → lined.admitted ≤ s.admitted
    → let r = confirmed lined holds s in
      (length r.1.claimed ≡ r.1.admitted)
      × (r.0.admitted + lined.admitted ≡ s.admitted + r.1.admitted)
      × (r.1.admitted ≤ lined.admitted)
      × (r.0.owned ≡ s.owned)
unfolding confirmed withdraw
confirmed_balance lined holds s e h = ground (
  arith,
  length-filter_map-le (λ (x : Claimed). with_claim x (held_as holds x.claim)) lined.claimed,
)

line_up_state :
    (c : Config) (sends : Sends) (ds : List (Journey × Subscriber)) (body : Text) (now : ℕ)
    → (s : State)
    → let r = line_up c sends ds body now s in
      (r.0.admitted ≡ s.admitted + r.1.admitted) × (r.0.owned ≡ s.owned)
unfolding line_up admit
line_up_state c sends ds body now s = (refl, refl)

handed_balance :
    (c : Config) (lined : LinedUp) (js : List Journey) (s : State)
    → length lined.claimed ≡ lined.admitted
    → ((handed c lined js s).admitted ≡ s.admitted - lined.admitted)
      × (length (handed c lined js s).owned ≤ length s.owned + lined.admitted)
unfolding handed
handed_balance c lined js s e =
    let before : State = record s { admitted = s.admitted - lined.admitted } in
    let each = hand_each-Holds (lined.asked + c.lease) js lined.claimed before in
    let asks =
      ask_each-Holds lined.holds (hand_each (lined.asked + c.lease) js lined.claimed before) in
    omega (arith, each.0, each.1, asks.0, asks.1)

-- A Publication that is lined up, written, confirmed as Xmip Storage answers and handed to the pool
-- leaves no place admitted behind it, and owns no more Messages than the pool had room for.
pub publication_balance :
    (c : Config) (sends : Sends) (ds : List (Journey × Subscriber)) (body : Text) (now : ℕ)
    → (holds : List Claim) (js : List Journey) (s : State)
    → let lined = line_up c sends ds body now s in
      let answered = confirmed lined.1 holds lined.0 in
      let done = handed c answered.1 js answered.0 in
      (done.admitted ≡ s.admitted) × (length done.owned ≤ length s.owned + room c.most s)
publication_balance c sends ds body now holds js s =
    let lined = line_up c sends ds body now s in
    let made = line_up_claims c sends ds body now s in
    let state = line_up_state c sends ds body now s in
    let kept = confirmed_balance lined.1 holds lined.0 made.3 (omega (arith, state.0)) in
    let answered = confirmed lined.1 holds lined.0 in
    let given = handed_balance c answered.1 js answered.0 kept.0 in
    let owned = ap length kept.3 in
    let before = ap length state.1 in
    omega (arith, state.0, made.4, kept.1, kept.2, given.0, given.1, owned, before)
