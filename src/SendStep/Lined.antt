-- ===== src/SendStep/Lined.antt =====
-- src/send_step.rs and src/send_step/admission.rs: what a Publication lines up, what Xmip Storage's
-- answer confirms, and what is handed to the pool. A token is minted by the parameter `ids`, from
-- how many were minted; the body kept beside a place is a parameter too.
use xmip_core_runtime.Base.{
  ℕ, ◌+◌, ◌-◌, Bool, true, not, ◌&&◌, List, [], ◌∷◌, ◌++◌, Option, none, some, Text, length, keep,
  find, insert, get, is_some, push_new, if◌then◌else◌, ltb, ◌==◌, nat_eq,
}
use xmip_core_runtime.Journey.{Journey}
use xmip_core_runtime.Sequence.Point.{Hold}
use xmip_core_runtime.Sending.Defs.{Subscriber, Sends, serves, sequential, filter_map}
use xmip_core_runtime.Departure.Defs.{of}
use xmip_core_runtime.SendStep.State.{State, Claim, Departure}
use xmip_core_runtime.SendStep.Admission.{admit, withdraw, own, owned_of}

-- A claimed Message: its Journey, where it leads, its queue and its claim.
pub record Claimed : Type 0 where
  pub journey : ℕ
  pub to : Subscriber
  pub queue : ℕ
  pub claim : Claim

pub record LinedUp : Type 0 where
  pub holds : List Hold
  pub claims : List Claim
  pub claimed : List Claimed
  pub admitted : ℕ
  pub asked : ℕ

-- What the send step is made with, and reads as a Publication lines up.
pub record Config : Type 0 where
  pub node : Text
  pub queue : Subscriber → ℕ
  pub lease : ℕ
  pub most : ℕ
  pub ids : ℕ → ℕ

unfoldable pub sent_here : Sends → Journey × Subscriber → Bool
sent_here sends (j, to) = serves sends to && not (sequential sends to)

unfoldable pub wanted : Sends → List (Journey × Subscriber) → ℕ
wanted sends ds = length (keep (sent_here sends) ds)

unfoldable pub claim_of : Config → ℕ → Journey → Claim
claim_of c minted j = record {
  journey = j.journey_id;
  holder = c.node;
  token = c.ids minted;
  until_unix_nanos = 0;
  fence = 0;
}

unfoldable pub claimed_of : Config → ℕ → Journey × Subscriber → Claimed
unfolding claim_of
claimed_of c minted (j, to) = record {
  journey = j.journey_id;
  to = to;
  queue = c.queue to;
  claim = claim_of c minted j;
}

-- The Messages claimed, in order, while places last.
unfoldable pub claim_each : Config → Sends → ℕ → ℕ → List (Journey × Subscriber) → List Claimed
claim_each c sends places minted [] = []
claim_each c sends places minted (d ∷ ds) =
    let taken = claimed_of c minted d ∷ claim_each c sends (places - 1) (minted + 1) ds in
    let rest = claim_each c sends places minted ds in
    if ltb 0 places && sent_here sends d then taken else rest

unfoldable pub hold_each : Config → Text → List (Journey × Subscriber) → List Hold
hold_each c body [] = []
hold_each c body ((j, to) ∷ ds) =
    record { queue = c.queue to; journey = j.journey_id; body = body } ∷ hold_each c body ds

abbrev pub claims_of : List Claimed → List Claim
claims_of [] = []
claims_of (x ∷ xs) = x.claim ∷ claims_of xs

-- `line_up`, at the instant `now`.
unfoldable pub line_up :
    Config → Sends → List (Journey × Subscriber) → Text → (now : ℕ) → State → State × LinedUp
line_up c sends departing body now s =
    let a = admit c.most (wanted sends departing) s in
    let claimed = claim_each c sends a.1 0 departing in
    (
      a.0,
      record {
        holds = hold_each c body departing;
        claims = claims_of claimed;
        claimed = claimed;
        admitted = a.1;
        asked = now;
      },
    )

-- The claim as Xmip Storage holds it.
unfoldable pub held_as : List Claim → Claim → Option Claim
held_as holds claim =
    find (λ (k : Claim). k.journey == claim.journey && k.token == claim.token) holds

abbrev pub with_claim : Claimed → Option Claim → Option Claimed
with_claim x none = none
with_claim x (some claim) = some (record x { claim = claim })

-- `confirmed`.
unfoldable pub confirmed : LinedUp → List Claim → State → State × LinedUp
unfolding held_as
confirmed lined holds s =
    let claimed =
      filter_map (λ (x : Claimed). with_claim x (held_as holds x.claim)) lined.claimed in
    let gone = length lined.claimed - length claimed in
    (
      withdraw gone s,
      record lined {
        claimed = claimed;
        claims = filter_map (held_as holds) lined.claims;
        admitted = lined.admitted - gone;
      },
    )

-- One claimed Message of `handed`'s loop: owned, and at the end of what is handed.
unfoldable pub hand_one : ℕ → List Journey → Claimed → State → State
hand_one until journeys x s = elim (find (λ (j : Journey). j.journey_id == x.journey) journeys) [
  | none ↦ s
  | some j ↦
      let d : Departure = record {
        journey = j;
        to = x.to;
        queue = x.queue;
        claim = x.claim;
        progress = of j.attempts;
        until = until;
      } in
      record s { owned = insert x.journey (owned_of d) s.owned; handed = s.handed ++ d ∷ [] }
]

unfoldable pub hand_each : ℕ → List Journey → List Claimed → State → State
hand_each until journeys [] s = s
hand_each until journeys (x ∷ xs) s = hand_each until journeys xs (hand_one until journeys x s)

-- A queue holding a Message not owned here is read at once.
unfoldable pub ask_one : Hold → State → State
ask_one h s =
    if not (is_some (get h.journey s.owned))
    then record s { asked = push_new s.asked h.queue }
    else s

unfoldable pub ask_each : List Hold → State → State
ask_each [] s = s
ask_each (h ∷ hs) s = ask_each hs (ask_one h s)

-- `handed`.
unfoldable pub handed : Config → LinedUp → List Journey → State → State
unfolding hand_each ask_each
handed c lined journeys s = ask_each lined.holds (
    hand_each (lined.asked + c.lease) journeys lined.claimed
      (record s { admitted = s.admitted - lined.admitted }))

-- `hand`, `ask`, `rescan` and `close`.
unfoldable pub hand : Departure → State → State
hand d s =
    let t = own d.journey.journey_id (owned_of d) s in record t { handed = t.handed ++ d ∷ [] }

unfoldable pub ask : ℕ → State → State
ask queue s = record s { asked = push_new s.asked queue }

unfoldable pub rescan : State → State
rescan s = record s { rescan = true }

unfoldable pub close : State → State
close s = record s { closed = true }
