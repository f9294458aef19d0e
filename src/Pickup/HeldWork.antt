-- ===== src/Pickup/HeldWork.antt =====
-- src/held_work.rs: a held Message picked up, moved in one hand-on from its Subscription's queue to the
-- queue of where it leads. What Xmip Storage answers each call is a parameter; which queue a Send
-- Port's is, the send step's; the Message, its facts and an audit record are not kept.
use xmip_core_runtime.Base.{
  ℕ, ◌+◌, ◌-◌, min, Bool, true, false, not, ◌&&◌, [], ◌∷◌, Option, none, some, u64_mod,
  if◌then◌else◌, ◌==◌, nat_eq,
}
use xmip_core_runtime.Journey.{Journey}
use xmip_core_runtime.Sending.Defs.{Subscriber, send_port, Sends, serves, sequential}
use xmip_core_runtime.Departure.Defs.{of}
use xmip_core_runtime.SendStep.State.{Claim, Departure, State as SendState}
use xmip_core_runtime.SendStep.Admission.{admit, withdraw}
use xmip_core_runtime.SendStep.Lined.{hand, ask}
use xmip_core_runtime.Pickup.State.{State}
use xmip_core_runtime.Pickup.Released.{
  Released, Claiming, claimed, elsewhere, unclaimed, HandedOn, taken, lapsed, unanswered, HandOn,
  moved, unreadable,
}

-- `send_step::read`'s answer: what waits to be sent, what has ended, what cannot be read, or that Xmip
-- Storage did not answer.
pub data Found : Type 0 where
  waiting : Journey → Found
  failed finished not_readable not_answered : Found

-- The node's Send Ports, the queue of each place, the send step's lease and the Send pool's most
-- threads.
pub record Node : Type 0 where
  pub sends : Sends
  pub queue : Subscriber → ℕ
  pub lease : ℕ
  pub most : ℕ

pub record Answers : Type 0 where
  pub claiming : Claiming
  pub found : Found
  pub hand_on : HandOn → HandedOn

-- `Ok`, moved or passed over, or `Err`.
pub data Ended : Type 0 where
  moved_on passed_over stalled : Ended

-- The pickup's state and the send step's, whether the claim was given back, and what was handed on.
pub record PickedUp : Type 0 where
  pub state : State
  pub send : SendState
  pub given_back : Bool
  pub handed_on : Option HandOn
  pub ended : Ended

unfoldable pub leads_to : Journey → Released → Subscriber
leads_to j r = elim j.send_port [ none ↦ r.destination | some port ↦ send_port port ]

-- The places the Send pool admits it, asked only where this node sends it.
unfoldable pub admitted_here : Node → Subscriber → SendState → SendState × ℕ
unfolding admit serves sequential
admitted_here node to send =
    if serves node.sends to && not (sequential node.sends to)
    then admit node.most 1 send
    else (send, 0)

unfoldable pub move_of : Node → Claim → Journey → Released → (sent_here : Bool) → HandOn
unfolding leads_to
move_of node claim j r sent_here = record {
  claim = claim;
  result = j;
  leaves = r.held.hold.queue ∷ [];
  queued =
      record {
        queue = node.queue (leads_to j r);
        journey = r.held.hold.journey;
        body = r.held.hold.body;
      }
      ∷ [];
  kept_for_nanos = if sent_here then some (min node.lease (u64_mod - 1)) else none;
}

unfoldable pub departure_of : Node → Claim → Journey → Released → (asked : ℕ) → Departure
unfolding leads_to of
departure_of node claim j r asked = record {
  journey = j;
  to = leads_to j r;
  queue = node.queue (leads_to j r);
  claim = claim;
  progress = of j.attempts;
  until = asked + node.lease;
}

-- `usize::from`.
abbrev pub one_if : Bool → ℕ
one_if true = 1
one_if false = 0

-- What the hand-on's answer comes to.
unfoldable pub on_handed :
    Node
    → Claim
    → Journey
    → Released
    → (asked : ℕ) → State
    → SendState
    → (sent_here : Bool) → HandedOn
    → PickedUp
unfolding moved hand ask withdraw departure_of leads_to move_of
on_handed node claim j r asked s send sent_here taken = record {
  state = moved r s;
  send =
      if sent_here
      then hand (departure_of node claim j r asked) send
      else ask (node.queue (leads_to j r)) send;
  given_back = false;
  handed_on = some (move_of node claim j r sent_here);
  ended = moved_on;
}
on_handed node claim j r asked s send sent_here lapsed = record {
  state = s;
  send = withdraw (one_if sent_here) send;
  given_back = false;
  handed_on = some (move_of node claim j r sent_here);
  ended = stalled;
}
on_handed node claim j r asked s send sent_here unanswered = record {
  state = s;
  send = withdraw (one_if sent_here) send;
  given_back = true;
  handed_on = some (move_of node claim j r sent_here);
  ended = stalled;
}

unfoldable pub move_on :
    Node
    → (HandOn → HandedOn)
    → Claim
    → Journey
    → Released
    → (asked : ℕ) → State
    → SendState × ℕ
    → PickedUp
unfolding on_handed move_of
move_on node hand_on claim j r asked s (send, places) =
    let sent_here = places == 1 in
    on_handed node claim j r asked s send sent_here (hand_on (move_of node claim j r sent_here))

abbrev pub not_moved : (given_back : Bool) → Ended → State → SendState → PickedUp
not_moved given_back ended s send = record {
  state = s;
  send = send;
  given_back = given_back;
  handed_on = none;
  ended = ended;
}

unfoldable pub on_found :
    Node
    → (HandOn → HandedOn)
    → Claim
    → Released
    → (asked : ℕ) → State
    → SendState
    → Found
    → PickedUp
unfolding move_on admitted_here unreadable leads_to
on_found node hand_on claim r asked s send (waiting j) =
    move_on node hand_on claim j r asked s (admitted_here node (leads_to j r) send)
on_found node hand_on claim r asked s send failed = not_moved true passed_over (unreadable r s) send
on_found node hand_on claim r asked s send finished =
    not_moved true passed_over (unreadable r s) send
on_found node hand_on claim r asked s send not_readable =
    not_moved true passed_over (unreadable r s) send
on_found node hand_on claim r asked s send not_answered = not_moved true stalled s send

unfoldable pub on_claiming :
    Node → Answers → Released → (asked : ℕ) → State → SendState → Claiming → PickedUp
unfolding on_found
on_claiming node a r asked s send (claimed claim) =
    on_found node a.hand_on claim r asked s send a.found
on_claiming node a r asked s send elsewhere = not_moved false stalled s send
on_claiming node a r asked s send unclaimed = not_moved false stalled s send

-- `pick_up`.
unfoldable pub pick_up : Node → Answers → Released → (asked : ℕ) → State → SendState → PickedUp
unfolding on_claiming
pick_up node a r asked s send = on_claiming node a r asked s send a.claiming
