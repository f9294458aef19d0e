-- ===== src/Pickup/Round.antt =====
-- The loop of src/held_work.rs over what the node is let go of at one time: once one of a Subscription
-- is to be read again, so is the rest of what that Subscription let go of.
use xmip_core_runtime.Base.{
  ℕ, Bool, true, false, List, [], ◌∷◌, ◌++◌, Text, text_eq, contains, if◌then◌else◌,
}
use xmip_core_runtime.SendStep.State.{State as SendState}
use xmip_core_runtime.Pickup.State.{State}
use xmip_core_runtime.Pickup.Released.{Released, again}
use xmip_core_runtime.Pickup.HeldWork.{
  Node, Answers, Ended, moved_on, passed_over, stalled, PickedUp, pick_up,
}

-- After one of them: the Subscriptions stalled so far, the states, and whether it was picked up.
pub record Turn : Type 0 where
  pub stopped : List Text
  pub state : State
  pub send : SendState
  pub picked : Bool

unfoldable pub on_ended : (now : ℕ) → Released → (stopped : List Text) → PickedUp → Ended → Turn
unfolding again
on_ended now r stopped p moved_on = record {
  stopped = stopped;
  state = p.state;
  send = p.send;
  picked = true;
}
on_ended now r stopped p passed_over = record {
  stopped = stopped;
  state = p.state;
  send = p.send;
  picked = true;
}
on_ended now r stopped p stalled = record {
  stopped = stopped ++ r.subscription ∷ [];
  state = again now r p.state;
  send = p.send;
  picked = false;
}

abbrev pub pick_one : (now : ℕ) → Released → (stopped : List Text) → PickedUp → Turn
pick_one now r stopped p = on_ended now r stopped p p.ended

unfoldable pub turn :
    Node
    → (Released → Answers)
    → (now : ℕ) → Released
    → (stopped : List Text) → State
    → SendState
    → Turn
unfolding on_ended pick_up again
turn node answers now r stopped s send =
    if contains stopped r.subscription
    then record { stopped = stopped; state = again now r s; send = send; picked = false }
    else pick_one now r stopped (pick_up node (answers r) r now s send)

abbrev pub and_this :
    Released × Bool → State × List (Released × Bool) → State × List (Released × Bool)
and_this one (s, log) = (s, one ∷ log)

-- The body of `pick_up_released`'s loop, with whether each was picked up.
unfoldable pub round :
    Node
    → (Released → Answers)
    → (now : ℕ) → List Released
    → (stopped : List Text) → State
    → SendState
    → State × List (Released × Bool)
unfolding turn
round node answers now [] stopped s send = (s, [])
round node answers now (r ∷ rs) stopped s send =
    let t = turn node answers now r stopped s send in
    and_this (r, t.picked) (round node answers now rs t.stopped t.state t.send)
