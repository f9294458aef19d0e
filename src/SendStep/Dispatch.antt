-- ===== src/SendStep/Dispatch.antt =====
-- src/send_step/dispatch.rs: what the dispatching takes up next, and how a pass of a send is settled.
-- Whether a Message that waits for its places now heads its sequences is Xmip Storage's answer, a
-- parameter of `Behind`.
use xmip_core_runtime.Base.{
  ℕ, ◌+◌, Bool, false, not, ◌||◌, List, [], ◌∷◌, ◌++◌, none, some, Text, insert, remove, push_new,
  if◌then◌else◌, leb, add64, nat_eq, text_eq,
}
use xmip_core_runtime.SendStep.State.{State, Due, Departure, PortFigures}
use xmip_core_runtime.SendStep.Admission.{freed, name_of}
use xmip_core_runtime.SendStep.Due.{noted, wakes_at}
use xmip_core_runtime.SendStep.Renewal.{figures_of, let_go}
use xmip_core_runtime.Sending.Defs.{is_empty}

-- How a pass of a send ended: `Ended` of src/send_step/pass.rs, what the settling reads of it.
pub data Ended : Type 0 where
  completed : Ended
  waiting : (after : ℕ) → Ended
  failed : (reason : Text) → Ended
  lost : Ended
  untried : Ended
  behind : (ask : Bool) → Ended
  unwritten : (why : Text) → Ended

-- `next`'s test: whether it returns now rather than waits on the wake.
unfoldable pub ready : (until now : ℕ) → State → Bool
ready until now s =
    s.closed
    || s.rescan
    || not (is_empty s.handed)
    || not (is_empty s.asked)
    || leb (wakes_at until s) now

abbrev pub is_due : (now : ℕ) → Due → Bool
is_due now d = elim d.at [ none ↦ false | some at ↦ leb at now ]

-- The queues whose due time has come, asked, each due time taken.
unfoldable pub ask_due : (now : ℕ) → List (ℕ × Due) → List ℕ → List ℕ
ask_due now [] asked = asked
ask_due now ((q, d) ∷ m) asked = ask_due now m (if is_due now d then push_new asked q else asked)

unfoldable pub take_due : (now : ℕ) → List (ℕ × Due) → List (ℕ × Due)
take_due now [] = []
take_due now ((q, d) ∷ m) = (q, if is_due now d then record d { at = none } else d) ∷ take_due now m

pub record Next : Type 0 where
  pub closed : Bool
  pub handed : List Departure
  pub asked : List ℕ
  pub state : State

-- `next`, once it is ready: what is handed and asked now.
unfoldable pub next : (now : ℕ) → State → Next
unfolding ask_due take_due
next now s =
    let asked = if s.rescan then s.asked ++ s.served else s.asked in
    record {
      closed = s.closed;
      handed = s.handed;
      asked = ask_due now s.due asked;
      state = record s { handed = []; asked = []; due = take_due now s.due; rescan = false };
    }

unfoldable pub counted : Text → PortFigures → State → State
counted port f s = record s { figures = insert port f s.figures }

-- What a pass's ending writes before its Message is let go of.
unfoldable pub settles : (now : ℕ) → Departure → Ended → State → State
unfolding counted
settles now d completed s =
    let f = figures_of (name_of d.to) s in
    counted (name_of d.to) (record f { sent = add64 f.sent 1 }) s
settles now d (waiting after) s = noted (name_of d.to) d.queue (now + after) s
settles now d (failed reason) s =
    let f = figures_of (name_of d.to) s in
    counted (name_of d.to)
      (record f { failed = add64 f.failed 1; last_failure = some (d.journey.journey_id, reason) }) s
settles now d lost s = s
settles now d untried s = record s { asked = push_new s.asked d.queue }
settles now d (behind ask) s = if ask then record s { asked = push_new s.asked d.queue } else s
settles now d (unwritten why) s = s

-- `settle`.
unfoldable pub settle : (now : ℕ) → Departure → Ended → State → State
unfolding settles freed
settle now d lost s = (let_go d s).0
settle now d e s =
    let t = settles now d e s in freed (record t { owned = remove d.journey.journey_id t.owned })
