-- ===== src/SendStep/Pass.antt =====
-- The end of a pass: src/send_step/pass.rs. The Journey's new entry and what is written of other
-- Messages, always nothing here, are not kept; how a duration reads in words is a parameter, and so
-- is what Xmip Storage answers the hand-on.
use xmip_core_runtime.Base.{
  ℕ, ◌-◌, Bool, true, false, ◌&&◌, List, [], ◌∷◌, ◌++◌, Option, none, some, Text, codes, keep, min,
  map, if◌then◌else◌, u64_mod,
}
use xmip_core_runtime.Journey.{Journey, JourneyState, Sequenced}
use xmip_core_runtime.Sending.Defs as Sending
use xmip_core_runtime.Sending.Defs.{
  Subscriber, send_port, send_group, work_process, Sends, is_empty,
}
use xmip_core_runtime.Departure.Defs.{Departed, Progress, attempts, waiting, said}
use xmip_core_runtime.SendStep.State.{Claim, Departure}
use xmip_core_runtime.SendStep.Admission.{name_of}
use xmip_core_runtime.SendStep.Dispatch.{Ended, completed, failed, lost, untried, unwritten}
use xmip_core_runtime.SendStep.Dispatch

-- `persist::storage::HandOn`, what a pass writes of it.
pub record HandOn : Type 0 where
  pub claim : Claim
  pub result : Journey
  pub leaves : List ℕ
  pub failed : Option (ℕ × Text)
  pub waits : Option (ℕ × ℕ)

-- Xmip Storage's answer: written, the claim another's, or not taken.
pub data Written : Type 0 where
  taken refused : Written
  unanswered : (why : Text) → Written

unfoldable pub nanos : ℕ → ℕ
nanos duration = min duration (u64_mod - 1)

-- The places in the sequences of its Send Port and its Send Locations that it lets go of.
abbrev pub lets_go : JourneyState → Sequenced → Bool
lets_go JourneyState.completed s = true
lets_go JourneyState.failed s = s.skips
lets_go _ s = false

unfoldable pub leaves_point : JourneyState → List Sequenced → List ℕ
leaves_point state sequences = map (λ (s : Sequenced). s.queue) (keep (lets_go state) sequences)

abbrev pub own_place : JourneyState → ℕ → List ℕ
own_place JourneyState.completed queue = queue ∷ []
own_place _ queue = []

abbrev pub failed_entry : JourneyState → ℕ → Text → Option (ℕ × Text)
failed_entry JourneyState.failed queue outcome = some (queue, outcome)
failed_entry _ queue outcome = none

abbrev pub wait_of : ℕ → Option ℕ → Option (ℕ × ℕ)
wait_of queue none = none
wait_of queue (some after) = some (queue, nanos after)

-- What `written` hands on.
unfoldable pub hand_on : Departure → JourneyState → Text → Option ℕ → HandOn
hand_on d state outcome kept = record {
  claim = d.claim;
  result = record (d.journey) { state = state; attempts = attempts d.progress };
  leaves = own_place state d.queue ++ leaves_point state d.journey.sequences;
  failed = failed_entry state d.queue outcome;
  waits = wait_of d.queue kept;
}

-- `backoff`: how long the Send Port waits before it is tried again.
unfoldable pub backoff : (Text → Option ℕ) → Sends → Subscriber → ℕ
backoff duration sends (send_port name) = Sending.backoff duration (Sending.port sends name)
backoff duration sends (send_group name) = 0
backoff duration sends (work_process name) = 0

-- Where the Message stands after its pass, and how long it waits.
unfoldable pub standing : (backoff : ℕ) → Progress → JourneyState × Option ℕ
standing backoff p =
    if p.sent
    then (JourneyState.completed, none)
    else if waiting p
    then (JourneyState.recovering, some backoff)
    else (JourneyState.failed, none)

unfoldable pub outcome : (Subscriber → Text) → (ℕ → Text) → List Departed → Option ℕ → Text
outcome shown in_words ds none = said shown ds
outcome shown in_words ds (some after) =
    said shown ds ++ codes "; tried again in " ++ in_words after

abbrev pub given_up : Option Text → Text
given_up none = []
given_up (some why) = why

unfoldable pub ended : Departure → JourneyState × Option ℕ → Written → Ended
ended d s refused = lost
ended d s (unanswered why) = unwritten why
ended d (JourneyState.completed, kept) taken = completed
ended d (state, some after) taken = Dispatch.waiting after
ended d (state, none) taken = failed (name_of d.to ++ codes ": " ++ given_up d.progress.given_up)

-- `send` after `depart_to` gave `ds`: what is handed on, where anything is, and how the pass ended.
unfoldable pub concluded :
    (Subscriber → Text)
    → (ℕ → Text)
    → (HandOn → Written)
    → (Text → Option ℕ)
    → Sends
    → (is_lost : Bool) → Departure
    → List Departed
    → Option HandOn × Ended
unfolding hand_on ended outcome backoff
concluded shown in_words storage duration sends is_lost d ds =
    if is_lost
    then (none, lost)
    else if is_empty ds && waiting d.progress
    then (none, untried)
    else let s = standing (backoff duration sends d.to) d.progress in
      let h = hand_on d s.0 (outcome shown in_words ds s.1) s.1 in (some h, ended d s (storage h))
