-- ===== src/Wire/Defs.antt =====
-- The conversions of src/wire.rs whose both directions are matches: health, the counted thing, a stage
-- and an outcome. The header's constants are another crate's, and a parameter; an `int` is its 32 bits
-- as a number. A match on constants is its arms, the first that is the value.
use xmip_core_runtime.Base.{
  ℕ, Bool, true, not, ◌&&◌, List, [], ◌∷◌, Option, get, nat_eq, contains, map,
}

pub data Health : Type 0 where
  fine paused working stressed exhausted done holding : Health

pub data Counted : Type 0 where
  streams messages journeys bytes retrying failed : Counted

pub data Stage : Type 0 where
  receive process send : Stage

pub data Outcome : Type 0 where
  success failure rejection waiting pause timeout exhausted_retries dismissal : Outcome

-- The constants of the header, by the module of each enum's.
pub record HealthInts : Type 0 where
  pub fine : ℕ
  pub paused : ℕ
  pub working : ℕ
  pub stressed : ℕ
  pub exhausted : ℕ
  pub done : ℕ
  pub holding : ℕ

pub record CountedInts : Type 0 where
  pub streams : ℕ
  pub messages : ℕ
  pub journeys : ℕ
  pub bytes : ℕ
  pub retrying : ℕ
  pub failed : ℕ

pub record StageInts : Type 0 where
  pub receive : ℕ
  pub process : ℕ
  pub send : ℕ

pub record OutcomeInts : Type 0 where
  pub success : ℕ
  pub failure : ℕ
  pub rejection : ℕ
  pub waiting : ℕ
  pub pause : ℕ
  pub timeout : ℕ
  pub exhausted_retries : ℕ
  pub dismissal : ℕ

unfoldable pub wire_health : HealthInts → Health → ℕ
wire_health h fine = h.fine
wire_health h paused = h.paused
wire_health h working = h.working
wire_health h stressed = h.stressed
wire_health h exhausted = h.exhausted
wire_health h done = h.done
wire_health h holding = h.holding

abbrev pub health_arms : HealthInts → List (ℕ × Health)
health_arms h =
    (h.fine, fine)
    ∷ (h.paused, paused)
    ∷ (h.working, working)
    ∷ (h.stressed, stressed)
    ∷ (h.exhausted, exhausted)
    ∷ (h.done, done)
    ∷ (h.holding, holding)
    ∷ []

unfoldable pub from_wire_health : HealthInts → ℕ → Option Health
from_wire_health h value = get value (health_arms h)

unfoldable pub wire_counted : CountedInts → Counted → ℕ
wire_counted h streams = h.streams
wire_counted h messages = h.messages
wire_counted h journeys = h.journeys
wire_counted h bytes = h.bytes
wire_counted h retrying = h.retrying
wire_counted h failed = h.failed

abbrev pub counted_arms : CountedInts → List (ℕ × Counted)
counted_arms h =
    (h.streams, streams)
    ∷ (h.messages, messages)
    ∷ (h.journeys, journeys)
    ∷ (h.bytes, bytes)
    ∷ (h.retrying, retrying)
    ∷ (h.failed, failed)
    ∷ []

unfoldable pub from_wire_counted : CountedInts → ℕ → Option Counted
from_wire_counted h value = get value (counted_arms h)

unfoldable pub wire_stage : StageInts → Stage → ℕ
wire_stage h receive = h.receive
wire_stage h process = h.process
wire_stage h send = h.send

abbrev pub stage_arms : StageInts → List (ℕ × Stage)
stage_arms h = (h.receive, receive) ∷ (h.process, process) ∷ (h.send, send) ∷ []

unfoldable pub stage_of : StageInts → ℕ → Option Stage
stage_of h value = get value (stage_arms h)

unfoldable pub wire_outcome : OutcomeInts → Outcome → ℕ
wire_outcome h success = h.success
wire_outcome h failure = h.failure
wire_outcome h rejection = h.rejection
wire_outcome h waiting = h.waiting
wire_outcome h pause = h.pause
wire_outcome h timeout = h.timeout
wire_outcome h exhausted_retries = h.exhausted_retries
wire_outcome h dismissal = h.dismissal

abbrev pub outcome_arms : OutcomeInts → List (ℕ × Outcome)
outcome_arms h =
    (h.success, success)
    ∷ (h.failure, failure)
    ∷ (h.rejection, rejection)
    ∷ (h.waiting, waiting)
    ∷ (h.pause, pause)
    ∷ (h.timeout, timeout)
    ∷ (h.exhausted_retries, exhausted_retries)
    ∷ (h.dismissal, dismissal)
    ∷ []

unfoldable pub outcome_of : OutcomeInts → ℕ → Option Outcome
outcome_of h value = get value (outcome_arms h)

-- No constant is there twice, which a match with an arm that is never reached would not be.
abbrev pub distinct : List ℕ → Bool
distinct [] = true
distinct (x ∷ xs) = not (contains xs x) && distinct xs

abbrev pub ints {ℓ} : {A : Type ℓ} → List (ℕ × A) → List ℕ
ints arms = map (λ p. p.0) arms
