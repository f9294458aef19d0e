-- ===== src/SendStep/State.antt =====
-- The state of src/send_step.rs. A map and a set of the standard library are lists with one place a
-- key; an instant and a duration are counts of nanoseconds on the node's one clock. The Message,
-- its identity facts, its account and its durability travel with a `Departure` and are not kept.
use xmip_core_runtime.Base.{ℕ, Bool, false, List, [], Option, none, Text}
use xmip_core_runtime.Journey.{Journey}
use xmip_core_runtime.Sending.Defs.{Subscriber}
use xmip_core_runtime.Departure.Defs.{Progress}

-- `persist::storage::Claim`.
pub record Claim : Type 0 where
  pub journey : ℕ
  pub holder : Text
  pub token : ℕ
  pub until_unix_nanos : ℕ
  pub fence : ℕ

-- Where a claim this node owns stands: `Standing` of src/send_step/renewal.rs.
pub record Standing : Type 0 where
  pub until : ℕ
  pub unconfirmed : Option ℕ
  pub lost : Bool
  pub said : Bool

unfoldable pub confirmed_until : ℕ → Standing
confirmed_until until = record { until = until; unconfirmed = none; lost = false; said = false }

pub record Owned : Type 0 where
  pub claim : Claim
  pub port : Text
  pub standing : Standing

pub record Departure : Type 0 where
  pub journey : Journey
  pub to : Subscriber
  pub queue : ℕ
  pub claim : Claim
  pub progress : Progress
  pub until : ℕ

-- When a queue's earliest retry is due: `Due` of src/send_step/due.rs.
pub record Due : Type 0 where
  pub port : Text
  pub at : Option ℕ
  pub waiting : ℕ
  pub noted : Option ℕ

-- The counts of `PortFigures` that the send step's own passes write.
pub record PortFigures : Type 0 where
  pub sent : ℕ
  pub failed : ℕ
  pub lost : ℕ
  pub last_failure : Option (ℕ × Text)

pub record State : Type 0 where
  pub handed : List Departure
  pub due : List (ℕ × Due)
  pub owned : List (ℕ × Owned)
  pub admitted : ℕ
  pub taking : List ℕ
  pub starved : List ℕ
  pub asked : List ℕ
  pub figures : List (Text × PortFigures)
  pub rescan : Bool
  pub served : List ℕ
  pub passed : List (ℕ × List (ℕ × ℕ))
  pub closed : Bool

-- `State::default()`.
abbrev pub empty : State
empty = record {
  handed = [];
  due = [];
  owned = [];
  admitted = 0;
  taking = [];
  starved = [];
  asked = [];
  figures = [];
  rescan = false;
  served = [];
  passed = [];
  closed = false;
}
