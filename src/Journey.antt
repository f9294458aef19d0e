-- ===== src/Journey.antt =====
-- The data of the crate `journey` that the runtime's own code reads and writes: a Journey with the
-- sequences it holds places in, and how it was received. Identifiers are numbers; the fields are
-- those that the modelled code names.
use xmip_core_runtime.Base.{ℕ, Bool, Option, List, Text}

-- `Received`: where a Stream came in, and its places end to end.
pub record Received : Type 0 where
  pub location : Text
  pub port : Text
  pub origin : ℕ
  pub sequences : List ℕ
  pub skips : Bool

-- `Sequenced`: a place a Message holds in a point's sequence.
pub record Sequenced : Type 0 where
  pub queue : ℕ
  pub skips : Bool

-- `GroupDelivery`: a delivery by a Send Port Group.
pub record GroupDelivery : Type 0 where
  pub name : Text
  pub delivery : ℕ
  pub queue : Option ℕ
  pub skips : Bool
  pub members : List ℕ

-- `Attempts`: where a send stands between passes.
pub record Attempts : Type 0 where
  pub location : ℕ
  pub tries : ℕ

pub data JourneyState : Type 0 where
  active waiting recovering completed failed dismissed : JourneyState

pub record Journey : Type 0 where
  pub journey_id : ℕ
  pub state : JourneyState
  pub attempts : Attempts
  pub received : Option Received
  pub group : Option GroupDelivery
  pub send_port : Option Text
  pub current_work_process : Option Text
  pub subscription : Option Text
  pub previous_journey_id : Option ℕ
  pub sequences : List Sequenced
