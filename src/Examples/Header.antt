-- ===== src/Examples/Header.antt =====
-- The header's integers at concrete constants.
use xmip_core_runtime.Base.{◌≡◌, ◌↔◌, refl, some}
use xmip_core_runtime.Wire.Defs.{
  paused, bytes, process, timeout, HealthInts, CountedInts, StageInts, OutcomeInts, wire_health,
  from_wire_health, wire_counted, from_wire_counted, wire_stage, stage_of, wire_outcome, outcome_of,
}
use xmip_core_runtime.Wire.Laws.{wire_round_trip}

abbrev healths : HealthInts
healths = record {
  fine = 0;
  paused = 1;
  working = 2;
  stressed = 3;
  exhausted = 4;
  done = 5;
  holding = 6;
}

abbrev things : CountedInts
things = record { streams = 1; messages = 2; journeys = 3; bytes = 4; retrying = 5; failed = 6 }

abbrev stages : StageInts
stages = record { receive = 0; process = 1; send = 2 }

abbrev outcomes : OutcomeInts
outcomes = record {
  success = 0;
  failure = 1;
  rejection = 2;
  waiting = 3;
  pause = 4;
  timeout = 5;
  exhausted_retries = 6;
  dismissal = 7;
}

wire_round_trip_example :
    ((from_wire_health healths 1 ≡ some paused) ↔ (wire_health healths paused ≡ 1))
    × ((from_wire_counted things 1 ≡ some bytes) ↔ (wire_counted things bytes ≡ 1))
    × ((stage_of stages 1 ≡ some process) ↔ (wire_stage stages process ≡ 1))
    × ((outcome_of outcomes 1 ≡ some timeout) ↔ (wire_outcome outcomes timeout ≡ 1))
wire_round_trip_example =
    wire_round_trip healths things stages outcomes 1 paused bytes process timeout refl refl refl
      refl
