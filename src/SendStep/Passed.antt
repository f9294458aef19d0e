-- ===== src/SendStep/Passed.antt =====
-- The places that a scan passed over: `passed` of src/send_step/scan.rs and `read_whole` of
-- src/send_step/figures.rs.
use xmip_core_runtime.Base.{ℕ, List, [], none, some, get, insert, push_new, contains, keep, nat_eq}
use xmip_core_runtime.Sequence.Heads.{Place, place_eq}
use xmip_core_runtime.SendStep.State.{State}

abbrev pub passed_of : ℕ → State → List Place
passed_of queue s = elim (get queue s.passed) [ none ↦ [] | some places ↦ places ]

-- `SendStep::passed`.
abbrev pub pass_over : ℕ → Place → State → State
pass_over queue place s = record s {
  passed = insert queue (push_new (passed_of queue s) place) s.passed;
}

-- A whole read found only `present`: what is gone from the queue is forgotten.
abbrev pub read_whole : ℕ → List Place → State → State
read_whole queue present s = elim (get queue s.passed) [
  | none ↦ s
  | some places ↦ record s { passed = insert queue (keep (contains present) places) s.passed }
]
