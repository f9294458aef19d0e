-- ===== src/SendStep.antt =====
-- src/send_step.rs and its children: what a node sends, what it holds claimed, when each of its
-- queues next has a retry due, and its figures per Send Port.
pub mod State
pub mod Admission
pub mod Bound
pub mod Lined
pub mod LinedLaws
pub mod Due
pub mod DueLaws
pub mod Renewal
pub mod RenewalLaws
pub mod Dispatch
pub mod Pass
pub mod Passed
pub mod Reading
pub mod ReadingLaws
pub mod Scan
pub mod ScanLaws
pub mod ScanUnder
pub mod ScanClaims
pub mod ScanEnds
pub mod PassLaws
pub mod MessageAct
pub mod MessageActLaws
pub mod DispatchLaws
