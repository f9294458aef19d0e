-- ===== src/SendStep/ScanClaims.antt =====
-- What a scan claims itself, whole: src/send_step/scan.rs and src/send_step/under_claim.rs.
use xmip_core_runtime.Base.{ℕ, ◌≡◌, false, List, [], ◌∷◌, Option, none, some, if◌then◌else◌, nat_eq}
use xmip_core_runtime.Journey.{Journey}
use xmip_core_runtime.Sending.Defs.{Subscriber}
use xmip_core_runtime.SendStep.State.{State, Due, Departure}
use xmip_core_runtime.Sequence.Heads.{Place, place_eq}
use xmip_core_runtime.Departure.Defs.{of}
use xmip_core_runtime.Sequence.Late.{waits_for_places, heading}
use xmip_core_runtime.SendStep.Reading.{Read, Reading, next}
use xmip_core_runtime.SendStep.Scan as Scans
use xmip_core_runtime.SendStep.Scan.{
  World, HeldPage, Under, is_waiting, is_not_due, is_moved, is_not, is_unanswered, Found, waiting,
  failed, finished, unreadable, found_under, at_place, under_page, under_claim, after_claim,
  journey_of, Ready, to_claim, is_claimed, Scan,
}
use xmip_core_runtime.SendStep.ScanUnder.{UnderClaim}

-- One entry that the scan's reading of its queue came to.
abbrev pub Listed : World → Read → Type 0
Listed w one =
    (from : Reading) × (waits : Due) × (rest : Reading × Due) × (next w.read_due w.after from waits
      ≡ some (some one, rest))

-- The Journey sent: the one read under the claim, or that one as its late placing leaves it.
abbrev pub journey_sent : World → Subscriber → Journey → Journey
journey_sent w to j =
    if waits_for_places w.sends j to
    then journey_of j (
        heading w.named w.cluster w.sends to (w.pages j.journey_id) (w.rounds j.journey_id) j
          (w.known j.journey_id))
    else j

-- What leaves of the Journey read under the claim, from the attempts it keeps.
pub record Departs (w : World) (to : Subscriber) (queue : ℕ) (journey : Journey) (d : Departure)
    : Type 0 where
  pub leads : d.to ≡ to
  pub in_queue : d.queue ≡ queue
  pub resumes : d.progress ≡ of journey.attempts
  pub sent : d.journey ≡ journey_sent w to journey

-- The entry it was claimed for, with what was read under its claim, and what leaves of it.
pub record IsDue (w : World) (to : Subscriber) (queue : ℕ) (d : Departure) : Type 0 where
  pub entry : Read
  pub journey : Journey
  pub listed : Listed w entry
  pub live : entry.held.failed ≡ false
  pub was_due : entry.due_in ≡ none
  pub under : UnderClaim w queue (entry.held.journey, entry.held.sequence) d.claim journey
  pub departs : Departs w to queue journey d

abbrev pub AllDue : World → Subscriber → ℕ → List Ready → Type 0
AllDue w to queue [] = Unit {0}
AllDue w to queue (to_claim place ∷ rs) = AllDue w to queue rs
AllDue w to queue (is_claimed d ∷ rs) = IsDue w to queue d × AllDue w to queue rs

module _ (w : World) (to : Subscriber) (queue : ℕ) where
  abbrev ReadyDue : Option Ready → Type 0
  ReadyDue none = Unit {0}
  ReadyDue (some ready) = AllDue w to queue (ready ∷ [])

  module _ (one : Read) (listed : Listed w one) (live : one.held.failed ≡ false)
      (due : one.due_in ≡ none) where
    abbrev place_of : Place
    place_of = (one.held.journey, one.held.sequence)

  abbrev Finds : Scan → Type 0
  Finds r = AllDue w to queue r.found
