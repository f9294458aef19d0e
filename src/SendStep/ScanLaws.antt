-- ===== src/SendStep/ScanLaws.antt =====
-- A scan holds only places that the Send pool admitted: src/send_step/scan.rs.
use xmip_core_runtime.Base.{ℕ, suc, ◌+◌, List, [], ◌∷◌, Option, none, some, nat_eq}
use xmip_core_runtime.Journey.{Journey}
use xmip_core_runtime.Sending.Defs.{Subscriber}
use xmip_core_runtime.SendStep.State.{State, Due}
use xmip_core_runtime.SendStep.Bound.{Reach}
use xmip_core_runtime.Sequence.Heads.{place_eq}
use xmip_core_runtime.SendStep.Reading.{Reading}
use xmip_core_runtime.SendStep.Scan as Scans
use xmip_core_runtime.SendStep.Scan.{World, Found, Ready, to_claim, is_claimed, Scan, placed_late}

-- The places of what is found and not claimed yet.
abbrev pub unowned : List Ready → ℕ
unowned [] = 0
unowned (to_claim place ∷ rs) = suc (unowned rs)
unowned (is_claimed d ∷ rs) = unowned rs

module _ (w : World) (to : Subscriber) (queue : ℕ) where
  abbrev At : State → ℕ → Type 0
  At s n = Reach w.most (record { state = s; places = n })

  abbrev places_of : Option Ready → ℕ
  places_of none = 0
  places_of (some (to_claim place)) = 1
  places_of (some (is_claimed d)) = 0

  abbrev Holds : ℕ → Scan → Type 0
  Holds n r = At r.state (n + unowned r.found)
