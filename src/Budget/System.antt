-- ===== src/Budget/System.antt =====
-- A budget and the holds taken from it, used by any threads in any order: each action is one
-- critical section of src/budget.rs under the budget's lock.
use xmip_core_runtime.Base.{ℕ, Option, none, some, List, [], ◌∷◌, ◌++◌, get_elem?, set, remove_at}
use xmip_core_runtime.Budget.Defs.{Budget, new, hold, hold_up_to, release, split}

pub record System : Type 0 where
  pub budget : Budget
  pub live : List ℕ

pub data Action : Type 0 where
  holds : (charge : ℕ) → Action
  holds_up_to : (wanted : ℕ) → Action
  splits : (place charge : ℕ) → Action
  drops : (place : ℕ) → Action

-- A look that waits changes nothing; a hold that is not there is no action.
unfoldable pub taken : System → Option (Budget × ℕ) → System
taken s none = s
taken s (some (b, charge)) = record { budget = b; live = s.live ++ charge ∷ [] }

unfoldable pub split_at : System → ℕ → ℕ → Option ℕ → System
split_at s place wanted none = s
split_at s place wanted (some charge) =
    let parts = split charge wanted in record s { live = set s.live place parts.0 ++ parts.1 ∷ [] }

unfoldable pub drop_at : System → ℕ → Option ℕ → System
drop_at s place none = s
drop_at s place (some charge) = record {
  budget = release s.budget charge;
  live = remove_at s.live place;
}

unfoldable pub step : System → Action → System
unfolding taken split_at drop_at
step s (holds charge) = taken s (hold s.budget charge)
step s (holds_up_to wanted) = taken s (hold_up_to s.budget wanted)
step s (splits place charge) = split_at s place charge (get_elem? s.live place)
step s (drops place) = drop_at s place (get_elem? s.live place)

unfoldable pub run : System → List Action → System
run s [] = s
run s (a ∷ rest) = run (step s a) rest

unfoldable pub start : ℕ → System
unfolding new
start most = record { budget = new most; live = [] }
