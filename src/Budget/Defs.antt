-- ===== src/Budget/Defs.antt =====
-- src/budget.rs: what a node holds at once. A wait on the wake is `none`: the thread looks again
-- once a holder let go. A `u64` sum keeps its wrap.

use xmip_core_runtime.Base.{
  ℕ, ◌-◌, min, max, ◌&&◌, ◌==◌, Option, none, some, ltb, leb, if◌then◌else◌, add64, nat_eq,
}

pub record Budget : Type 0 where
  pub most : ℕ
  pub held : ℕ

unfoldable pub new : ℕ → Budget
new most = record { most = max most 1; held = 0 }

-- One look of `hold`: the charge held, or a wait.
unfoldable pub hold : Budget → ℕ → Option (Budget × ℕ)
hold b wanted =
    let charge = min wanted b.most in
    if ltb 0 b.held && ltb b.most (add64 b.held charge)
    then none
    else some (record b { held = add64 b.held charge }, charge)

-- One look of `hold_up_to`.
unfoldable pub hold_up_to : Budget → ℕ → Option (Budget × ℕ)
hold_up_to b asked =
    let wanted = min (max asked 1) b.most in
    let charge = min wanted (b.most - b.held) in
    if leb b.most b.held then none else some (record b { held = add64 b.held charge }, charge)

unfoldable pub release : Budget → ℕ → Budget
release b charge = if charge == 0 then b else record b { held = b.held - charge }

-- `Held::split`: what is left of the hold, and the hold split off.
unfoldable pub split : ℕ → ℕ → ℕ × ℕ
split charge wanted = let part = min wanted charge in (charge - part, part)
