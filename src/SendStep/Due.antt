-- ===== src/SendStep/Due.antt =====
-- src/send_step/due.rs: when a queue's earliest retry is due. An instant is a number; Rust's count
-- of those waiting is a `u64`.
use xmip_core_runtime.Base.{
  ℕ, min, max, Bool, List, [], ◌∷◌, Option, none, some, Text, get, insert, add64, if◌then◌else◌,
  nat_eq,
}
use xmip_core_runtime.SendStep.State.{State, Due}

-- `Due::of`.
unfoldable pub of : Text → Due
of port = record { port = port; at = none; waiting = 0; noted = none }

-- The earlier of what was, where there is one, and `at`.
unfoldable pub earlier : Option ℕ → ℕ → ℕ
earlier none at = at
earlier (some was) at = min was at

-- `Due::wakes_at`.
unfoldable pub found_at : ℕ → Due → Due
found_at at d = record d { at = some (earlier d.at at) }

-- `Due::wakes`.
unfoldable pub wakes : ℕ → Due → Due
wakes at d = record d { at = some (earlier d.at at); noted = some (earlier d.noted at) }

-- `Due::noted`.
unfoldable pub note : ℕ → Due → Due
unfolding wakes
note at d = wakes at (record d { waiting = add64 d.waiting 1 })

-- The queue's entry, or a fresh one: `entry(queue).or_insert_with(…)`.
unfoldable pub entry : Text → ℕ → List (ℕ × Due) → Due
entry port queue m = elim (get queue m) [ none ↦ of port | some d ↦ d ]

-- `State::wakes_at`.
unfoldable pub earliest : ℕ → List (ℕ × Due) → ℕ
earliest until [] = until
earliest until ((q, d) ∷ m) = elim d.at [
  | none ↦ earliest until m
  | some at ↦ earliest (min until at) m
]

unfoldable pub wakes_at : ℕ → State → ℕ
wakes_at until s = earliest until s.due

-- `reading`: a read of `queue` begins.
unfoldable pub reading : ℕ → State → State
reading queue s = elim (get queue s.due) [
  | none ↦ s
  | some d ↦ record s { due = insert queue (record d { noted = none }) s.due }
]

-- `not_due`, and the note a hand-on takes in `settle`.
unfoldable pub not_due : Text → ℕ → ℕ → State → State
not_due port queue at s = record s { due = insert queue (wakes at (entry port queue s.due)) s.due }

unfoldable pub noted : Text → ℕ → ℕ → State → State
noted port queue at s = record s { due = insert queue (note at (entry port queue s.due)) s.due }

-- What a whole read found, with what was noted since it began.
unfoldable pub replaced : Due → Due → Due
replaced waits due = elim due.noted [
  | none ↦ waits
  | some at ↦ record waits { at = some (earlier waits.at at); noted = some at }
]

unfoldable pub merged : Due → Due → Due
merged waits due = elim waits.at [
  | none ↦ due
  | some at ↦ record due { at = some (earlier due.at at); waiting = max due.waiting waits.waiting }
]

-- `waited`: what a scan of `queue` found waiting.
unfoldable pub waited : ℕ → Due → Bool → State → State
unfolding replaced merged entry
waited queue waits whole s =
    let due = entry waits.port queue s.due in
    record s { due = insert queue (if whole then replaced waits due else merged waits due) s.due }

-- What hand-ons and scans' claims tell of a queue while it is read, in the order they tell it.
pub data Tells : Type 0 where
  hand_on : (queue at : ℕ) → Tells
  claimed_early : (queue at : ℕ) → Tells

unfoldable pub tell : Text → Tells → State → State
unfolding not_due noted
tell port (hand_on queue at) s = noted port queue at s
tell port (claimed_early queue at) s = not_due port queue at s

unfoldable pub tell_each : Text → List Tells → State → State
tell_each port [] s = s
tell_each port (t ∷ ts) s = tell_each port ts (tell port t s)
