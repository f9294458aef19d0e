-- ===== src/Receiving/Pace.antt =====
-- src/receiving/pace.rs: how long a Receive Location rests after a receive. Durations are
-- nanoseconds.
use xmip_core_runtime.Base.{ℕ, ◌+◌, ◌-◌, ◌≤◌, max, ◌≡◌, ◌≢◌, arith}

pub record Pace : Type 0 where
  pub poll : ℕ
  pub sweep : ℕ
  pub backoff : ℕ
  pub drain : ℕ

-- How the far end is asked: its receive waits, looks, or looks and is told of a change.
pub data Asking : Type 0 where
  waits polled told : Asking

-- What a receive came to.
pub data Ended : Type 0 where
  found nothing mendable : Ended

abbrev pub default : Pace
default = record { poll = 1000000000; sweep = 1000000000; backoff = 5000000000; drain = 1000000000 }

unfoldable pub rest : Pace → Asking → Ended → (took : ℕ) → ℕ
rest p asking found took = 0
rest p waits ended took = 0
rest p polled nothing took = p.poll - took
rest p told nothing took = p.sweep - took
rest p asking mendable took = p.backoff - took

-- The longest of a pace's intervals.
abbrev pub longest : Pace → ℕ
longest p = max p.poll (max p.sweep p.backoff)

-- A receive that found something, or whose far end waits itself, is asked again at once; after any
-- other the next begins no sooner than the interval for what it came to counted from when this one
-- began, and no rest is longer than the longest interval of the pace.
pub rest_paces :
    (p : Pace) (asking : Asking) (ended : Ended) (took : ℕ)
    → (rest p asking ended took ≤ longest p)
      × (rest p asking found took ≡ 0)
      × (rest p waits ended took ≡ 0)
      × (p.poll ≤ took + rest p polled nothing took)
      × (p.sweep ≤ took + rest p told nothing took)
      × (asking ≢ waits → p.backoff ≤ took + rest p asking mendable took)
      × (rest p polled nothing took ≤ p.poll)
      × (rest p told nothing took ≤ p.sweep)
unfolding rest
rest_paces p asking ended took = ground arith
