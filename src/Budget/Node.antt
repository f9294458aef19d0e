-- ===== src/Budget/Node.antt =====
-- The budgets a node builds from its tuning, and what a carry and a send hold: `NodeBudget` of
-- src/budget.rs.
use xmip_core_runtime.Base.{
  ℕ, ◌+◌, ◌*◌, ◌≤◌, ◌<◌, min, Bool, true, false, if◌then◌else◌, arith, mul64, saturating_add64,
  u64_mod,
}
use xmip_core_runtime.Tuning.{Tuning}
use xmip_core_runtime.Tuning
use xmip_core_runtime.Budget.Defs.{Budget, new}

abbrev pub carry_chunks : ℕ
carry_chunks = 8

abbrev pub stream_chunks : ℕ
stream_chunks = 6

pub record NodeBudget : Type 0 where
  pub carries : Budget
  pub received : Budget
  pub sent : Budget
  pub chunk : ℕ

unfoldable pub of : ℕ → Tuning → NodeBudget
of hardware_threads tuning =
    let chunk = Tuning.chunk tuning in
    let carries = (Tuning.node_receive hardware_threads tuning).most in
    let senders = (Tuning.send hardware_threads tuning).most in
    record {
      carries = new carries;
      received = new (mul64 (mul64 carries tuning.receive_chunks_per_thread) chunk);
      sent = new (mul64 (mul64 senders tuning.send_chunks_per_thread) chunk);
      chunk = chunk;
    }

unfoldable pub carry : NodeBudget → ℕ
carry b = mul64 carry_chunks b.chunk

unfoldable pub send : NodeBudget → ℕ → Bool → ℕ
send b length gathered =
    let reading = mul64 stream_chunks (min length b.chunk) in
    if gathered then saturating_add64 length reading else reading

-- A send that streams holds six chunks at most, whatever the Message's length, and one that gathers
-- holds the whole Message besides, cut to what a `u64` holds; for a chunk below 2 ^ 60 bytes.
pub send_bounds :
    (b : NodeBudget) (length : ℕ)
    → b.chunk < 1152921504606846976
    → length < u64_mod
    → (send b length false ≤ 6 * b.chunk)
      × (send b length false ≤ 6 * length)
      × (length ≤ send b length true)
      × (send b length true ≤ length + send b length false)
      × (send b length true < u64_mod)
unfolding send
send_bounds b length small fits = ground arith
