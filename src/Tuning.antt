-- ===== src/Tuning.antt =====
-- What a node runs by: src/tuning.rs, and the limits of a pool calculated from the machine,
-- src/pool.rs. A duration is a count of nanoseconds; the machine's hardware threads are a parameter.
use xmip_core_runtime.Base.{ℕ, mul64, saturating_mul64}

pub record Tuning : Type 0 where
  pub tcp_segment : ℕ
  pub segments : ℕ
  pub receive_threads_per_hardware_thread : ℕ
  pub receive_idle : ℕ
  pub receive_poll : ℕ
  pub receive_sweep : ℕ
  pub receive_backoff : ℕ
  pub receive_drain : ℕ
  pub receive_handshake : ℕ
  pub node_receive_threads_per_hardware_thread : ℕ
  pub receive_chunks_per_thread : ℕ
  pub send_threads_per_hardware_thread : ℕ
  pub send_idle : ℕ
  pub send_lease : ℕ
  pub send_scan : ℕ
  pub failed_window : ℕ
  pub send_chunks_per_thread : ℕ
  pub stream_stall : ℕ
  pub storage_timeout : ℕ
  pub storage_pass_over : ℕ
  pub storage_beat : ℕ
  pub storage_silence : ℕ
  pub storage_kept : ℕ
  pub local_timeout : ℕ

pub record Limits : Type 0 where
  pub most : ℕ
  pub idle : ℕ

unfoldable pub per_hardware_thread : ℕ → ℕ → ℕ → Limits
per_hardware_thread hardware_threads threads_per_hardware_thread idle = record {
  most = saturating_mul64 threads_per_hardware_thread hardware_threads;
  idle = idle;
}

unfoldable pub chunk : Tuning → ℕ
chunk t = mul64 t.segments t.tcp_segment

unfoldable pub receive : ℕ → Tuning → Limits
receive hardware_threads t =
    per_hardware_thread hardware_threads t.receive_threads_per_hardware_thread t.receive_idle

unfoldable pub node_receive : ℕ → Tuning → Limits
node_receive hardware_threads t =
    per_hardware_thread hardware_threads t.node_receive_threads_per_hardware_thread t.receive_idle

unfoldable pub send : ℕ → Tuning → Limits
send hardware_threads t =
    per_hardware_thread hardware_threads t.send_threads_per_hardware_thread t.send_idle
