-- ===== src/Pool/Defs.antt =====
-- src/pool.rs: a pool of threads and the work it takes. A piece of work is named by a number; what
-- the work does, and a panic of it, which the thread survives, is outside the pool's state. `taken`
-- keeps the work in the order threads took it.
use xmip_core_runtime.Base.{
  ℕ, ◌+◌, ◌-◌, ◌<◌, max, ◌≡◌, Bool, true, false, ◌&&◌, List, [], ◌∷◌, ◌++◌, length, if◌then◌else◌,
  ltb,
}
use xmip_core_runtime.Sending.Defs.{is_empty}

pub record Pool : Type 0 where
  pub queued : List ℕ
  pub threads : ℕ
  pub waiting : ℕ
  pub closed : Bool
  pub most : ℕ
  pub taken : List ℕ

-- `Pool::new`: its first thread started.
unfoldable pub new : (most : ℕ) → Pool
new most = record {
  queued = [];
  threads = 1;
  waiting = 0;
  closed = false;
  most = max most 1;
  taken = [];
}

-- `Pool::run`: a thread is started for the work while more is queued than threads wait.
unfoldable pub run : (work : ℕ) → Pool → Pool
run work p =
    let queued = p.queued ++ work ∷ [] in
    let start = ltb p.waiting (length queued) && ltb p.threads p.most in
    record p { queued = queued; threads = if start then p.threads + 1 else p.threads }

-- `Drop`.
unfoldable pub close : Pool → Pool
close p = record p { closed = true }

-- `serve`'s turns. A thread that is not waiting takes the front of the queue.
unfoldable pub take : Pool → Pool
take p = elim p.queued [
  | [] ↦ p
  | work ∷ rest ↦ record p { queued = rest; taken = p.taken ++ work ∷ [] }
]

-- With nothing queued it ends where the pool is closed, and waits otherwise.
unfoldable pub rest : Pool → Pool
rest p =
    if p.closed then record p { threads = p.threads - 1 } else record p { waiting = p.waiting + 1 }

-- A thread that waited is back; idle for its time with nothing queued, it ends while another is left.
unfoldable pub wake : (timed_out : Bool) → Pool → Pool
wake timed_out p =
    let back = p.waiting - 1 in
    if timed_out && is_empty p.queued && ltb 1 p.threads
    then record p { waiting = back; threads = p.threads - 1 }
    else record p { waiting = back }

-- The pools that its owner and its threads reach, a critical section at a time, and the work run so
-- far, in order.
pub data Reach (most : ℕ) : Pool → List ℕ → Type 0 where
  start : Reach most (new most) []
  ran :
      {p : Pool} {works : List ℕ} (work : ℕ)
      → Reach most p works
      → p.closed ≡ false
      → Reach most (run work p) (works ++ work ∷ [])
  closed_it : {p : Pool} {works : List ℕ} → Reach most p works → Reach most (close p) works
  took :
      {p : Pool} {works : List ℕ}
      → Reach most p works
      → p.waiting < p.threads
      → Reach most (take p) works
  rested :
      {p : Pool} {works : List ℕ}
      → Reach most p works
      → p.waiting < p.threads
      → is_empty p.queued ≡ true
      → Reach most (rest p) works
  woke :
      {p : Pool} {works : List ℕ} (timed_out : Bool)
      → Reach most p works
      → 0 < p.waiting
      → Reach most (wake timed_out p) works
