-- ===== src/Examples/Node.antt =====
-- The budget, the pool and the receiving at concrete inputs.
use xmip_core_runtime.Base.{
  ◌≤◌, ◌+◌, not, ◌&&◌, any, ltb, max, ◌≡◌, refl, true, false, List, [], ◌∷◌, ◌++◌, none, arith, sum,
}
use xmip_core_runtime.Budget.System
use xmip_core_runtime.Budget.System.{Action, holds, splits, drops, step, run, start}
use xmip_core_runtime.Budget.Laws.{IsValid, run_bounded}
use xmip_core_runtime.Budget.Node.{NodeBudget}
use xmip_core_runtime.Pool.Defs
use xmip_core_runtime.Pool.Laws.{pool_serves}
use xmip_core_runtime.Receiving.Pace.{found}
use xmip_core_runtime.Receiving.Drain
use xmip_core_runtime.Receiving.Drain.{asks, or_now, drain_ends, asks_iff}

abbrev actions : List Action
actions = holds 6 ∷ splits 0 2 ∷ holds 9 ∷ drops 1 ∷ []

run_bounded_example :
    let s = run (start 10) actions in
    (s.budget.held ≡ sum s.live) × (s.budget.held ≤ s.budget.most) × (1 ≤ s.budget.most)
run_bounded_example = run_bounded 10 actions (ground arith)

abbrev two_held : System.System
two_held = record { budget = record { most = 10; held = 9 }; live = 6 ∷ 3 ∷ [] }

two_held-IsValid : IsValid two_held
two_held-IsValid = record {
  some_room = ground arith;
  small = ground arith;
  bounded = ground arith;
  counted = refl;
}

abbrev node : NodeBudget
node = record {
  carries = record { most = 4; held = 0 };
  received = record { most = 4096; held = 0 };
  sent = record { most = 4096; held = 0 };
  chunk = 1024;
}

-- Two pieces of work for a pool of two, the first of them taken.
abbrev two_given : Defs.Pool
two_given = Defs.take (Defs.run 8 (Defs.run 7 (Defs.new 2)))

two_given-Reach : Defs.Reach 2 two_given (7 ∷ 8 ∷ [])
unfolding Defs.new Defs.run
two_given-Reach = Defs.took (Defs.ran 8 (Defs.ran 7 Defs.start refl) refl) (ground arith)

pool_serves_example :
    (two_given.threads ≤ max 2 1)
    × (two_given.closed ≡ false → 1 ≤ two_given.threads)
    × (two_given.waiting ≤ two_given.threads)
    × (two_given.taken ++ two_given.queued ≡ 7 ∷ 8 ∷ [])
    × (two_given.threads ≡ 0 → two_given.taken ≡ 7 ∷ 8 ∷ [])
pool_serves_example = pool_serves two_given-Reach

-- Its far end let go of what it was handed, before the stop.
abbrev draining : Drain.Drain
draining = record { waits = true; let_go = true; bound = 10; until = none; quiet = false }

drain_ends_example :
    (asks true 16 20 (Drain.run (Drain.was_received found ∷ []) (asks true 5 6 draining).1)).0
    ≡ (not (any Drain.is_quiet (Drain.was_received found ∷ [])) && ltb 20 (5 + draining.bound))
unfolding asks
drain_ends_example = drain_ends 5 6 draining (Drain.was_received found ∷ []) 16 20 refl refl
