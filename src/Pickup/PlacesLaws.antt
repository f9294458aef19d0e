-- ===== src/Pickup/PlacesLaws.antt =====
-- No Message a Subscription holds is let go of twice at once, and none is forgotten.
use xmip_core_runtime.Base.{
  ℕ, ◌+◌, ◌≡◌, refl, true, false, ◌||◌, contains, if◌then◌else◌, nat_eq, arith,
}
use xmip_core_runtime.Pickup.Places.{
  places, Queue, Happening, keeps, reads, misses, moves, passes, rereads, stands, happens,
  MayHappen, Reach, begun, next, count,
}
use xmip_core_runtime.Pickup.PlacesInv.{
  Inv, keeps-Inv, moves-Inv, passes-Inv, rereads-Inv, misses-Inv, stands-Inv,
}
use xmip_core_runtime.Pickup.PlacesRead.{reads-Inv}

happens-Inv : (p : ℕ) (q : Queue) → Inv p q → (h : Happening) → MayHappen h q → Inv p (happens h q)
happens-Inv p q inv (keeps h) may = keeps-Inv p q inv h may
happens-Inv p q inv (reads most now) may = reads-Inv p q inv most now may
happens-Inv p q inv (misses most now) may = misses-Inv p q inv most now may
happens-Inv p q inv (moves s) may = moves-Inv p q inv s may
happens-Inv p q inv (passes s) may = passes-Inv p q inv s may
happens-Inv p q inv (rereads now s) may = rereads-Inv p q inv now s may
happens-Inv p q inv (stands st) may = stands-Inv p q inv st

Reach-Inv : (p : ℕ) {q : Queue} → Reach q → Inv p q
Reach-Inv p (begun e from_first none_taken) = record {
  ascending = tt;
  numbered = refl;
  ahead = omega arith;
  covered = λ c. ground (arith, c);
  awake = λ a b c. ground (arith, c);
  counted = ground (arith, none_taken);
}
Reach-Inv p (next h q reach may) = happens-Inv p q (Reach-Inv p reach) h may

-- However keeping, reading, failing to read, pausing, resuming and what the node says of what it has
-- follow one another, a place of the queue has been let go of as often as the node was done with it,
-- and once more just where the node has it now: never to two at once. A Publication's write and its
-- telling, and a read and the taking of its answer, each happen as one.
pub let_go_once :
    (p : ℕ) {q : Queue}
    → Reach q
    → count p q.lets ≡ count p q.dones + (if contains q.entry.taken p then 1 else 0)
let_go_once p reach = (Reach-Inv p reach).counted

-- Nothing held is forgotten: where an active Subscription has nothing to be read, each Message its queue
-- holds is one the node has in hand, or one it passed over since the last resume. A Publication's write
-- and its telling, and a read and the taking of its answer, each happen as one.
pub none_forgotten :
    (p : ℕ) {q : Queue}
    → Reach q
    → q.entry.standing.paused ≡ false
    → q.entry.pending ≡ false
    → contains (places q.stored) p ≡ true
    → (contains q.entry.taken p || contains q.passed_over p) ≡ true
none_forgotten p {q} reach active quiet there =
    let inv = Reach-Inv p reach in ground (arith, inv.covered there, inv.awake active quiet there)
