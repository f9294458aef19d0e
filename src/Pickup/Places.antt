-- ===== src/Pickup/Places.antt =====
-- One Subscription's queue as Xmip Storage keeps it and as the node reads it, in the order in which
-- the parts of src/pickup.rs, src/pickup/holding.rs and src/pickup/released.rs happen to it. A
-- Publication's write and its telling are one happening here, and so are a read and its taking.
use xmip_core_runtime.Base.{
  ℕ, zero, suc, ◌+◌, ◌<◌, ◌≤◌, ◌≡◌, true, not, List, [], ◌∷◌, ◌++◌, none, some, map, keep, contains,
  leb, if◌then◌else◌, ◌==◌, nat_eq, u64_mod,
}
use xmip_core_runtime.Pickup.State.{Standing, Entry, entry_ready}
use xmip_core_runtime.Pickup.Act.{stand}
use xmip_core_runtime.Pickup.Holding.{told}
use xmip_core_runtime.Pickup.Released.{Held, Released, on_read, settled, one_picked_up, read_again}

abbrev pub first : ℕ → List Held → List Held
first zero held = []
first (suc n) [] = []
first (suc n) (h ∷ held) = h ∷ first n held

abbrev pub places : List Held → List ℕ
places = map (λ (h : Held). h.sequence)

abbrev pub places_let_go : List Released → List ℕ
places_let_go = map (λ (r : Released). r.held.sequence)

-- What is documented of `read_held`: the first of what the queue holds from a place, in its order.
abbrev pub from_place : ℕ → List Held → List Held
from_place c = keep (λ (h : Held). leb c h.sequence)

-- What the queue holds and from which place the next is numbered, what the node passed over since it last read from the first place, and the
-- places let go of to it and done with, each as often as it was.
pub record Queue : Type 0 where
  pub entry : Entry
  pub stored : List Held
  pub numbered : ℕ
  pub passed_over : List ℕ
  pub lets : List ℕ
  pub dones : List ℕ

pub data Happening : Type 0 where
  keeps : Held → Happening
  reads : (most : ℕ) → (now : ℕ) → Happening
  misses : (most : ℕ) → (now : ℕ) → Happening
  moves passes : (sequence : ℕ) → Happening
  rereads : (now : ℕ) → (sequence : ℕ) → Happening
  stands : Standing → Happening

abbrev pub read_from : Queue → Entry × List Released → Queue
read_from q (e, let_go) = record q { entry = e; lets = q.lets ++ places_let_go let_go }

abbrev pub others_than : ℕ → List Held → List Held
others_than p = keep (λ (h : Held). not (h.sequence == p))

unfoldable pub happens : Happening → Queue → Queue
unfolding told on_read settled one_picked_up read_again stand
happens (keeps h) q = record q {
  entry = told q.entry;
  stored = q.stored ++ h ∷ [];
  numbered = h.sequence + 1;
}
happens (reads most now) q = read_from q (
    on_read most q.entry.cursor now (some (first most (from_place q.entry.cursor q.stored)))
      q.entry)
happens (misses most now) q = read_from q (on_read most q.entry.cursor now none q.entry)
happens (moves p) q = record q {
  entry = settled one_picked_up p q.entry;
  stored = others_than p q.stored;
  dones = q.dones ++ p ∷ [];
}
happens (passes p) q = record q {
  entry = settled (λ e. e) p q.entry;
  passed_over = q.passed_over ++ p ∷ [];
  dones = q.dones ++ p ∷ [];
}
happens (rereads now p) q = record q { entry = read_again now p q.entry; dones = q.dones ++ p ∷ [] }
happens (stands st) q = record q {
  entry = stand st q.entry;
  passed_over = if st.paused then q.passed_over else [];
}

-- A Message is kept at a place past each there was in the queue, and the node says what it did of what it has.
abbrev pub MayHappen : Happening → Queue → Type 0
MayHappen (keeps h) q = (q.numbered ≤ h.sequence) × (h.sequence + 1 < u64_mod)
MayHappen (reads most now) q = entry_ready q.entry now ≡ true
MayHappen (misses most now) q = entry_ready q.entry now ≡ true
MayHappen (moves p) q = contains q.entry.taken p ≡ true
MayHappen (passes p) q = contains q.entry.taken p ≡ true
MayHappen (rereads now p) q = contains q.entry.taken p ≡ true
MayHappen (stands st) q = Unit

-- A node's start with nothing held, and all that may happen after it.
pub data Reach : Queue → Type 0 where
  begun :
      (e : Entry)
      → e.cursor ≡ 0
      → e.taken ≡ []
      → Reach
          (record { entry = e; stored = []; numbered = 0; passed_over = []; lets = []; dones = [] })
  next : (h : Happening) (q : Queue) → Reach q → MayHappen h q → Reach (happens h q)

abbrev pub count : ℕ → List ℕ → ℕ
count p [] = 0
count p (x ∷ xs) = (if x == p then 1 else 0) + count p xs
