-- ===== src/StreamShare/Others.antt =====
-- What another departure's joining leaves a departure of its read: src/stream_share.rs.
use xmip_core_runtime.Base.{
  ℕ, ◌≡◌, inl, inr, List, Option, none, some, arith, get, insert, get-insert, nat_eq, ◌==◌,
  Bool-cases, Option-cases,
}
use xmip_core_runtime.StreamShare.OneRead.{Source, opened, join, leave}
use xmip_core_runtime.StreamShare.Shares.{
  Shared, left, leaves, best, joins, opens, joins_best, joined,
}
use xmip_core_runtime.StreamShare.Taking.{IsThere}

abbrev Has : ℕ → List (ℕ × Source) → Type 0
Has on store = (source : Source) × (get on store ≡ some source)

insert-Has :
    (on k : ℕ) (v : Source) (store : List (ℕ × Source)) → Has on store → Has on (insert k v store)
insert-Has on k v store (source, g) = elim (Bool-cases (k == on)) [
  | inl same ↦ (v, ground (arith, get-insert k on v store, same))
  | inr other ↦ (source, ground (arith, get-insert k on v store, other, g))
]

left-IsThere : (on j number : ℕ) (s : Shared) → IsThere on s → IsThere on (left j number s)
unfolding left
left-IsThere on j number s i = elim (Option-cases (get j s.store)) [
  | inl e ↦ rw (left, e) i
  | inr (source, e) ↦ rw (left, e) (insert-Has on j (leave number source) s.store i)
]

leaves-IsThere :
    (on : ℕ) (o : Option ℕ) (number : ℕ) (s : Shared)
    → IsThere on s
    → IsThere on (leaves o number s)
leaves-IsThere on none number s i = i
leaves-IsThere on (some j) number s i = left-IsThere on j number s i

joins_best-IsThere :
    (on number place now : ℕ) (s : Shared) (o : Option (ℕ × ℕ))
    → IsThere on s
    → IsThere on (joins_best number place now s o).0
unfolding opens joins
joins_best-IsThere on number place now s none i =
    insert-Has on s.next (join number place now (opened place)) s.store i
joins_best-IsThere on number place now s (some (n, id)) i = elim (Option-cases (get id s.store)) [
  | inl e ↦ rw (joins, e) i
  | inr (source, e) ↦ rw (joins, e) (insert-Has on id (join number place now source) s.store i)
]

-- A departure's read is there still when another joins one.
pub joined-IsThere :
    (on : ℕ) (o : Option ℕ) (number place now : ℕ) (s : Shared)
    → IsThere on s
    → IsThere on (joined o number place now s).0
unfolding joined
joined-IsThere on o number place now s i =
    let t = leaves o number s in
    joins_best-IsThere on number place now t (best place t.store none t.reads)
      (leaves-IsThere on o number s i)
