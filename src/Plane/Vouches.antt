-- ===== src/Plane/Vouches.antt =====
-- What nodes said for one caller, `Proof`'s vouches of src/plane/held.rs: each node's handle, and what
-- was told when it was replaced or when the last holder let the caller go. A closure that tells a node
-- is the node and the handle it is told.
use xmip_core_runtime.Base.{
  ℕ, zero, suc, ◌+◌, ◌≡◌, refl, inl, inr, Bool, ◌&&◌, List, [], ◌∷◌, ◌++◌, Option, none, some, Text,
  arith, length, get_elem?, keep, find, ◌==◌, nat_eq, if◌then◌else◌, Option-cases, ap,
}

pub record Vouch : Type 0 where
  pub at : ℕ
  pub handle : ℕ

pub record Vouches : Type 0 where
  pub vouched : List Vouch
  pub refusals : List (ℕ × Text)
  pub told : List Vouch

unfoldable pub vouched_at : ℕ → Vouches → Option ℕ
vouched_at at s = elim (find (λ (v : Vouch). v.at == at) s.vouched) [
  | none ↦ none
  | some v ↦ some v.handle
]

-- `position` by node.
unfoldable pub position : ℕ → List Vouch → Option ℕ
position at [] = none
position at (v ∷ vs) =
    let rest = position at vs in
    if v.at == at then some 0 else elim rest [ none ↦ none | some i ↦ some (suc i) ]

-- The last of `x ∷ xs`, and the rest without it.
unfoldable pub pop : Vouch → List Vouch → Vouch × List Vouch
pop x [] = (x, [])
pop x (y ∷ ys) = let r = pop y ys in (r.0, x ∷ r.1)

-- `swap_remove`: the last takes the place.
unfoldable pub swap_remove : List Vouch → ℕ → List Vouch
unfolding pop
swap_remove [] i = []
swap_remove (x ∷ []) zero = []
swap_remove (x ∷ y ∷ ys) zero = let r = pop y ys in r.0 ∷ r.1
swap_remove (x ∷ xs) (suc i) = x ∷ swap_remove xs i

-- The node is told of the one replaced.
abbrev pub replaced : List Vouch → Vouches → Option Vouch → Vouches
replaced vouched s none = record s { vouched = vouched }
replaced vouched s (some old) = record s { vouched = vouched; told = s.told ++ old ∷ [] }

unfoldable pub replaces : Vouch → Vouches → Option ℕ → Vouches
replaces v s none = record s { vouched = s.vouched ++ v ∷ [] }
replaces v s (some place) =
    replaced (swap_remove s.vouched place ++ v ∷ []) s (get_elem? s.vouched place)

-- `vouched`.
unfoldable pub vouched : Vouch → Vouches → Vouches
unfolding replaces
vouched v s = replaces v s (position v.at s.vouched)

unfoldable pub refused : ℕ → Text → Vouches → Vouches
refused at why s = record s { refusals = s.refusals ++ (at, why) ∷ [] }

unfoldable pub refusal : ℕ → Vouches → Option Text
refusal at s = elim (find (λ (r : ℕ × Text). r.0 == at) s.refusals) [
  | none ↦ none
  | some (_, why) ↦ some why
]

-- `Drop for Proof`: each node still vouched to is told.
unfoldable pub dropped : Vouches → Vouches
dropped s = record s { vouched = []; told = s.told ++ s.vouched }

unfoldable pub fresh : Vouches
fresh = record { vouched = []; refusals = []; told = [] }

-- The vouches of a caller, in the order nodes gave them.
unfoldable pub run : List Vouch → Vouches → Vouches
run [] s = s
run (v ∷ vs) s = run vs (vouched v s)

abbrev pub same : Vouch → Vouch → Bool
same v w = v.at == w.at && v.handle == w.handle

abbrev pub count : (Vouch → Bool) → List Vouch → ℕ
count p l = length (keep p l)

count-append :
    (p : Vouch → Bool) (xs ys : List Vouch) → count p (xs ++ ys) ≡ count p xs + count p ys
count-append p [] ys = omega arith
count-append p (x ∷ xs) ys = ground (arith, count-append p xs ys)

count-pop :
    (p : Vouch → Bool) (x : Vouch) (xs : List Vouch)
    → let r = pop x xs in count p (r.0 ∷ r.1) ≡ count p (x ∷ xs)
unfolding pop
count-pop p x [] = refl
count-pop p x (y ∷ ys) = ground (arith, count-pop p y ys)

count-swap_remove :
    (p : Vouch → Bool) (l : List Vouch) (i : ℕ) (v : Vouch)
    → get_elem? l i ≡ some v
    → count p l ≡ count p (v ∷ swap_remove l i)
unfolding swap_remove
count-swap_remove p [] i v e = ground arith
count-swap_remove p (x ∷ []) zero v e = ground arith
count-swap_remove p (x ∷ y ∷ ys) zero v e = ground (arith, count-pop p y ys)
count-swap_remove p (x ∷ []) (suc i) v e = ground (arith, count-swap_remove p [] i v)
count-swap_remove p (x ∷ y ∷ ys) (suc i) v e = ground (arith, count-swap_remove p (y ∷ ys) i v)

swap_remove_out : (l : List Vouch) (i : ℕ) → get_elem? l i ≡ none → swap_remove l i ≡ l
unfolding swap_remove
swap_remove_out [] i e = refl
swap_remove_out (x ∷ []) zero e = cc
swap_remove_out (x ∷ y ∷ ys) zero e = cc
swap_remove_out (x ∷ []) (suc i) e = refl
swap_remove_out (x ∷ y ∷ ys) (suc i) e = ap (λ l. x ∷ l) (swap_remove_out (y ∷ ys) i e)

-- What was told and what still stands are what was given.
replaces_balance :
    (p : Vouch → Bool) (v : Vouch) (s : Vouches) (o : Option ℕ)
    → count p (replaces v s o).told + count p (replaces v s o).vouched
      ≡ count p s.told + count p (s.vouched ++ v ∷ [])
unfolding replaces
replaces_balance p v s none = refl
replaces_balance p v s (some i) = elim (Option-cases (get_elem? s.vouched i)) [
  | inl e ↦ rw (replaces, e, swap_remove_out s.vouched i e) refl
  | inr (old, e) ↦
      rw (replaces, e)
        (ground (
          arith,
          count-append p s.told (old ∷ []),
          count-append p (swap_remove s.vouched i) (v ∷ []),
          count-append p s.vouched (v ∷ []),
          count-swap_remove p s.vouched i old e,
        ))
]

run_balance :
    (p : Vouch → Bool) (vs : List Vouch) (s : Vouches)
    → count p (run vs s).told + count p (run vs s).vouched
      ≡ count p s.told + count p s.vouched + count p vs
unfolding run vouched
run_balance p [] s = omega arith
run_balance p (v ∷ vs) s = ground (
  arith,
  run_balance p vs (vouched v s),
  replaces_balance p v s (position v.at s.vouched),
  count-append p s.vouched (v ∷ []),
)

-- However often nodes vouch for a caller, each again or not, once its last holder lets it go every
-- vouch that was given was told of to its node as often as it was given.
pub vouches_told :
    (vs : List Vouch) (v : Vouch) → count (same v) (dropped (run vs fresh)).told ≡ count (same v) vs
unfolding dropped fresh
vouches_told vs v = ground (
  arith,
  count-append (same v) (run vs fresh).told (run vs fresh).vouched,
  run_balance (same v) vs fresh,
)
