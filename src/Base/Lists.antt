-- ===== src/Base/Lists.antt =====
-- Lists measured and indexed by native numbers, under the library's names, and Boolean searches.
use Prim.Native.Nat.{ℕ, zero, suc, ◌+◌, ◌≤◌}
use mathlib.Core.Path.{◌≡◌, refl}
use mathlib.Core.Bool.{Bool, true, false, ◌||◌, ◌&&◌}
use mathlib.Core.Option.{Option, none, some}
use mathlib.Core.List.{List, [], ◌∷◌, ◌++◌}
use native.Mathlib.Omega.{arith}
use xmip_core_runtime.Base.Tests.{Eq, if◌then◌else◌, ◌==◌}

module _ {ℓ} {A : Type ℓ} where
  abbrev pub length : List A → ℕ
  length [] = 0
  length (x ∷ xs) = suc (length xs)

  abbrev pub get_elem? : List A → ℕ → Option A
  get_elem? [] i = none
  get_elem? (x ∷ xs) zero = some x
  get_elem? (x ∷ xs) (suc i) = get_elem? xs i

  abbrev pub head? : List A → Option A
  head? [] = none
  head? (x ∷ xs) = some x

  -- `Iterator::filter`, `any`, `all` and `find` by a Boolean test.
  abbrev pub keep : (A → Bool) → List A → List A
  keep p [] = []
  keep p (x ∷ xs) = let rest = keep p xs in if p x then x ∷ rest else rest

  abbrev pub any : (A → Bool) → List A → Bool
  any p [] = false
  any p (x ∷ xs) = p x || any p xs

  abbrev pub all : (A → Bool) → List A → Bool
  all p [] = true
  all p (x ∷ xs) = p x && all p xs

  abbrev pub find : (A → Bool) → List A → Option A
  find p [] = none
  find p (x ∷ xs) = if p x then some x else find p xs

  pub length-append : (xs ys : List A) → length (xs ++ ys) ≡ length xs + length ys
  length-append [] ys = omega arith
  length-append (x ∷ xs) ys = omega (arith, length-append xs ys)

  pub length-keep-le : (p : A → Bool) (xs : List A) → length (keep p xs) ≤ length xs
  length-keep-le p [] = omega arith
  length-keep-le p (x ∷ xs) = ground (arith, length-keep-le p xs)

  pub any-append : (p : A → Bool) (xs ys : List A) → any p (xs ++ ys) ≡ (any p xs || any p ys)
  any-append p [] ys = refl
  any-append p (x ∷ xs) ys = ground (arith, any-append p xs ys)

module _ {ℓ} {A : Type ℓ} ⦃e : Eq A⦄ where
  abbrev pub contains : List A → A → Bool
  contains xs a = any (λ x. x == a) xs

  -- `if !xs.contains(&a) { xs.push(a) }`
  abbrev pub push_new : List A → A → List A
  push_new xs a = if contains xs a then xs else xs ++ a ∷ []

  pub contains_here : (a : A) (xs : List A) → contains (a ∷ xs) a ≡ true
  contains_here a xs = ground (arith, (e.decides a a).1 refl)

  pub contains-push_new_self : (xs : List A) (a : A) → contains (push_new xs a) a ≡ true
  contains-push_new_self xs a =
      ground (arith, any-append (λ x. x == a) xs (a ∷ []), (e.decides a a).1 refl)

  pub contains-push_new :
      (xs : List A) (a b : A) → contains xs b ≡ true → contains (push_new xs a) b ≡ true
  contains-push_new xs a b h = ground (arith, any-append (λ x. x == b) xs (a ∷ []))

  -- `for q in qs { if !xs.contains(&q) { xs.push(q) } }`
  abbrev pub push_all : List A → List A → List A
  push_all xs [] = xs
  push_all xs (q ∷ qs) = push_all (push_new xs q) qs

  pub contains-push_all_old :
      (qs xs : List A) (b : A) → contains xs b ≡ true → contains (push_all xs qs) b ≡ true
  contains-push_all_old [] xs b h = h
  contains-push_all_old (q ∷ qs) xs b h =
      contains-push_all_old qs (push_new xs q) b (contains-push_new xs q b h)

  pub contains-push_all_new :
      (qs xs : List A) (b : A) → contains qs b ≡ true → contains (push_all xs qs) b ≡ true
  contains-push_all_new [] xs b h = ground arith
  contains-push_all_new (q ∷ qs) xs b h = ground (
    arith,
    contains-push_all_new qs (push_new xs q) b,
    contains-push_all_old qs (push_new xs q) b,
    (e.decides q b).0,
    contains-push_new_self xs q,
  )

-- Lists of numbers.
abbrev pub sum : List ℕ → ℕ
sum [] = 0
sum (x ∷ xs) = x + sum xs

module _ {ℓ} {A : Type ℓ} where
  abbrev pub set : List A → ℕ → A → List A
  set [] i v = []
  set (x ∷ xs) zero v = v ∷ xs
  set (x ∷ xs) (suc i) v = x ∷ set xs i v

  abbrev pub remove_at : List A → ℕ → List A
  remove_at [] i = []
  remove_at (x ∷ xs) zero = xs
  remove_at (x ∷ xs) (suc i) = x ∷ remove_at xs i

pub sum-append : (xs ys : List ℕ) → sum (xs ++ ys) ≡ sum xs + sum ys
sum-append [] ys = omega arith
sum-append (x ∷ xs) ys = omega (arith, sum-append xs ys)

pub sum-set :
    (xs : List ℕ) (i v w : ℕ) → get_elem? xs i ≡ some w → sum (set xs i v) + w ≡ sum xs + v
sum-set [] i v w h = ground arith
sum-set (x ∷ xs) zero v w h = ground arith
sum-set (x ∷ xs) (suc i) v w h = omega (arith, sum-set xs i v w h)

pub sum-remove_at :
    (xs : List ℕ) (i w : ℕ) → get_elem? xs i ≡ some w → sum (remove_at xs i) + w ≡ sum xs
sum-remove_at [] i w h = ground arith
sum-remove_at (x ∷ xs) zero w h = ground arith
sum-remove_at (x ∷ xs) (suc i) w h = omega (arith, sum-remove_at xs i w h)

module _ {ℓ} {A : Type ℓ} where
  pub get_elem?-lt : (xs : List A) (i : ℕ) → get_elem? xs i ≡ none → length xs ≤ i
  get_elem?-lt [] i h = omega arith
  get_elem?-lt (x ∷ xs) zero h = ground arith
  get_elem?-lt (x ∷ xs) (suc i) h = omega (arith, get_elem?-lt xs i h)
