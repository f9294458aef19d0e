-- ===== src/Base/Bytes.antt =====
-- A Rust `String` as its bytes, with a number's decimal digits as `format!` writes them.
use Prim.Native.Nat.{ℕ, zero, suc, ◌+◌, ◌-◌, ◌*◌, ◌/◌, ◌%◌, ◌<◌}
use Prim.Native.Char.{code}
use Prim.Native.String.{String}
use mathlib.Core.Path.{◌≡◌, refl, ap, sym, ◌∙◌}
use mathlib.Core.Logic.{◌↔◌, ◌≢◌, inl, inr}
use mathlib.Core.Bool.{Bool, true, false, ◌&&◌}
use mathlib.Core.List.{List, [], ◌∷◌, ◌++◌}
use native.Mathlib.Omega.{arith}
use xmip_core_runtime.Base.Tests.{Eq, nat_beq, ltb, if◌then◌else◌, Bool-cases, ltb→lt}
use xmip_core_runtime.Base.Lists.{length}

abbrev pub Text : Type 0
Text = List ℕ

abbrev pub codes : String → Text
codes String.[] = []
codes (String.◌∷◌ c s) = code c ∷ codes s

abbrev pub text_beq : Text → Text → Bool
text_beq [] [] = true
text_beq [] (b ∷ bs) = false
text_beq (a ∷ cs) [] = false
text_beq (a ∷ cs) (b ∷ bs) = nat_beq a b && text_beq cs bs

pub text_beq_iff : (s t : Text) → (text_beq s t ≡ true) ↔ (s ≡ t)
text_beq_iff [] [] = (λ _. refl, λ _. refl)
text_beq_iff [] (b ∷ bs) = (λ h. cc, λ h. cc)
text_beq_iff (a ∷ cs) [] = (λ h. cc, λ h. cc)
text_beq_iff (a ∷ cs) (b ∷ bs) =
    let ih = text_beq_iff cs bs in (λ h. ground (arith, ih.0), λ h. ground (arith, ih.1))

instance abbrev pub text_eq : Eq Text
text_eq = record { test = text_beq; decides = text_beq_iff }

decimal_fuel : ℕ → ℕ → Text
decimal_fuel zero n = []
decimal_fuel (suc f) n =
    let rest = decimal_fuel f (n / 10) ++ (48 + n % 10) ∷ [] in
    if ltb n 10 then (48 + n) ∷ [] else rest

unfoldable pub decimal : ℕ → Text
unfolding decimal_fuel
decimal n = decimal_fuel (suc n) n

value : ℕ → Text → ℕ
value acc [] = acc
value acc (d ∷ ds) = value (acc * 10 + (d - 48)) ds

value-snoc : (acc : ℕ) (ds : Text) (d : ℕ) → value acc (ds ++ d ∷ []) ≡ value acc ds * 10 + (d - 48)
unfolding value
value-snoc acc [] d = refl
value-snoc acc (x ∷ ds) d = value-snoc (acc * 10 + (x - 48)) ds d

value-decimal_fuel : (f n : ℕ) → n < f → value 0 (decimal_fuel f n) ≡ n
unfolding decimal_fuel value
value-decimal_fuel zero n h = elim h [ ]
value-decimal_fuel (suc f) n h = elim (Bool-cases (ltb n 10)) [
  | inl small ↦ rw small (omega arith)
  | inr large ↦ rw large (
      ground (
        arith,
        value-snoc 0 (decimal_fuel f (n / 10)) (48 + n % 10),
        value-decimal_fuel f (n / 10),
      ))
]

pub decimal-injective : (m n : ℕ) → decimal m ≡ decimal n → m ≡ n
unfolding decimal
decimal-injective m n h =
    sym (value-decimal_fuel (suc m) m (omega arith))
    ∙ ap (value 0) h
    ∙ value-decimal_fuel (suc n) n (omega arith)

-- No byte of a text is `c`.
abbrev pub Without : ℕ → Text → Type 0
Without c [] = Unit {0}
Without c (x ∷ xs) = (x ≢ c) × Without c xs

Without-append : (c : ℕ) (xs ys : Text) → Without c xs → Without c ys → Without c (xs ++ ys)
Without-append c [] ys h k = k
Without-append c (x ∷ xs) ys h k = (h.0, Without-append c xs ys h.1 k)

decimal_fuel-Without : (c f n : ℕ) → 57 < c → Without c (decimal_fuel f n)
unfolding decimal_fuel
decimal_fuel-Without c zero n h = tt
decimal_fuel-Without c (suc f) n h = elim (Bool-cases (ltb n 10)) [
  | inl small ↦ rw small (λ e. absurd (omega (arith, ltb→lt n 10 small)), tt)
  | inr large ↦ rw large (
      Without-append c (decimal_fuel f (n / 10)) ((48 + n % 10) ∷ [])
        (decimal_fuel-Without c f (n / 10) h) (λ e. absurd (omega arith), tt))
]

-- The digits of a number hold no byte above `9`, such as a colon.
pub decimal-Without : (c n : ℕ) → 57 < c → Without c (decimal n)
unfolding decimal
decimal-Without c n h = decimal_fuel-Without c (suc n) n h

-- A text cut at the first `c` is cut in one way.
pub cut_unique :
    (c : ℕ) (xs ys : Text) {us vs : Text}
    → Without c xs
    → Without c ys
    → xs ++ c ∷ us ≡ ys ++ c ∷ vs
    → (xs ≡ ys) × (us ≡ vs)
cut_unique c [] [] hx hy e = (refl, cc)
cut_unique c [] (y ∷ ys) hx hy e = absurd (hy.0 (cc))
cut_unique c (x ∷ xs) [] hx hy e = absurd (hx.0 (cc))
cut_unique c (x ∷ xs) (y ∷ ys) {us} {vs} hx hy e =
    let tails : xs ++ c ∷ us ≡ ys ++ c ∷ vs = cc in
    let heads : x ≡ y = cc in let r = cut_unique c xs ys hx.1 hy.1 tails in (rw (heads, r.0), r.1)

-- Two appends with first parts of one length agree part by part.
pub append_unique {ℓ} :
    {A : Type ℓ} (xs ys : List A) {us vs : List A}
    → length xs ≡ length ys
    → xs ++ us ≡ ys ++ vs
    → (xs ≡ ys) × (us ≡ vs)
append_unique [] [] h e = (refl, e)
append_unique [] (y ∷ ys) h e = absurd (omega arith)
append_unique (x ∷ xs) [] h e = absurd (omega arith)
append_unique (x ∷ xs) (y ∷ ys) {us} {vs} h e =
    let tails : xs ++ us ≡ ys ++ vs = cc in
    let heads : x ≡ y = cc in
    let r = append_unique xs ys (omega arith) tails in (rw (heads, r.0), r.1)
