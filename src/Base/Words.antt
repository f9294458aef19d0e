-- ===== src/Base/Words.antt =====
-- Machine words: `u64` and `u32` arithmetic with the wrap written out, and the saturating forms.
use Prim.Native.Nat.{ℕ, ◌+◌, ◌-◌, ◌*◌, ◌%◌, min}

abbrev pub u64_mod : ℕ
u64_mod = 18446744073709551616

abbrev pub u32_mod : ℕ
u32_mod = 4294967296

abbrev pub add64 : ℕ → ℕ → ℕ
add64 a b = (a + b) % u64_mod

abbrev pub mul64 : ℕ → ℕ → ℕ
mul64 a b = a * b % u64_mod

abbrev pub add32 : ℕ → ℕ → ℕ
add32 a b = (a + b) % u32_mod

-- `u64::saturating_add`; `saturating_sub` is the `-` of ℕ.
abbrev pub saturating_add64 : ℕ → ℕ → ℕ
saturating_add64 a b = min (a + b) (u64_mod - 1)

abbrev pub saturating_add32 : ℕ → ℕ → ℕ
saturating_add32 a b = min (a + b) (u32_mod - 1)

abbrev pub saturating_mul64 : ℕ → ℕ → ℕ
saturating_mul64 a b = min (a * b) (u64_mod - 1)
