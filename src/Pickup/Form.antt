-- ===== src/Pickup/Form.antt =====
-- src/pickup/state.rs: a standing's one binary form. What writes and reads a byte, a text and an `i64`
-- is the crate `codec`, a parameter: a reading is what is read and the bytes left, or no answer.
use xmip_core_runtime.Base.{
  ℕ, Bool, true, false, not, [], ◌∷◌, ◌++◌, Option, none, some, Text, if◌then◌else◌, ◌==◌, nat_eq,
  ◌≡◌, ◌<◌, u64_mod,
}
use xmip_core_runtime.Pickup.State.{Standing}

pub record Codec : Type 0 where
  pub byte : ℕ → Text
  pub text : Text → Text
  pub i64_be : ℕ → Text
  pub read_byte : Text → Option (ℕ × Text)
  pub read_text : Text → Option (Text × Text)
  pub read_i64 : Text → Option (ℕ × Text)

-- What `codec` documents: what is written is read back, with the bytes after it left.
pub record Reads (c : Codec) : Type 0 where
  pub bytes : (b : ℕ) (rest : Text) → b < 256 → c.read_byte (c.byte b ++ rest) ≡ some (b, rest)
  pub texts : (t rest : Text) → c.read_text (c.text t ++ rest) ≡ some (t, rest)
  pub i64s : (n : ℕ) (rest : Text) → n < u64_mod → c.read_i64 (c.i64_be n ++ rest) ≡ some (n, rest)

-- `FORM`.
abbrev pub form : ℕ
form = 1

-- `u8::from`.
abbrev pub bit : Bool → ℕ
bit true = 1
bit false = 0

-- `Standing::record`.
unfoldable pub record_of : Codec → Standing → Text
record_of c s =
    c.byte form ++ (c.byte (bit s.paused) ++ (c.text s.by ++ c.i64_be s.since_unix_nanos))

-- `Ok`, or which of the three errors.
pub data Reading : Type 0 where
  read_as : Standing → Reading
  other_form : ℕ → Reading
  cut_short : Reading
  bytes_after : Reading

unfoldable pub ended : Standing → Text → Reading
ended s [] = read_as s
ended s (b ∷ rest) = bytes_after

unfoldable pub since_read : Bool → Text → Option (ℕ × Text) → Reading
unfolding ended
since_read paused by none = cut_short
since_read paused by (some (since, rest)) =
    ended (record { paused = paused; by = by; since_unix_nanos = since }) rest

unfoldable pub by_read : Codec → Bool → Option (Text × Text) → Reading
unfolding since_read
by_read c paused none = cut_short
by_read c paused (some (by, rest)) = since_read paused by (c.read_i64 rest)

unfoldable pub paused_read : Codec → Option (ℕ × Text) → Reading
unfolding by_read
paused_read c none = cut_short
paused_read c (some (b, rest)) = by_read c (not (b == 0)) (c.read_text rest)

unfoldable pub form_read : Codec → Option (ℕ × Text) → Reading
unfolding paused_read
form_read c none = cut_short
form_read c (some (f, rest)) = if f == form then paused_read c (c.read_byte rest) else other_form f

-- `Standing::from_record`.
unfoldable pub from_record : Codec → Text → Reading
unfolding form_read
from_record c bytes = form_read c (c.read_byte bytes)
