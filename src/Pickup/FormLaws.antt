-- ===== src/Pickup/FormLaws.antt =====
-- A standing's record and what is read of it: src/pickup/state.rs.
use mathlib.Core.List.{append_assoc, append-nil}
use xmip_core_runtime.Base.{
  ℕ, if◌then◌else◌, nat_beq, Bool, true, false, [], ◌∷◌, ◌++◌, Text, ◌≡◌, ◌≢◌, ◌<◌, u64_mod, arith,
  ◌∙◌, nat_eq,
}
use xmip_core_runtime.Pickup.State.{Standing}
use xmip_core_runtime.Pickup.Form.{
  Codec, Reads, form, bit, record_of, read_as, other_form, bytes_after, ended, since_read, by_read,
  paused_read, form_read, from_record,
}

module _ (c : Codec) (reads : Reads c) where
  after_by :
      (p : Bool) (by : Text) (n : ℕ) (rest : Text)
      → n < u64_mod
      → by_read c p (c.read_text (c.text by ++ (c.i64_be n ++ rest)))
        ≡ ended (record { paused = p; by = by; since_unix_nanos = n }) rest
  unfolding by_read since_read
  after_by p by n rest small =
      rw (reads.texts by (c.i64_be n ++ rest), by_read, reads.i64s n rest small, since_read)

  after_paused :
      (p : Bool) (rest : Text)
      → paused_read c (c.read_byte (c.byte (bit p) ++ rest)) ≡ by_read c p (c.read_text rest)
  unfolding paused_read
  after_paused true rest = rw (reads.bytes 1 rest (omega arith), paused_read)
  after_paused false rest = rw (reads.bytes 0 rest (omega arith), paused_read)

  after_form :
      (f : ℕ) (rest : Text)
      → f < 256
      → from_record c (c.byte f ++ rest)
        ≡ (if nat_beq f form then paused_read c (c.read_byte rest) else other_form f)
  unfolding from_record form_read
  after_form f rest small = rw (reads.bytes f rest small, form_read)

  regroup : (a b t i rest : Text) → (a ++ (b ++ (t ++ i))) ++ rest ≡ a ++ (b ++ (t ++ (i ++ rest)))
  regroup a b t i rest = simp (append_assoc)

  -- Whatever follows a standing's record is what its end is judged by.
  from_record-ended :
      (s : Standing) (extra : Text)
      → s.since_unix_nanos < u64_mod
      → from_record c (record_of c s ++ extra) ≡ ended s extra
  unfolding record_of
  from_record-ended s extra small =
      let text = c.text s.by in
      let last = c.i64_be s.since_unix_nanos in
      rw (regroup (c.byte form) (c.byte (bit s.paused)) text last extra) (
        after_form 1 (c.byte (bit s.paused) ++ (text ++ (last ++ extra))) (omega arith)
        ∙ after_paused s.paused (text ++ (last ++ extra))
        ∙ after_by s.paused s.by s.since_unix_nanos extra small)

  -- A standing comes back from its record as it was, a record with bytes after it is refused, and so is
  -- one of another form, whose number the refusal tells.
  pub standing_round_trip :
      (s : Standing) (b : ℕ) (rest : Text) (f : ℕ)
      → s.since_unix_nanos < u64_mod
      → f < 256
      → f ≢ 1
      → (from_record c (record_of c s) ≡ read_as s)
        × (from_record c (record_of c s ++ b ∷ rest) ≡ bytes_after)
        × (from_record c (c.byte f ++ rest) ≡ other_form f)
  unfolding ended
  standing_round_trip s b rest f small byte other = (
    rw⁻¹ (append-nil (record_of c s)) (from_record-ended s [] small),
    from_record-ended s (b ∷ rest) small,
    after_form f rest byte ∙ ground (arith),
  )
