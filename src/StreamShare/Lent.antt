-- ===== src/StreamShare/Lent.antt =====
-- The bytes a departure reads of its Stream: `Read for Lent` of src/stream_share.rs.
use xmip_core_runtime.Base.{
  ℕ, zero, suc, ◌+◌, ◌-◌, min, Bool, false, [], ◌∷◌, none, some, Text, length, if◌then◌else◌, ltb,
  nat_eq, ◌==◌,
}
use xmip_core_runtime.StreamShare.OneRead.{Answer}
use xmip_core_runtime.StreamShare.Shares.{
  Shared, chunk_of, at_end, falls_behind, faulted, waits, too_far, unanswered, Lent, take,
}

-- The first `n` bytes, and those after them.
abbrev pub front : ℕ → Text → Text
front zero bs = []
front (suc n) [] = []
front (suc n) (b ∷ bs) = b ∷ front n bs

abbrev pub rest_of : ℕ → Text → Text
rest_of zero bs = bs
rest_of (suc n) [] = []
rest_of (suc n) (b ∷ bs) = rest_of n bs

-- What a read answers: bytes, none of them at the Stream's end; `waiting` is a thread that waits.
pub data Said : Type 0 where
  bytes : Text → Said
  eof : Said
  error : (why : Text) → Said
  waiting : (left : ℕ) → Said
  refused : Said
  reading : Said

pub record Reading : Type 0 where
  pub shared : Shared
  pub lent : Lent
  pub said : Said

abbrev pub has_more : Lent → Bool
has_more l = elim l.held [ none ↦ false | some c ↦ ltb l.at (length c) ]

abbrev pub held_text : Lent → Text
held_text l = elim l.held [ none ↦ [] | some c ↦ c ]

unfoldable pub copied : (size : ℕ) → Lent → Shared → Reading
copied size l s =
    let n = min size (length (held_text l) - l.at) in
    record {
      shared = s;
      lent = record l { at = l.at + n };
      said = bytes (front n (rest_of l.at (held_text l)));
    }

abbrev pub holds : Lent → ℕ → Text → Lent
holds l on c = record l {
  on = on;
  place = l.place + 1;
  taken = l.taken + length c;
  held = some c;
  at = 0;
}

-- The loop on fuel, `reading` where it ran out; an empty chunk is passed over.
unfoldable pub read_loop :
    (ℕ → Answer) → (locked : ℕ → Bool) → (fuel stall now size : ℕ) → Lent → Shared → Reading
unfolding copied
read_loop read locked zero stall now size l s = record { shared = s; lent = l; said = reading }
read_loop read locked (suc fuel) stall now size l s =
    let t = take read locked stall now l.on l.number l.place s in
    let m : Lent = record l { on = t.on; held = none } in
    if has_more l then copied size l s else elim t.given [
      | chunk_of c ↦ read_loop read locked fuel stall now size (holds l t.on c) t.shared
      | at_end ↦ record { shared = t.shared; lent = m; said = eof }
      | faulted why ↦ record { shared = t.shared; lent = m; said = error why }
      | waits left ↦ record { shared = t.shared; lent = m; said = waiting left }
      | too_far ↦ record { shared = t.shared; lent = m; said = refused }
      | falls_behind ↦ record { shared = t.shared; lent = m; said = reading }
      | unanswered ↦ record { shared = t.shared; lent = m; said = reading }
    ]

-- `Lent::read`.
unfoldable pub read_bytes :
    (ℕ → Answer) → (locked : ℕ → Bool) → (fuel stall now size : ℕ) → Lent → Shared → Reading
read_bytes read locked fuel stall now size l s =
    if size == 0
    then record { shared = s; lent = l; said = bytes [] }
    else read_loop read locked fuel stall now size l s
