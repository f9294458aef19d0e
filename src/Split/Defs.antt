-- ===== src/Split/Defs.antt =====
-- src/split.rs: what splits a Message's bytes is a unit, handed them a chunk at a time. The unit, what
-- Xmip Storage makes of a record's Stream, the outcomes gathered (`xcore::Outcomes`), the Messages and
-- their context (crates `message` and `context`) and the identifiers minted are parameters.
use xmip_core_runtime.Base.{
  ℕ, ◌+◌, ◌-◌, ◌^◌, min, Bool, true, false, List, [], ◌∷◌, ◌++◌, Text, codes, length, if◌then◌else◌,
}

pub data Result {ℓ} (A : Type ℓ) : Type ℓ where
  ok : A → Result A
  err : (why : Text) → Result A

unfoldable pub and_then {ℓ κ} : {A : Type ℓ} {B : Type κ} → Result A → (A → Result B) → Result B
and_then (ok a) f = f a
and_then (err why) f = err why

-- `Record`.
pub data Record : Type 0 where
  part : (bytes : Text) → Record
  refused : (reason : Text) → Record

-- `trait Split`: what is left of the unit, and the records that the bytes complete.
pub record Split (U : Type 0) : Type 0 where
  pub feed : U → (chunk : Text) → U × List Record
  pub end : U → List Record

-- `xcore::Outcomes`, what the splitting calls.
pub record Outcomes (O : Type 0) : Type 0 where
  pub new : O
  pub took : O → ℕ
  pub is_empty : O → Bool
  pub succeed : (position : ℕ) → O → O
  pub fail : (reason : Text) → (position : ℕ) → O → O

-- The unit goes beside it, and no record waits in it between two calls.
pub record Splitting (O S : Type 0) : Type 0 where
  pub written : List S
  pub failures : O

-- What a Section's reader answers: bytes, none at its end, or a failure.
pub data Read : Type 0 where
  got : (bytes : Text) → Read
  unread : (why : Text) → Read

-- `xcore::ScalarValue`, what a part is told.
pub data ScalarValue : Type 0 where
  text : Text → ScalarValue
  integer : ℕ → ScalarValue

-- `message::Message`, what the splitting calls: `debatched` is the next generation of a Message.
pub record Messages (M S C : Type 0) : Type 0 where
  pub message_id : M → Text
  pub context : M → C
  pub with_value : (name : Text) → ScalarValue → C → C
  pub debatched : M → (id : ℕ) → List S → C → M

pub data Ended (S O : Type 0) : Type 0 where
  made : (sections : List S) → Ended S O
  failed : (failures : O) → Ended S O

pub data Parts (M O : Type 0) : Type 0 where
  parts_made : List M → Parts M O
  none_made : (failures : O) → Parts M O

abbrev pub i64_max : ℕ
i64_max = 2 ^ 63 - 1

-- `BATCH`, `POSITION` and `COUNT`.
abbrev pub batch_name : Text
batch_name = codes "debatch.message"

abbrev pub position_name : Text
position_name = codes "debatch.position"

abbrev pub count_name : Text
count_name = codes "debatch.count"

-- `ids` is the identifier minted for the part at a position.
module _ {M S C : Type 0} (of : Messages M S C) (ids : ℕ → ℕ) (from : M) where
  -- The context of the part at `position` of `count`.
  unfoldable pub context_of : (position count : ℕ) → C
  context_of position count = of.with_value count_name (integer count) (
      of.with_value position_name (integer position)
        (of.with_value batch_name (text (of.message_id from)) (of.context from)))

  -- The parts of a split, each a Message at its position.
  unfoldable pub numbered : (position count : ℕ) → List S → List M
  unfolding context_of
  numbered position count [] = []
  numbered position count (s ∷ ss) =
      of.debatched from (ids position) (s ∷ []) (context_of position count)
      ∷ numbered (position + 1) count ss

  -- `parts`.
  unfoldable pub parts : {O : Type 0} → Ended S O → Parts M O
  unfolding numbered
  parts (made ss) = parts_made (numbered 1 (min (length ss) i64_max) ss)
  parts (failed failures) = none_made failures

module _ {O S : Type 0} (outcomes : Outcomes O) where
  -- `Splitting::new`.
  abbrev pub new : Splitting O S
  new = record { written = []; failures = outcomes.new }

  abbrev pub succeeds : Splitting O S → Splitting O S
  succeeds s = record s { failures = outcomes.succeed (outcomes.took s.failures) s.failures }

  unfoldable pub ended : Splitting O S → Ended S O
  ended s = if outcomes.is_empty s.failures then made s.written else failed s.failures

module _ {O S : Type 0} (outcomes : Outcomes O) (section : ℕ → Text → Result S) where
  -- `write`'s loop. `section` is the Stream kept as the next after those written.
  unfoldable pub write : List Record → Splitting O S → Result (Splitting O S)
  write [] s = ok s
  write (part bytes ∷ records) s = elim (outcomes.is_empty s.failures) [
    | true ↦
        and_then (section (length s.written) bytes)
          λ one. write records (succeeds outcomes (record s { written = s.written ++ one ∷ [] }))
    | false ↦ write records (succeeds outcomes s)
  ]
  write (refused reason ∷ records) s =
      write records
        (record s { failures = outcomes.fail reason (outcomes.took s.failures) s.failures })

module _ {U O S : Type 0} (split : Split U) (outcomes : Outcomes O)
    (section : ℕ → Text → Result S) where
  -- `Splitting::feed`.
  unfoldable pub feed : (chunk : Text) → U × Splitting O S → Result (U × Splitting O S)
  unfolding write
  feed chunk (u, s) =
      let r = split.feed u chunk in and_then (write outcomes section r.1 s) λ t. ok (r.0, t)

  -- `Splitting::end`.
  unfoldable pub end : U × Splitting O S → Result (Ended S O)
  unfolding write ended
  end (u, s) = and_then (write outcomes section (split.end u) s) λ t. ok (ended outcomes t)

  -- One Section's bytes, read until it reads none.
  unfoldable pub feeds : List Read → U × Splitting O S → Result (U × Splitting O S)
  unfolding feed
  feeds [] s = ok s
  feeds (got [] ∷ reads) s = ok s
  feeds (got (b ∷ bs) ∷ reads) s = and_then (feed (b ∷ bs) s) λ t. feeds reads t
  feeds (unread why ∷ reads) s = err why

  unfoldable pub sections : List (List Read) → U × Splitting O S → Result (U × Splitting O S)
  unfolding feeds
  sections [] s = ok s
  sections (one ∷ rest) s = and_then (feeds one s) λ t. sections rest t

module _ {U M O S C : Type 0} (split : Split U) (outcomes : Outcomes O)
    (section : ℕ → Text → Result S) (of : Messages M S C) (ids : ℕ → ℕ) where
  -- `whole`, `reads` what the Message's Sections read.
  unfoldable pub whole : (from : M) → (reads : List (List Read)) → U → Result (Parts M O)
  unfolding sections end parts
  whole from reads u =
      and_then (sections split outcomes section reads (u, new outcomes))
        λ s. and_then (end split outcomes section s) λ e. ok (parts of ids from e)
