-- ===== src/StreamShare/OneRead.antt =====
-- src/stream_share/one_read.rs: one read of a Stream and the chunks it keeps. What Xmip Storage's
-- chunk reader answers at each place of the Stream is the parameter `read`; a chunk is its bytes.
use xmip_core_runtime.Base.{
  ℕ, zero, suc, ◌+◌, ◌-◌, ◌*◌, min, max, Bool, true, false, not, ◌&&◌, ◌||◌, List, [], ◌∷◌, ◌++◌,
  Option, none, some, Text, length, get_elem?, keep, is_some, if◌then◌else◌, ltb, leb, ◌==◌, nat_eq,
}
use xmip_core_runtime.Budget.Node.{stream_chunks}

pub data Answer : Type 0 where
  chunk : Text → Answer
  end : Answer
  fault : (why : Text) → Answer

pub record Reader : Type 0 where
  pub number : ℕ
  pub next : ℕ
  pub took : ℕ

-- `at` is the place the chunk reader reads next.
pub record Source : Type 0 where
  pub at : ℕ
  pub window : List Text
  pub first : ℕ
  pub ended : Bool
  pub failed : Option Text
  pub readers : List Reader

abbrev pub kept_per_reader : ℕ
kept_per_reader = stream_chunks - 1

unfoldable pub kept : ℕ → ℕ
kept readers = max (kept_per_reader * (readers - 1)) 1

-- `OneRead::opened`.
unfoldable pub opened : (place : ℕ) → Source
opened place = record {
  at = place;
  window = [];
  first = place;
  ended = false;
  failed = none;
  readers = [];
}

unfoldable pub reaches : Source → ℕ → Bool
reaches s place =
    leb s.first place
    && not (is_some s.failed)
    && (leb (place - s.first) (length s.window)
        || ltb (place - s.first) (kept (length s.readers + 1)))

unfoldable pub join : (number place now : ℕ) → Source → Source
join number place now s = record s {
  readers = s.readers ++ record { number = number; next = place; took = now } ∷ [];
}

unfoldable pub leave : (number : ℕ) → Source → Source
leave number s = record s { readers = keep (λ (r : Reader). not (r.number == number)) s.readers }

-- The least time left of a stall, of the readers at the oldest chunk kept.
unfoldable pub least : (stall now first : ℕ) → List Reader → Option ℕ
least stall now first [] = none
least stall now first (r ∷ rs) =
    let rest = least stall now first rs in
    let left = stall - (now - r.took) in
    if r.next == first && ltb 0 left
    then some (elim rest [ none ↦ left | some other ↦ min left other ])
    else rest

-- `Source::waits`.
unfoldable pub waits : (stall now : ℕ) → Source → Option ℕ
waits stall now s =
    if ltb (length s.window) (kept (length s.readers))
    then none
    else least stall now s.first s.readers

unfoldable pub took : (number place now : ℕ) → List Reader → List Reader
took number place now [] = []
took number place now (r ∷ rs) =
    if r.number == number
    then record r { next = place + 1; took = now } ∷ rs
    else r ∷ took number place now rs

-- The oldest chunks let go of while more than `most` are kept.
unfoldable pub trim : (most : ℕ) → (first : ℕ) → List Text → ℕ × List Text
trim most first [] = (first, [])
trim most first (c ∷ cs) =
    let rest = trim most (first + 1) cs in
    if ltb most (suc (length cs)) then rest else (first, c ∷ cs)

unfoldable pub pushed : Text → Source → Source
pushed c s =
    let t = trim (kept (length s.readers)) s.first (s.window ++ c ∷ []) in
    record s { at = s.at + 1; window = t.1; first = t.0 }

-- One turn of `chunk`'s loop.
pub data Turn : Type 0 where
  gives : Text → Source → Turn
  ends : Source → Turn
  behind : Source → Turn
  fails : (why : Text) → Source → Turn
  rests : (left : ℕ) → Source → Turn
  again : Source → Turn

unfoldable pub reads : Answer → Source → Turn
unfolding pushed
reads (chunk c) s = again (pushed c s)
reads end s = again (record s { ended = true })
reads (fault why) s = fails why (record s { failed = some why })

unfoldable pub fetches : (ℕ → Answer) → (stall now : ℕ) → Source → Turn
fetches read stall now s =
    if s.ended
    then ends s
    else elim (waits stall now s) [ some left ↦ rests left s | none ↦ reads (read s.at) s ]

unfoldable pub turn : (ℕ → Answer) → (stall number place now : ℕ) → Source → Turn
turn read stall number place now s = elim s.failed [
  | some why ↦ fails why s
  | none ↦ if ltb place s.first then behind s else elim (get_elem? s.window (place - s.first)) [
    | some c ↦ gives c (record s { readers = took number place now s.readers })
    | none ↦ fetches read stall now s
  ]
]

-- The loop on fuel, all its turns at `now`; `none` is fuel that ran out.
unfoldable pub chunk_loop : (ℕ → Answer) → (fuel stall number place now : ℕ) → Source → Option Turn
chunk_loop read zero stall number place now s = none
chunk_loop read (suc fuel) stall number place now s = elim (turn read stall number place now s) [
  | again t ↦ chunk_loop read fuel stall number place now t
  | gives c t ↦ some (gives c t)
  | ends t ↦ some (ends t)
  | behind t ↦ some (behind t)
  | fails why t ↦ some (fails why t)
  | rests left t ↦ some (rests left t)
]
