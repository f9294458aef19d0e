-- ===== src/StreamShare/Window.antt =====
-- What a read keeps is a window of its Stream: src/stream_share/one_read.rs.
use native.Mathlib.Nat.{add-zero}
use xmip_core_runtime.Base.{
  ℕ, zero, suc, ◌+◌, ◌-◌, ◌≤◌, ◌<◌, min, ◌≡◌, ◌⊎◌, refl, ◌∙◌, inl, inr, true, false, List, [], ◌∷◌,
  ◌++◌, Option, none, some, Text, arith, length, length-append, get_elem?, get_elem?-lt, ltb,
  if◌then◌else◌, ltb→lt, Bool-cases, Option-cases,
}
use xmip_core_runtime.StreamShare.OneRead.{
  Answer, chunk, end, fault, Source, kept, waits, took, trim, pushed, Turn, gives, ends, behind,
  fails, rests, again, reads, fetches, turn, chunk_loop,
}

shift : (first i : ℕ) → first + 1 + i ≡ first + suc i
shift first i = omega arith

restored : (first place : ℕ) → first ≤ place → first + (place - first) ≡ place
restored first place h = omega arith

-- The chunks from place `first` on are the Stream's.
abbrev pub Segment : (ℕ → Answer) → ℕ → List Text → Type 0
Segment read first [] = Unit {0}
Segment read first (c ∷ cs) = (read first ≡ chunk c) × Segment read (first + 1) cs

pub record IsWindow (read : ℕ → Answer) (s : Source) : Type 0 where
  pub segment : Segment read s.first s.window
  pub next_place : s.at ≡ s.first + length s.window
  pub at_end : s.ended ≡ true → read s.at ≡ end

Segment-get :
    (read : ℕ → Answer) (first i : ℕ) (cs : List Text) (c : Text)
    → Segment read first cs
    → get_elem? cs i ≡ some c
    → read (first + i) ≡ chunk c
Segment-get read first i [] c g e = cc
Segment-get read first zero (x ∷ cs) c g e = rw add-zero (ground (arith, g.0))
Segment-get read first (suc i) (x ∷ cs) c g e =
    rw (← shift first i) (Segment-get read (first + 1) i cs c g.1 e)

Segment-push :
    (read : ℕ → Answer) (first : ℕ) (cs : List Text) (c : Text)
    → Segment read first cs
    → read (first + length cs) ≡ chunk c
    → Segment read first (cs ++ c ∷ [])
Segment-push read first [] c g e = (rw add-zero at e, tt)
Segment-push read first (x ∷ cs) c g e =
    (g.0, Segment-push read (first + 1) cs c g.1 (rw (shift first (length cs)) e))

-- What is trimmed away is the front, and at most `most` chunks are left.
trim-Segment :
    (read : ℕ → Answer) (most first : ℕ) (cs : List Text)
    → Segment read first cs
    → let t = trim most first cs in
      Segment read t.0 t.1
      × (t.0 + length t.1 ≡ first + length cs)
      × (length t.1 ≤ most)
      × (length t.1 ≤ length cs)
      × (min most (length cs) ≤ length t.1)
unfolding trim
trim-Segment read most first [] g = ground arith
trim-Segment read most first (c ∷ cs) g = ground (arith, trim-Segment read most (first + 1) cs g.1)

pushed-IsWindow :
    (read : ℕ → Answer) (s : Source) (c : Text)
    → IsWindow read s
    → s.ended ≡ false
    → read s.at ≡ chunk c
    → IsWindow read (pushed c s)
unfolding pushed
pushed-IsWindow read s c w e h =
    let at : read (s.first + length s.window) ≡ chunk c = rw (← w.next_place) h in
    let grown = Segment-push read s.first s.window c w.segment at in
    let t = trim-Segment read (kept (length s.readers)) s.first (s.window ++ c ∷ []) grown in
    record {
      segment = t.0;
      next_place = omega (arith, t.1, length-append s.window (c ∷ []), w.next_place);
      at_end = λ ended. cc;
    }

-- A read trims behind the chunk it took last, so it never passes the place that it reads for.
pushed-first :
    (read : ℕ → Answer) (s : Source) (c : Text)
    → IsWindow read s
    → read s.at ≡ chunk c
    → ((pushed c s).first ≤ s.at)
      × ((pushed c s).at ≡ s.at + 1)
      × ((pushed c s).failed ≡ s.failed)
      × ((pushed c s).ended ≡ s.ended)
      × (length (pushed c s).window ≤ kept (length s.readers))
unfolding pushed kept
pushed-first read s c w h =
    let at : read (s.first + length s.window) ≡ chunk c = rw (← w.next_place) h in
    let grown = Segment-push read s.first s.window c w.segment at in
    let t = trim-Segment read (kept (length s.readers)) s.first (s.window ++ c ∷ []) grown in
    (omega (arith, t.1, t.4, length-append s.window (c ∷ []), w.next_place), refl, refl, refl, t.2)

-- What a turn says is true of the Stream.
abbrev Told : (ℕ → Answer) → ℕ → Source → Turn → Type 0
Told read place s (gives c t) = (read place ≡ chunk c) × IsWindow read t
Told read place s (ends t) = (read s.at ≡ end) × (s.at ≤ place) × IsWindow read t
Told read place s (behind t) = (place < s.first) × IsWindow read t
Told read place s (fails why t) = IsWindow read t
Told read place s (rests left t) = IsWindow read t
Told read place s (again t) =
    IsWindow read t
    × (t.failed ≡ none)
    × (t.first ≤ place)
    × (s.at ≤ place)
    × (s.ended ≡ false)
    × ((t.ended ≡ true) × (t.at ≡ s.at) ⊎ (t.at ≡ s.at + 1))

reads-Told :
    (read : ℕ → Answer) (place : ℕ) (a : Answer) (s : Source)
    → read s.at ≡ a
    → IsWindow read s
    → s.failed ≡ none
    → s.ended ≡ false
    → s.first ≤ place
    → s.at ≤ place
    → Told read place s (reads a s)
unfolding reads
reads-Told read place (chunk c) s h w f e k l =
    let p = pushed-first read s c w h in
    (pushed-IsWindow read s c w e h, p.2 ∙ f, omega (arith, p.0), l, e, inr p.1)
reads-Told read place end s h w f e k l = (
  record { segment = w.segment; next_place = w.next_place; at_end = λ _. h },
  f,
  k,
  l,
  e,
  inl (refl, refl),
)
reads-Told read place (fault why) s h w f e k l = record {
  segment = w.segment;
  next_place = w.next_place;
  at_end = w.at_end;
}

module _ (read : ℕ → Answer) (stall now : ℕ) (s : Source) where
  fetches_ended : s.ended ≡ true → fetches read stall now s ≡ ends s
  unfolding fetches
  fetches_ended e = ground arith

  fetches-reads :
      s.ended ≡ false → waits stall now s ≡ none → fetches read stall now s ≡ reads (read s.at) s
  unfolding fetches
  fetches-reads e go = ground arith

  fetches-rests :
      (left : ℕ)
      → s.ended ≡ false
      → waits stall now s ≡ some left
      → fetches read stall now s ≡ rests left s
  unfolding fetches
  fetches-rests left e rest = ground arith

  fetches-Told :
      (place : ℕ)
      → IsWindow read s
      → s.failed ≡ none
      → s.first ≤ place
      → s.at ≤ place
      → Told read place s (fetches read stall now s)
  fetches-Told place w f k l = elim (Bool-cases s.ended) [
    | inl e ↦ rw (fetches_ended e) (w.at_end e, l, w)
    | inr e ↦ elim (Option-cases (waits stall now s)) [
      | inl go ↦ rw (fetches-reads e go) (reads-Told read place (read s.at) s refl w f e k l)
      | inr (left, rest) ↦ rw (fetches-rests left e rest) w
    ]
  ]

  module _ (number place : ℕ) where
    turn_failed :
        (why : Text) → s.failed ≡ some why → turn read stall number place now s ≡ fails why s
    unfolding turn
    turn_failed why e = ground arith

    turn_behind :
        s.failed ≡ none → ltb place s.first ≡ true → turn read stall number place now s ≡ behind s
    unfolding turn
    turn_behind e b = ground arith

    turn_gives :
        (c : Text)
        → s.failed ≡ none
        → ltb place s.first ≡ false
        → get_elem? s.window (place - s.first) ≡ some c
        → turn read stall number place now s
          ≡ gives c (record s { readers = took number place now s.readers })
    unfolding turn
    turn_gives c e b g = ground arith

    turn-fetches :
        s.failed ≡ none
        → ltb place s.first ≡ false
        → get_elem? s.window (place - s.first) ≡ none
        → turn read stall number place now s ≡ fetches read stall now s
    unfolding turn
    turn-fetches e b g = ground arith

    turn-Told : IsWindow read s → Told read place s (turn read stall number place now s)
    turn-Told w = elim (Option-cases s.failed) [
      | inr (why, e) ↦ rw (turn_failed why e) w
      | inl e ↦ elim (Bool-cases (ltb place s.first)) [
        | inl b ↦ rw (turn_behind e b) (ltb→lt place s.first b, w)
        | inr b ↦ elim (Option-cases (get_elem? s.window (place - s.first))) [
          | inr (c, g) ↦ rw (turn_gives c e b g) (
            rw (restored s.first place (ground arith)) at
                (Segment-get read s.first (place - s.first) s.window c w.segment g),
            record { segment = w.segment; next_place = w.next_place; at_end = w.at_end },
          )
          | inl g ↦
              let far = get_elem?-lt s.window (place - s.first) g in
              let reached : s.first ≤ place = ground arith in
              rw (turn-fetches e b g) (fetches-Told place w e reached (omega (arith, w.next_place)))
        ]
      ]
    ]

-- What a loop that returned says is true of the Stream; `s` is what it began with.
abbrev pub Answered : (ℕ → Answer) → ℕ → Source → Option Turn → Type 0
Answered read place s none = ⊥
Answered read place s (some (gives c t)) = (read place ≡ chunk c) × IsWindow read t
Answered read place s (some (ends t)) = ((n : ℕ) × (n ≤ place) × (read n ≡ end)) × IsWindow read t
Answered read place s (some (behind t)) = (place < s.first) × IsWindow read t
Answered read place s (some (fails why t)) = IsWindow read t
Answered read place s (some (rests left t)) = IsWindow read t
Answered read place s (some (again t)) = ⊥

-- The turns a loop may still take before it returns.
abbrev measure : ℕ → Source → ℕ
measure place s = (place + 1 - s.at) + (if s.ended then 0 else 1)

Answered-again :
    (read : ℕ → Answer) (place : ℕ) (s t : Source) (o : Option Turn)
    → t.first ≤ place
    → Answered read place t o
    → Answered read place s o
Answered-again read place s t none h a = a
Answered-again read place s t (some (gives c u)) h a = a
Answered-again read place s t (some (ends u)) h a = a
Answered-again read place s t (some (behind u)) h a = absurd (omega (arith, a.0))
Answered-again read place s t (some (fails why u)) h a = a
Answered-again read place s t (some (rests left u)) h a = a
Answered-again read place s t (some (again u)) h a = a

step_loop :
    (read : ℕ → Answer) (fuel stall number place now : ℕ) (s : Source) (t : Turn)
    → turn read stall number place now s ≡ t
    → Told read place s t
    → measure place s < suc fuel
    → ((u : Source)
        → IsWindow read u
        → measure place u < fuel
        → Answered read place u (chunk_loop read fuel stall number place now u))
    → Answered read place s (chunk_loop read (suc fuel) stall number place now s)
unfolding chunk_loop
step_loop read fuel stall number place now s (gives c t) e told m ih = rw (e, chunk_loop) told
step_loop read fuel stall number place now s (ends t) e told m ih =
    rw (e, chunk_loop) ((s.at, told.1, told.0), told.2)
step_loop read fuel stall number place now s (behind t) e told m ih = rw (e, chunk_loop) told
step_loop read fuel stall number place now s (fails why t) e told m ih = rw (e, chunk_loop) told
step_loop read fuel stall number place now s (rests left t) e told m ih = rw (e, chunk_loop) told
step_loop read fuel stall number place now s (again t) e told m ih =
    rw (e, chunk_loop)
      (Answered-again read place s t (chunk_loop read fuel stall number place now t) told.2
        (ih t told.0 (ground arith)))

pub chunk_loop-Answered :
    (read : ℕ → Answer) (fuel stall number place now : ℕ) (s : Source)
    → IsWindow read s
    → measure place s < fuel
    → Answered read place s (chunk_loop read fuel stall number place now s)
chunk_loop-Answered read zero stall number place now s w m = absurd (omega arith)
chunk_loop-Answered read (suc fuel) stall number place now s w m =
    step_loop read fuel stall number place now s (turn read stall number place now s) refl
      (turn-Told read stall now s number place w) m
      (λ u v n. chunk_loop-Answered read fuel stall number place now u v n)

-- A reader's turn on a read that is a window of its Stream always comes to an answer, or to a wait for
-- slower readers, within three rounds more than its place. A chunk it is given is the Stream's at that
-- place and no other, however the readers share the read, and the read stays a window of the Stream;
-- an end is told only where the Stream has ended by that place; and it is told it is behind only
-- where the chunk was let go of before its turn began.
pub chunk_answers :
    (read : ℕ → Answer) (stall number place now : ℕ) (s : Source)
    → IsWindow read s
    → Answered read place s (chunk_loop read (place + 3) stall number place now s)
chunk_answers read stall number place now s w =
    chunk_loop-Answered read (place + 3) stall number place now s w (ground arith)
