-- ===== src/StreamShare/LentLaws.antt =====
-- A departure reads its Stream: src/stream_share.rs.
use mathlib.Core.List.{append_assoc, append-nil}
use native.Mathlib.Nat.{zero-add}
use native.Mathlib.Numerals.{unary_clauses}
use xmip_core_runtime.Base.{
  ℕ, zero, suc, ◌+◌, ◌-◌, ◌≤◌, min, ◌≡◌, refl, sym, ap, ◌∙◌, inl, inr, Bool, false, List, [], ◌∷◌,
  ◌++◌, Text, arith, length, nat_eq, ◌==◌, Bool-cases, Option-cases,
}
use xmip_core_runtime.StreamShare.OneRead.{Answer, chunk, end, fault}
use xmip_core_runtime.StreamShare.Shares.{
  Shared, Given, chunk_of, at_end, falls_behind, faulted, waits, too_far, unanswered, Lent, take,
}
use xmip_core_runtime.StreamShare.SharesLaws.{AllWindows}
use xmip_core_runtime.StreamShare.Taking.{Good, IsThere, take-IsTaken}
use xmip_core_runtime.StreamShare.Lent.{
  front, rest_of, Said, bytes, eof, Reading, has_more, held_text, copied, holds, read_loop,
  read_bytes,
}

-- The Stream's bytes before place `p`, chunk after chunk.
abbrev pub chunk_bytes : Answer → Text
chunk_bytes (chunk c) = c
chunk_bytes end = []
chunk_bytes (fault why) = []

abbrev pub before : (ℕ → Answer) → ℕ → Text
before read zero = []
before read (suc p) = before read p ++ chunk_bytes (read p)

abbrev pub unread : Lent → Text
unread l = rest_of l.at (held_text l)

abbrev pub said_bytes : Said → Text
said_bytes (bytes b) = b
said_bytes _ = []

-- An end is told where the Stream has ended.
abbrev pub IsEnd : (ℕ → Answer) → ℕ → Said → Type 0
IsEnd read place eof = (n : ℕ) × (n ≤ place) × (read n ≡ end)
IsEnd read place _ = Unit {0}

-- After `delivered`, what a read said goes on with the Stream, and what is held is what comes next.
abbrev pub GoesOn : (ℕ → Answer) → Text → Reading → Type 0
GoesOn read delivered r =
    AllWindows read r.shared
    × IsThere r.lent.on r.shared
    × ((delivered ++ said_bytes r.said) ++ unread r.lent ≡ before read r.lent.place)
    × IsEnd read r.lent.place r.said

front_rest : (n : ℕ) (bs : Text) → front n bs ++ rest_of n bs ≡ bs
front_rest zero bs = refl
front_rest (suc n) [] = refl
front_rest (suc n) (b ∷ bs) = ap (λ x. b ∷ x) (front_rest n bs)

rest_of_nil : (n : ℕ) → rest_of n [] ≡ []
rest_of_nil zero = refl
rest_of_nil (suc n) = refl

rest_of-add : (m n : ℕ) (bs : Text) → rest_of n (rest_of m bs) ≡ rest_of (m + n) bs
rest_of-add zero n bs = rw zero-add refl
rest_of-add (suc m) n [] = rest_of_nil n ∙ sym (rest_of_nil (suc m + n))
rest_of-add (suc m) n (b ∷ bs) =
    let e : suc m + n ≡ suc (m + n) = omega arith in rw e (rest_of-add m n bs)

rest_of_past : (n : ℕ) (bs : Text) → length bs ≤ n → rest_of n bs ≡ []
rest_of_past n [] h = rest_of_nil n
rest_of_past zero (b ∷ bs) h = absurd (omega arith)
rest_of_past (suc n) (b ∷ bs) h = rest_of_past n bs (omega arith)

unread_done : (l : Lent) → has_more l ≡ false → unread l ≡ []
unread_done l e = elim (Option-cases l.held) [
  | inl h ↦ rw h (rest_of_nil l.at)
  | inr (c, h) ↦ rw h (rest_of_past l.at c (ground arith))
]

module _ (read : ℕ → Answer) (delivered : Text) where
  copied-GoesOn :
      (size : ℕ) (l : Lent) (s : Shared)
      → AllWindows read s
      → IsThere l.on s
      → delivered ++ unread l ≡ before read l.place
      → GoesOn read delivered (copied size l s)
  unfolding copied
  copied-GoesOn size l s a there e =
      let n = min size (length (held_text l) - l.at) in
      let rest = unread l in
      (
        a,
        there,
        append_assoc delivered (front n rest) (rest_of (l.at + n) (held_text l))
            ∙ ap (λ x. delivered ++ (front n rest ++ x)) (sym (rest_of-add l.at n (held_text l)))
            ∙ ap (λ x. delivered ++ x) (front_rest n rest)
            ∙ e,
        tt,
      )

  all_read :
      (l : Lent)
      → has_more l ≡ false
      → delivered ++ unread l ≡ before read l.place
      → delivered ≡ before read l.place
  all_read l h e = sym (append-nil delivered) ∙ ap (λ x. delivered ++ x) (sym (unread_done l h)) ∙ e

  -- Nothing said and nothing held: as it was.
  quiet :
      (at place : ℕ)
      → delivered ≡ before read place
      → (delivered ++ []) ++ rest_of at [] ≡ before read place
  quiet at place e =
      ap (λ x. (delivered ++ []) ++ x) (rest_of_nil at)
      ∙ append-nil (delivered ++ [])
      ∙ append-nil delivered
      ∙ e

  next_chunk :
      (on : ℕ) (l : Lent) (c : Text)
      → delivered ≡ before read l.place
      → read l.place ≡ chunk c
      → delivered ++ unread (holds l on c) ≡ before read (l.place + 1)
  next_chunk on l c e g = simp unary_clauses (rw (g, e) refl)

  -- What the loop does with what it took.
  read_on :
      (locked : ℕ → Bool) (fuel stall now size : ℕ) (l : Lent) (s : Shared) (g : Given)
      → (take read locked stall now l.on l.number l.place s).given ≡ g
      → let t = take read locked stall now l.on l.number l.place s in
        AllWindows read t.shared × Good read l.place g × IsThere t.on t.shared
        → has_more l ≡ false
        → delivered ≡ before read l.place
        → ((m : Lent) (u : Shared)
            → AllWindows read u
            → IsThere m.on u
            → delivered ++ unread m ≡ before read m.place
            → GoesOn read delivered (read_loop read locked fuel stall now size m u))
        → GoesOn read delivered (read_loop read locked (suc fuel) stall now size l s)
  unfolding read_loop
  read_on locked fuel stall now size l s (chunk_of c) e (a, good, there) h d ih =
      let t = take read locked stall now l.on l.number l.place s in
      rw (h, e) (ih (holds l t.on c) t.shared a there (next_chunk t.on l c d good))
  read_on locked fuel stall now size l s at_end e (a, good, there) h d ih =
      rw (h, e) (a, there, quiet l.at l.place d, good)
  read_on locked fuel stall now size l s (faulted why) e (a, good, there) h d ih =
      rw (h, e) (a, there, quiet l.at l.place d, tt)
  read_on locked fuel stall now size l s (waits left) e (a, good, there) h d ih =
      rw (h, e) (a, there, quiet l.at l.place d, tt)
  read_on locked fuel stall now size l s too_far e (a, good, there) h d ih =
      rw (h, e) (a, there, quiet l.at l.place d, tt)
  read_on locked fuel stall now size l s falls_behind e (a, good, there) h d ih = absurd good
  read_on locked fuel stall now size l s unanswered e (a, good, there) h d ih = absurd good

  read_loop-GoesOn :
      (locked : ℕ → Bool) (fuel stall now size : ℕ) (l : Lent) (s : Shared)
      → AllWindows read s
      → IsThere l.on s
      → delivered ++ unread l ≡ before read l.place
      → GoesOn read delivered (read_loop read locked fuel stall now size l s)
  unfolding read_loop
  read_loop-GoesOn locked zero stall now size l s a there e =
      (a, there, ap (λ x. x ++ unread l) (append-nil delivered) ∙ e, tt)
  read_loop-GoesOn locked (suc fuel) stall now size l s a there e = elim (Bool-cases (has_more l)) [
    | inl more ↦ rw (read_loop, more) (copied-GoesOn size l s a there e)
    | inr done ↦
        read_on locked fuel stall now size l s
          (take read locked stall now l.on l.number l.place s).given refl
          (take-IsTaken read stall now l.number l.place locked l.on s a there) done
          (all_read l done e) (λ m u b is f. read_loop-GoesOn locked fuel stall now size m u b is f)
  ]

  read_bytes-GoesOn :
      (locked : ℕ → Bool) (fuel stall now size : ℕ) (l : Lent) (s : Shared)
      → AllWindows read s
      → IsThere l.on s
      → delivered ++ unread l ≡ before read l.place
      → GoesOn read delivered (read_bytes read locked fuel stall now size l s)
  unfolding read_bytes
  read_bytes-GoesOn locked fuel stall now size l s a there e = elim (Bool-cases (size == 0)) [
    | inl nothing ↦
        rw (read_bytes, nothing) (a, there, ap (λ x. x ++ unread l) (append-nil delivered) ∙ e, tt)
    | inr asks ↦ rw (read_bytes, asks) (read_loop-GoesOn locked fuel stall now size l s a there e)
  ]

-- One read of a departure, and what the others do with the shared reads before it.
pub record Call : Type 0 where
  pub others : Shared → Shared
  pub locked : ℕ → Bool
  pub fuel : ℕ
  pub now : ℕ
  pub size : ℕ

-- All that a departure read, over its calls.
unfoldable pub reads :
    (ℕ → Answer) → (stall : ℕ) → List Call → Text → Lent → Shared → Text × Reading
reads read stall [] delivered l s = (delivered, record { shared = s; lent = l; said = bytes [] })
reads read stall (c ∷ cs) delivered l s =
    let r = read_bytes read c.locked c.fuel stall c.now c.size l (c.others s) in
    reads read stall cs (delivered ++ said_bytes r.said) r.lent r.shared

-- The others keep every read a window, and the read this departure takes from.
abbrev pub Keeps : (ℕ → Answer) → List Call → Type 0
Keeps read [] = Unit {0}
Keeps read (c ∷ cs) =
    ((s : Shared) → AllWindows read s → AllWindows read (c.others s))
    × ((on : ℕ) (s : Shared) → IsThere on s → IsThere on (c.others s))
    × Keeps read cs

-- Whatever a departure asks, in calls of whatever sizes, and however the other departures of its
-- Stream read, fall behind, join and leave between its calls: all it was given, with what it holds and
-- has not given yet, is exactly the Stream's chunks before its place, in order, none missed and none
-- twice; for others that keep every read a window and this departure's read in being.
pub reads_refine :
    (read : ℕ → Answer) (stall : ℕ) (calls : List Call) (delivered : Text) (l : Lent) (s : Shared)
    → Keeps read calls
    → AllWindows read s
    → IsThere l.on s
    → delivered ++ unread l ≡ before read l.place
    → let r = reads read stall calls delivered l s in
      r.0 ++ unread r.1.lent ≡ before read r.1.lent.place
unfolding reads
reads_refine read stall [] delivered l s k a there e = e
reads_refine read stall (c ∷ cs) delivered l s k a there e =
    let g =
      read_bytes-GoesOn read delivered c.locked c.fuel stall c.now c.size l (c.others s) (k.0 s a)
        (k.1 l.on s there) e in
    let r = read_bytes read c.locked c.fuel stall c.now c.size l (c.others s) in
    reads_refine read stall cs (delivered ++ said_bytes r.said) r.lent r.shared k.2 g.0 g.1 g.2
