-- ===== src/StreamShare/LentAnswers.antt =====
-- A read of a departure answers: src/stream_share.rs.
use xmip_core_runtime.Base.{
  ℕ, suc, ◌<◌, ◌≡◌, refl, inl, inr, Bool, true, false, Text, arith, length, ◌==◌, nat_eq,
  Bool-cases,
}
use xmip_core_runtime.StreamShare.OneRead.{Answer, chunk}
use xmip_core_runtime.StreamShare.Shares.{
  Shared, Given, chunk_of, at_end, falls_behind, faulted, waits, too_far, unanswered, Lent, take,
}
use xmip_core_runtime.StreamShare.SharesLaws.{AllWindows}
use xmip_core_runtime.StreamShare.Taking.{Good, IsThere, take-IsTaken}
use xmip_core_runtime.StreamShare.Lent.{
  Said, reading, has_more, copied, holds, read_loop, read_bytes,
}

abbrev pub is_answer : Said → Bool
is_answer reading = false
is_answer _ = true

module _ (read : ℕ → Answer) (locked : ℕ → Bool) (fuel stall now size : ℕ) where
  held_answers :
      (l : Lent) (s : Shared)
      → has_more l ≡ true
      → is_answer (read_loop read locked (suc fuel) stall now size l s).said ≡ true
  unfolding read_loop copied
  held_answers l s more = rw (read_loop, more) refl

  more_answers :
      (l : Lent) (s : Shared)
      → has_more l ≡ true
      → is_answer (read_loop read locked (suc (suc fuel)) stall now size l s).said ≡ true
  unfolding read_loop copied
  more_answers l s more = rw (read_loop, more) refl

  given_answers :
      (l : Lent) (s : Shared) (g : Given)
      → (take read locked stall now l.on l.number l.place s).given ≡ g
      → Good read l.place g
      → has_more l ≡ false
      → ((c : Text) → read l.place ≡ chunk c → 0 < length c)
      → is_answer (read_loop read locked (suc (suc fuel)) stall now size l s).said ≡ true
  unfolding read_loop
  given_answers l s (chunk_of c) e good h full =
      let t = take read locked stall now l.on l.number l.place s in
      let some_bytes = full c good in
      rw (read_loop, h, e) (held_answers (holds l t.on c) t.shared (ground (arith, some_bytes)))
  given_answers l s at_end e good h full = rw (read_loop, h, e) refl
  given_answers l s (faulted why) e good h full = rw (read_loop, h, e) refl
  given_answers l s (waits left) e good h full = rw (read_loop, h, e) refl
  given_answers l s too_far e good h full = rw (read_loop, h, e) refl
  given_answers l s falls_behind e good h full = absurd good
  given_answers l s unanswered e good h full = absurd good

  -- Where the chunk at its place is not empty, a departure's read comes to an answer within two rounds
  -- of its loop, bytes, an end, a fault, a refusal or a wait; for reads that are windows of the Stream.
  pub read_bytes_answers :
      (l : Lent) (s : Shared)
      → AllWindows read s
      → IsThere l.on s
      → ((c : Text) → read l.place ≡ chunk c → 0 < length c)
      → is_answer (read_bytes read locked (suc (suc fuel)) stall now size l s).said ≡ true
  unfolding read_bytes
  read_bytes_answers l s a there full = elim (Bool-cases (size == 0)) [
    | inl nothing ↦ rw (read_bytes, nothing) refl
    | inr asks ↦ elim (Bool-cases (has_more l)) [
      | inl more ↦ rw (read_bytes, asks) (more_answers l s more)
      | inr done ↦
          rw (read_bytes, asks)
            (given_answers l s (take read locked stall now l.on l.number l.place s).given refl
              (take-IsTaken read stall now l.number l.place locked l.on s a there).1 done full)
    ]
  ]
