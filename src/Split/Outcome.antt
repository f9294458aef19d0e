-- ===== src/Split/Outcome.antt =====
-- What a split ends with: src/split.rs.
use xmip_core_runtime.Base.{
  ℕ, ◌+◌, min, ◌≡◌, ◌⊎◌, refl, sym, ◌∙◌, subst, inl, inr, true, false, List, [], ◌∷◌, ◌++◌, Text,
  codes, arith, length, length-append, Bool-cases,
}
use mathlib.Core.List.{append_assoc, append-nil}
use xmip_core_runtime.Split.Defs.{
  Result, ok, err, and_then, Record, part, refused, Split, Outcomes, Splitting, Read, text, integer,
  Messages, Parts, parts_made, none_made, i64_max, numbered, new, succeeds, write, ended, parts,
  whole,
}
use xmip_core_runtime.Split.Laws.{IsOutcomes, readable, all_parts, records_of, told, whole_once}

-- The Stream kept of each record from place `n` on.
abbrev pub Kept : {S : Type 0} → (ℕ → Text → Result S) → (n : ℕ) → List Record → List S → Type 0
Kept section n [] [] = Unit
Kept section n (part bytes ∷ records) (s ∷ ss) =
    (section n bytes ≡ ok s) × Kept section (n + 1) records ss
Kept section n _ _ = ⊥

-- Xmip Storage refused a record's Stream.
abbrev pub Unkept : {S : Type 0} → (ℕ → Text → Result S) → Text → Type 0
Unkept section why = (n : ℕ) × (bytes : Text) × (section n bytes ≡ err why)

module _ {M S C : Type 0} (of : Messages M S C) (ids : ℕ → ℕ) (from : M)
    (section : ℕ → Text → Result S) where
  -- A Message for each record from place `n` on, the next generation of the one split, over the record's
  -- Stream alone: its context kept, with the Message split, its position from one, and how many there
  -- are.
  abbrev pub Made : (n total : ℕ) → List Record → List M → Type 0
  Made n total [] [] = Unit
  Made n total (part bytes ∷ records) (m ∷ ms) =
      ((s : S) × (section n bytes ≡ ok s)
        × (m
            ≡ of.debatched from (ids (n + 1)) (s ∷ []) (
                of.with_value (codes "debatch.count") (integer total) (
                  of.with_value (codes "debatch.position") (integer (n + 1)) (
                    of.with_value (codes "debatch.message") (text (of.message_id from))
                      (of.context from))))))
      × Made (n + 1) total records ms
  Made n total _ _ = ⊥

  numbered-Made :
      (n total : ℕ) (records : List Record) (ss : List S)
      → Kept section n records ss
      → Made n total records (numbered of ids from (n + 1) total ss)
  unfolding numbered
  numbered-Made n total [] [] k = tt
  numbered-Made n total [] (s ∷ ss) k = absurd k
  numbered-Made n total (part bytes ∷ records) [] k = absurd k
  numbered-Made n total (part bytes ∷ records) (s ∷ ss) k =
      ((s, k.0, refl), numbered-Made (n + 1) total records ss k.1)
  numbered-Made n total (refused why ∷ records) [] k = absurd k
  numbered-Made n total (refused why ∷ records) (s ∷ ss) k = absurd k

  length-Kept :
      (n : ℕ) (records : List Record) (ss : List S)
      → Kept section n records ss
      → length ss ≡ length records
  length-Kept n [] [] k = refl
  length-Kept n [] (s ∷ ss) k = absurd k
  length-Kept n (part bytes ∷ records) [] k = absurd k
  length-Kept n (part bytes ∷ records) (s ∷ ss) k =
      omega (arith, length-Kept (n + 1) records ss k.1)
  length-Kept n (refused why ∷ records) [] k = absurd k
  length-Kept n (refused why ∷ records) (s ∷ ss) k = absurd k

  -- What a split of `records` ends with.
  abbrev pub Ends : {O : Type 0} → Outcomes O → List Record → Result (Parts M O) → Type 0
  Ends outcomes records r =
      ((why : Text) × (r ≡ err why) × Unkept section why)
      ⊎ ((all_parts records ≡ true)
          × ((ms : List M) × Made 0 (min (length records) i64_max) records ms
              × (r ≡ ok (parts_made ms))))
      ⊎ ((all_parts records ≡ false) × (r ≡ ok (none_made (told outcomes 0 records outcomes.new))))

module _ {O S : Type 0} (outcomes : Outcomes O) (laws : IsOutcomes outcomes)
    (section : ℕ → Text → Result S) where
  -- Once one failed, nothing more is kept.
  write_failed :
      (records : List Record) (s : Splitting O S)
      → outcomes.is_empty s.failures ≡ false
      → let o = told outcomes (outcomes.took s.failures) records s.failures in
        (write outcomes section records s ≡ ok (record s { failures = o }))
        × (outcomes.is_empty o ≡ false)
  unfolding write told
  write_failed [] s e = (refl, e)
  write_failed (part bytes ∷ records) s e =
      let n = outcomes.took s.failures in
      let r = write_failed records (succeeds outcomes s) (laws.succeeded n s.failures ∙ e) in
      rw (write, e) (rw (laws.succeeded_took n s.failures) at r)
  write_failed (refused reason ∷ records) s e =
      let n = outcomes.took s.failures in
      let one : Splitting O S = record s { failures = outcomes.fail reason n s.failures } in
      let r = write_failed records one (laws.failed_one reason n s.failures) in
      rw (laws.failed_took reason n s.failures) at r

  -- What writing `records` after `s` comes to, none having failed.
  abbrev Writes : List Record → Splitting O S → Result (Splitting O S) → Type 0
  Writes records s (err why) = Unkept section why
  Writes records s (ok t) =
      (t.failures ≡ told outcomes (outcomes.took s.failures) records s.failures)
      × (outcomes.is_empty t.failures ≡ all_parts records)
      × (all_parts records ≡ true
          → (w : List S) × (t.written ≡ s.written ++ w)
            × Kept section (outcomes.took s.failures) records w)

  -- After one more record kept.
  then_Writes :
      (bytes : Text) (records : List Record) (s : Splitting O S) (one : S)
      → outcomes.took s.failures ≡ length s.written
      → section (length s.written) bytes ≡ ok one
      → (r : Result (Splitting O S))
      → Writes records (succeeds outcomes (record s { written = s.written ++ one ∷ [] })) r
      → Writes (part bytes ∷ records) s r
  unfolding told
  then_Writes bytes records s one n k (err why) w = w
  then_Writes bytes records s one n k (ok t) w =
      let more = laws.succeeded_took (outcomes.took s.failures) s.failures in
      (
        rw (← more) w.0,
        w.1,
        λ all.
            let (ss, same, kept) = w.2 all in
            (
              one ∷ ss,
              same ∙ append_assoc s.written (one ∷ []) ss,
              (rw n k, subst (λ x. Kept section x records ss) more kept),
            ),
      )

  -- The record's Stream asked of Xmip Storage.
  kept_Writes :
      (bytes : Text) (records : List Record) (s : Splitting O S)
      → outcomes.is_empty s.failures ≡ true
      → outcomes.took s.failures ≡ length s.written
      → (r : Result S) → section (length s.written) bytes ≡ r
      → ((one : S)
          → let t = succeeds outcomes (record s { written = s.written ++ one ∷ [] }) in
            Writes records t (write outcomes section records t))
      → Writes (part bytes ∷ records) s (
          and_then r λ one.
            write outcomes section records
              (succeeds outcomes (record s { written = s.written ++ one ∷ [] })))
  unfolding and_then
  kept_Writes bytes records s e n (err why) k ih = (length s.written, bytes, k)
  kept_Writes bytes records s e n (ok one) k ih = then_Writes bytes records s one n k _ (ih one)

  write-Writes :
      (records : List Record) (s : Splitting O S)
      → outcomes.is_empty s.failures ≡ true
      → outcomes.took s.failures ≡ length s.written
      → Writes records s (write outcomes section records s)
  unfolding write told
  write-Writes [] s e n = (refl, e, λ _. ([], sym (append-nil s.written), tt))
  write-Writes (part bytes ∷ records) s e n =
      rw (write, e)
        (kept_Writes bytes records s e n (section (length s.written) bytes) refl λ one.
          write-Writes records (succeeds outcomes (record s { written = s.written ++ one ∷ [] }))
            (laws.succeeded (outcomes.took s.failures) s.failures ∙ e)
            (omega (
              arith,
              laws.succeeded_took (outcomes.took s.failures) s.failures,
              n,
              length-append s.written (one ∷ []),
            )))
  write-Writes (refused reason ∷ records) s e n =
      let k = outcomes.took s.failures in
      let one : Splitting O S = record s { failures = outcomes.fail reason k s.failures } in
      let r = write_failed records one (laws.failed_one reason k s.failures) in
      let more = laws.failed_took reason k s.failures in rw r.0 (rw more refl, r.1, λ all. cc)

module _ {M O S C : Type 0} (outcomes : Outcomes O) (laws : IsOutcomes outcomes)
    (section : ℕ → Text → Result S) (of : Messages M S C) (ids : ℕ → ℕ) where
  written_Ends :
      (from : M) (records : List Record) (r : Result (Splitting O S)) (x : Result (Parts M O))
      → x ≡ and_then r (λ t. ok (parts of ids from (ended outcomes t)))
      → Writes outcomes laws section records (new outcomes) r
      → Ends of ids from section outcomes records x
  unfolding and_then parts ended
  written_Ends from records (err why) x e w = inl (why, e, w)
  written_Ends from records (ok t) x e w =
      let kept = w.1 in
      elim (Bool-cases (all_parts records)) [
        | inl all ↦
            let (ss, same, each) = w.2 all in
            let keeps = subst (λ n. Kept section n records ss) laws.none_took each in
            let total = min (length records) i64_max in
            let fits : length ss ≡ length records =
              length-Kept of ids from section 0 records ss keeps in
            inr (
              inl (
                all,
                (
                  numbered of ids from 1 total ss,
                  numbered-Made of ids from section 0 total records ss keeps,
                  e ∙ rw (ended, kept, all, same, fits) refl,
                ),
              ))
        | inr some_failed ↦
            inr (inr (some_failed, e ∙ rw (ended, kept, some_failed, w.0, laws.none_took) refl))
      ]

  -- Where a Message's Sections are read whole, in chunks of whatever sizes, and the outcomes count each
  -- item and forget no failure, its split ends in one of three: Xmip Storage refused a record's Stream;
  -- or a Message for each record, in their order, the next generation of the one split, over that
  -- record's Stream alone, its context kept and told the Message split, its position from one, and how
  -- many there are (2 ^ 63 - 1 at most); or, where the unit refused any, no Message and every outcome,
  -- each at its record's place.
  pub whole_outcome :
      {U : Type 0} (split : Split U) (from : M) (reads : List (List Read)) (u : U)
      → readable reads ≡ true
      → Ends of ids from section outcomes
          (records_of split reads u)
          (whole split outcomes section of ids from reads u)
  whole_outcome split from reads u h =
      let records = records_of split reads u in
      written_Ends from records (write outcomes section records (new outcomes)) _
        (whole_once split outcomes section of ids from reads u h)
        (write-Writes outcomes laws section records (new outcomes) laws.none_yet laws.none_took)
