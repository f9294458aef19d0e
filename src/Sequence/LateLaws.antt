-- ===== src/Sequence/LateLaws.antt =====
-- A late placing ends, and what it leaves: src/sequence/late.rs.
use xmip_core_runtime.Base.{
  ℕ, suc, ◌+◌, ◌≡◌, ◌⊎◌, refl, ap, inl, inr, Bool, true, false, List, Option, none, some, Text,
  text_eq, arith, if◌then◌else◌, Bool-cases,
}
use xmip_core_runtime.Journey.{Journey}
use xmip_core_runtime.Sequence.Heads.{Page, Place, stream_heads, group_heads}
use xmip_core_runtime.Sending.Defs.{Subscriber, Sends}
use xmip_core_runtime.Sequence.Late.{
  waits_for_group, waits_for_places, if_heads, goes_on, Taken, taken, lapsed, unable, Round,
  take_late, Placing, behind, placed_at, lost, unanswered, reading, heading_loop, heading,
}
use xmip_core_runtime.Sequence.LateTaken.{AfterTaken, take_late-AfterTaken}

module _ (named : Text → ℕ) (cluster : Text) (sends : Sends) (to : Subscriber) where
  -- The rounds from `n` on with Journey `j` to one at `m` with Journey `k`: in each its delivery heads its
  -- Group's sequence, its Message waits for a place still, and takes it.
  pub data Through (rounds : ℕ → Round) (n : ℕ) (j : Journey) (known : List Place)
      : ℕ → Journey → List Place → Type 0 where
    begun : Through rounds n j known n j known
    another :
        (m : ℕ) (k told : Journey) (knows after : List Place)
        → Through rounds n j known m k knows
        → group_heads (rounds m).pages k knows ≡ (some true, after)
        → waits_for_places sends k to ≡ true
        → take_late named cluster sends to (rounds m) k ≡ taken told
        → Through rounds n j known (m + 1) told after

  -- What is asked of the round that ends a placing.
  abbrev pub EndsAt : Round → Journey → List Place → Placing → Type 0
  EndsAt r k knows (placed_at j) =
      (j ≡ k)
      × ((group_heads r.pages k knows).0 ≡ some true)
      × (waits_for_places sends k to ≡ false)
  EndsAt r k knows (behind j) = (j ≡ k) × ((group_heads r.pages k knows).0 ≡ some false)
  EndsAt r k knows (lost j) =
      (j ≡ k)
      × ((group_heads r.pages k knows).0 ≡ some true)
      × (waits_for_places sends k to ≡ true)
      × (take_late named cluster sends to r k ≡ lapsed)
  EndsAt r k knows (unanswered j) =
      (j ≡ k)
      × (((group_heads r.pages k knows).0 ≡ none)
          ⊎ (((group_heads r.pages k knows).0 ≡ some true)
              × (waits_for_places sends k to ≡ true)
              × (take_late named cluster sends to r k ≡ unable)))
  EndsAt r k knows reading = ⊥

  -- A placing from round `n` on ends at a round that it comes to.
  abbrev pub Ends : (ℕ → Round) → (n : ℕ) → Journey → List Place → Placing → Type 0
  Ends rounds n j known p =
      (m : ℕ) × (k : Journey) × (knows : List Place) × Through rounds n j known m k knows
      × EndsAt (rounds m) k knows p

  module _ (rounds : ℕ → Round) (from : ℕ) (first : Journey) (at_first : List Place) where
    abbrev loop : ℕ → ℕ → Journey → List Place → Placing
    loop = heading_loop named cluster sends to rounds

    abbrev To : ℕ → Journey → List Place → Type 0
    To = Through rounds from first at_first

    abbrev Ending : Placing → Type 0
    Ending = Ends rounds from first at_first

    goes_on-Ends :
        (n : ℕ) (j : Journey) (known after : List Place) (next : Journey → Placing) (r : Taken)
        → To n j known
        → group_heads (rounds n).pages j known ≡ (some true, after)
        → waits_for_places sends j to ≡ true
        → take_late named cluster sends to (rounds n) j ≡ r
        → AfterTaken named cluster sends to j r
        → ((told : Journey)
            → To (n + 1) told after
            → AfterTaken named cluster sends to j (taken told)
            → Ending (next told))
        → Ending (goes_on j next r)
    goes_on-Ends n j known after next unable t h w e a ih =
        (n, j, known, t, (refl, inr (ap (λ (x : Option Bool × List Place). x.0) h, w, e)))
    goes_on-Ends n j known after next lapsed t h w e a ih =
        (n, j, known, t, (refl, ap (λ (x : Option Bool × List Place). x.0) h, w, e))
    goes_on-Ends n j known after next (taken told) t h w e a ih =
        ih told (another n j told known after t h w e) a

    step-Ends :
        (fuel n : ℕ) (j : Journey) (known : List Place)
        → To n j known
        → ((told : Journey) (after : List Place)
            → To (n + 1) told after
            → waits_for_places sends j to ≡ true
            → AfterTaken named cluster sends to j (taken told)
            → Ending (loop fuel (n + 1) told after))
        → Ending (loop (suc fuel) n j known)
    unfolding heading_loop
    step-Ends fuel n j known t ih = heads_at (group_heads (rounds n).pages j known) refl
      where
        heads_at :
            (r : Option Bool × List Place)
            → group_heads (rounds n).pages j known ≡ r
            → Ending (
                if_heads j
                  (λ known.
                    let rest =
                      goes_on j
                        (λ told. loop fuel (n + 1) told known)
                        (take_late named cluster sends to (rounds n) j) in
                    if waits_for_places sends j to then rest else placed_at j)
                  r)
        heads_at (none, after) e =
            (n, j, known, t, (refl, inl (ap (λ (x : Option Bool × List Place). x.0) e)))
        heads_at (some false, after) e =
            (n, j, known, t, (refl, ap (λ (x : Option Bool × List Place). x.0) e))
        heads_at (some true, after) e = elim (Bool-cases (waits_for_places sends j to)) [
          | inl w ↦ rw w (
              goes_on-Ends n j known after (λ told. loop fuel (n + 1) told after)
                (take_late named cluster sends to (rounds n) j) t e w refl
                (take_late-AfterTaken named cluster sends to (rounds n) j w)
                (λ told on a. ih told after on w a))
          | inr done ↦
              rw done (n, j, known, t, (refl, ap (λ (x : Option Bool × List Place). x.0) e, done))
        ]

    last-Ends :
        (n : ℕ) (j : Journey) (known : List Place)
        → To n j known
        → waits_for_places sends j to ≡ false
        → Ending (loop 1 n j known)
    last-Ends n j known t d =
        step-Ends 0 n j known t (λ told after on w a. absurd (ground (arith, d, w)))

    alone-Ends :
        (n : ℕ) (j : Journey) (known : List Place)
        → To n j known
        → waits_for_group sends j ≡ false
        → Ending (loop 2 n j known)
    alone-Ends n j known t g = step-Ends 1 n j known t λ told after on w a. elim a.1 [
      | inl waits ↦ absurd (ground (arith, g, waits))
      | inr done ↦ last-Ends (n + 1) told after on done
    ]

    loop-Ends :
        (n : ℕ) (j : Journey) (known : List Place) → To n j known → Ending (loop 3 n j known)
    loop-Ends n j known t =
        step-Ends 2 n j known t (λ told after on w a. alone-Ends (n + 1) told after on a.0)

  -- What a Stream's own sequences leave of a placing.
  abbrev pub EndsBy : (ℕ → Option Page) → (ℕ → Round) → Journey → List Place → Placing → Type 0
  EndsBy pages rounds j known r =
      ((r ≡ unanswered j) × ((stream_heads pages j known).0 ≡ none))
      ⊎ ((r ≡ behind j) × ((stream_heads pages j known).0 ≡ some false))
      ⊎ ((after : List Place) × (stream_heads pages j known ≡ (some true, after))
          × Ends rounds 0 j after r)

  by_stream :
      (pages : ℕ → Option Page) (rounds : ℕ → Round) (j : Journey) (known : List Place)
      → (r : Option Bool × List Place) → stream_heads pages j known ≡ r
      → EndsBy pages rounds j known
          (if_heads j (λ known. heading_loop named cluster sends to rounds 3 0 j known) r)
  by_stream pages rounds j known (none, after) e =
      inl (refl, ap (λ (x : Option Bool × List Place). x.0) e)
  by_stream pages rounds j known (some false, after) e =
      inr (inl (refl, ap (λ (x : Option Bool × List Place). x.0) e))
  by_stream pages rounds j known (some true, after) e =
      inr (inr (after, e, loop-Ends rounds 0 j after 0 j after begun))

  -- A Message's late placing ends within three rounds, whatever Xmip Storage answers in each: behind its
  -- own Stream, or unanswered what heads that, before the first; or at a round that it comes to, each
  -- before it having found its delivery heading its Group's sequence and taken a place: there its
  -- delivery is behind another of its Group; or it is placed, its Stream and its delivery heading their
  -- sequences and nothing left that it waits for; or it waits still, heading them, and its claim is
  -- lost; or Xmip Storage did not answer.
  pub heading_ends :
      (pages : ℕ → Option Page) (rounds : ℕ → Round) (j : Journey) (known : List Place)
      → EndsBy pages rounds j known (heading named cluster sends to pages rounds j known)
  unfolding heading
  heading_ends pages rounds j known =
      by_stream pages rounds j known (stream_heads pages j known) refl
