-- ===== src/Plane/FreshLaws.antt =====
-- What a spent nonce of src/plane/fresh.rs proves, and how many are outstanding.
use xmip_core_runtime.Base.{
  ℕ, zero, suc, ◌+◌, ◌-◌, ◌≤◌, ◌<◌, min, ◌≡◌, refl, ◌⊎◌, inl, inr, true, List, [], ◌∷◌, Option,
  none, some, Text, text_eq, text_beq_iff, arith, length, contains, contains_here, get, insert,
  get-remove, length-insert-le, ◌==◌, nat_eq, Bool-cases, Option-cases,
}
use xmip_core_runtime.Plane.Fresh.{
  Issued, within, at_once, most, draw, then_issue, issue_each, fresh, swept, issue, found_by,
  spend_one, taken, spend_each, spend,
}

spend_one-gone :
    (m n : Text) (held : List (Text × Issued))
    → taken n held ≡ none
    → taken n (spend_one m held) ≡ none
unfolding taken spend_one
spend_one-gone m n held e = ground (arith, get-remove m n held)

spend_one-spent : (n : Text) (held : List (Text × Issued)) → taken n (spend_one n held) ≡ none
unfolding taken spend_one
spend_one-spent n held = ground (arith, get-remove n n held, text_beq_iff n n)

spend_each-gone :
    (now : ℕ) (through : Text) (nonces : List Text) (found : Option Text)
    → (held : List (Text × Issued)) (n : Text) → taken n held ≡ none
    → taken n (spend_each now through nonces found held).1 ≡ none
unfolding spend_each
spend_each-gone now through [] found held n e = e
spend_each-gone now through (m ∷ nonces) found held n e =
    spend_each-gone now through nonces (found_by now through found (taken m held))
      (spend_one m held) n (spend_one-gone m n held e)

spend_each-spent :
    (now : ℕ) (through : Text) (nonces : List Text) (found : Option Text)
    → (held : List (Text × Issued)) (n : Text) → contains nonces n ≡ true
    → taken n (spend_each now through nonces found held).1 ≡ none
unfolding spend_each
spend_each-spent now through [] found held n c = cc
spend_each-spent now through (m ∷ nonces) found held n c = elim (Bool-cases (m == n)) [
  | inl same ↦
      spend_each-gone now through nonces (found_by now through found (taken m held))
        (spend_one m held) n (ground (arith, text_beq_iff m n, spend_one-spent n held))
  | inr other ↦
      spend_each-spent now through nonces (found_by now through found (taken m held))
        (spend_one m held) n (ground arith)
]

-- A nonce offered once, fresh or not and by whoever, is spent: offered again by anyone at any time it
-- finds nothing.
pub spend_once :
    (now later : ℕ) (through other : Text) (nonces : List Text) (held : List (Text × Issued))
    → (n : Text) → contains nonces n ≡ true
    → (spend later other (n ∷ []) (spend now through nonces held).1).0 ≡ none
unfolding spend spend_each found_by
spend_once now later through other nonces held n c =
    let gone = spend_each-spent now through nonces none held n c in rw (spend_each, gone) refl

found_by-proves :
    (now : ℕ) (through : Text) (found : Option Text) (o : Option Issued) (listener : Text)
    → found_by now through found o ≡ some listener
    → (found ≡ some listener)
      ⊎ ((one : Issued) × (o ≡ some one)
          × (one.through ≡ through)
          × (one.listener ≡ listener)
          × (now < one.until))
unfolding found_by
found_by-proves now through found none listener e = inl e
found_by-proves now through none (some one) listener e = inr (
  one,
  refl,
  ground (arith, text_beq_iff one.through through, e),
  ground (arith, e),
  ground (arith, e),
)
found_by-proves now through (some l) (some one) listener e = inl (ground (arith, e))

taken-get :
    (m n : Text) (held : List (Text × Issued)) (one : Issued)
    → taken n held ≡ some one
    → get n held ≡ some one
unfolding taken
taken-get m n held one e = ground arith

get-spend_one :
    (m n : Text) (held : List (Text × Issued)) (one : Issued)
    → get n (spend_one m held) ≡ some one
    → get n held ≡ some one
unfolding spend_one
get-spend_one m n held one e = ground (arith, get-remove m n held)

-- A nonce of a list that proves `listener` to `through` at `now`.
abbrev pub Proves : ℕ → Text → Text → List Text → List (Text × Issued) → Type 0
Proves now through listener nonces held =
    (n : Text) × (one : Issued) × (contains nonces n ≡ true)
    × (get n held ≡ some one)
    × (one.through ≡ through)
    × (one.listener ≡ listener)
    × (now < one.until)

spend_each-Proves :
    (now : ℕ) (through : Text) (nonces : List Text) (found : Option Text)
    → (held : List (Text × Issued)) (listener : Text)
    → (spend_each now through nonces found held).0 ≡ some listener
    → (found ≡ some listener) ⊎ Proves now through listener nonces held
unfolding spend_each
spend_each-Proves now through [] found held listener e = inl e
spend_each-Proves now through (m ∷ nonces) found held listener e =
    elim (spend_each-Proves now through nonces (found_by now through found (taken m held))
      (spend_one m held) listener e) [
        | inr (n, one, c, g, t, l, u) ↦
            inr (n, one, ground (arith, c), get-spend_one m n held one g, t, l, u)
        | inl f ↦ elim (found_by-proves now through found (taken m held) listener f) [
          | inl was ↦ inl was
          | inr (one, g, t, l, u) ↦
              inr (m, one, contains_here m nonces, taken-get m m held one g, t, l, u)
        ]
      ]

-- The listener that a spend finds is that of a nonce of the list that this node issued, to whoever
-- spends it, and that is still fresh.
pub spend-Proves :
    (now : ℕ) (through : Text) (nonces : List Text) (held : List (Text × Issued)) (listener : Text)
    → (spend now through nonces held).0 ≡ some listener
    → Proves now through listener nonces held
unfolding spend
spend-Proves now through nonces held listener e =
    elim (spend_each-Proves now through nonces none held listener e) [ inl f ↦ cc | inr p ↦ p ]

-- What issuing `count` more leaves of `n` held.
abbrev Issues : ℕ → ℕ → Option (List (Text × Issued) × List Text) → Type 0
Issues n count none = Unit {0}
Issues n count (some (after, nonces)) = (length after ≤ n + count) × (length nonces ≡ count)

then_issue-Issues :
    (n k : ℕ) (nonce : Text) (o : Option (List (Text × Issued) × List Text))
    → k ≤ n + 1
    → (count : ℕ) → Issues k count o
    → Issues n (suc count) (then_issue nonce o)
then_issue-Issues n k nonce none h count i = tt
then_issue-Issues n k nonce (some (after, nonces)) h count i =
    (omega (arith, i.0), omega (arith, i.1))

issue_each-Issues :
    (count : ℕ) (one : Issued) (draws : List Text) (held : List (Text × Issued))
    → Issues (length held) count (issue_each count one draws held)
unfolding issue_each
issue_each-Issues zero one draws held = ground arith
issue_each-Issues (suc count) one draws held = elim (Option-cases (draw held draws)) [
  | inl e ↦ rw (e, issue_each) tt
  | inr ((nonce, rest), e) ↦
      rw (e, issue_each)
        (then_issue-Issues (length held) (length (insert nonce one held)) nonce
          (issue_each count one rest (insert nonce one held)) (length-insert-le nonce one held)
          count (issue_each-Issues count one rest (insert nonce one held)))
]

length-fresh-le : (now : ℕ) (held : List (Text × Issued)) → length (fresh now held) ≤ length held
unfolding fresh
length-fresh-le now [] = omega arith
length-fresh-le now ((k, one) ∷ m) = ground (arith, length-fresh-le now m)

length-swept-le :
    (now count : ℕ) (held : List (Text × Issued)) → length (swept now count held) ≤ length held
unfolding swept
length-swept-le now count held = ground (arith, length-fresh-le now held)

-- However many are asked for, no more than 65,536 nonces are outstanding, and at most 32 are answered.
pub issue_bounded :
    (now : ℕ) (draws : List Text) (through listener : Text) (count : ℕ)
    → (held : List (Text × Issued)) {after : List (Text × Issued)} {nonces : List Text}
    → length held ≤ most
    → issue now draws through listener count held ≡ some (after, nonces)
    → (length after ≤ most) × (length nonces ≤ at_once) × (length nonces ≤ count)
unfolding issue
issue_bounded now draws through listener count held b e =
    let kept = swept now count held in
    let one : Issued = record { through = through; listener = listener; until = now + within } in
    let n = min (min count at_once) (most - length kept) in
    let i = rw e at (issue_each-Issues n one draws kept) in
    let fewer = length-swept-le now count held in
    (omega (arith, i.0, fewer, b), omega (arith, i.1), omega (arith, i.1))
