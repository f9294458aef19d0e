-- ===== src/Pickup/HoldingLaws.antt =====
-- What a Publication's Journeys come to: each is held or departs, by where its Subscription stands.
use xmip_core_runtime.Base.{
  ℕ, ◌≡◌, refl, ◌∙◌, ap, inl, inr, Bool, true, false, not, ◌&&◌, ◌||◌, List, [], ◌∷◌, Option, none,
  some, Text, text_eq, text_beq_iff, map, keep, any, all, if◌then◌else◌, ◌==◌, nat_eq, arith,
  Bool-cases, suc,
}
use xmip_core_runtime.Sequence.Point.{Hold}
use xmip_core_runtime.Pickup.Configured.{name}
use xmip_core_runtime.Pickup.State.{Entry, State, index, entry, one_further}
use xmip_core_runtime.Pickup.Holding.{
  Opened, Holding, is_held, hold_of, hold_one, held_of, names, lead, departing,
}

-- Whether a Subscription holds what it matches, read from its entry alone.
abbrev pub held_by : (every : Bool) → Option Entry → Bool
held_by every none = false
held_by every (some e) = every || (e.standing.paused || not (e.held == 0))

abbrev pub holds_it : State → (every : Bool) → Opened → Bool
holds_it s every o = held_by every (entry o.subscription s)

abbrev pub hold_at : (body : Text) → Opened → Option Entry → List Hold → List Hold
hold_at body o none rest = rest
hold_at body o (some e) rest = hold_of body e o ∷ rest

-- The Hold of each of some Journeys at the end of its own Subscription's queue, in their order.
abbrev pub holds_for : State → (body : Text) → List Opened → List Hold
holds_for s body [] = []
holds_for s body (o ∷ opened) = hold_at body o (entry o.subscription s) (holds_for s body opened)

data Indexed (o : Option ℕ) (found : Option Entry) : Type 0 where
  nowhere : o ≡ none → found ≡ none → Indexed o found
  at : (i : ℕ) (e : Entry) → o ≡ some i → found ≡ some e → Indexed o found

further : {o : Option ℕ} {found : Option Entry} → Indexed o found → Indexed (one_further o) found
further (nowhere n f) = nowhere (ap one_further n) f
further (at i e n f) = at (suc i) e (ap one_further n) f

index_entry : (n : Text) (s : State) → Indexed (index n s) (entry n s)
unfolding index entry
index_entry n [] = nowhere refl refl
index_entry n (e ∷ s) = elim (Bool-cases (name e.configured == n)) [
  | inl here ↦ rw here (at 0 e refl refl)
  | inr there ↦ rw there (further (index_entry n s))
]

module _ (s : State) (every : Bool) (body : Text) where
  named_one :
      (o : Opened) (rest : Holding) (n : Text) {i : Option ℕ} {found : Option Entry}
      → Indexed i found
      → names (hold_one every body o i found rest) n
        ≡ ((held_by every found && o.subscription == n) || names rest n)
  unfolding names hold_one is_held
  named_one o rest n (nowhere p q) = rw (p, q, hold_one) (ground arith)
  named_one o rest n (at i e p q) = rw (p, q, hold_one) (ground arith)

  holds_one :
      (o : Opened) (rest : Holding) {i : Option ℕ} {found : Option Entry}
      → Indexed i found
      → (hold_one every body o i found rest).holds
        ≡ (if held_by every found then hold_at body o found rest.holds else rest.holds)
  unfolding hold_one is_held
  holds_one o rest (nowhere p q) = rw (p, q, hold_one) (ground arith)
  holds_one o rest (at i e p q) = rw (p, q, hold_one) (ground arith)

  -- Its name is among what is held just where a Message of it was opened and it holds.
  seen :
      (n : Text) (opened : List Opened)
      → any (λ (p : Opened). holds_it s every p && p.subscription == n) opened
        ≡ (held_by every (entry n s) && any (λ (p : Opened). p.subscription == n) opened)
  seen n [] = ground arith
  seen n (o ∷ opened) = elim (Bool-cases (o.subscription == n)) [
    | inl same ↦
        let e : o.subscription ≡ n = (text_beq_iff o.subscription n).0 same in
        let f : entry o.subscription s ≡ entry n s = ap (λ (t : Text). entry t s) e in
        rw f (ground (arith, seen n opened, same))
    | inr apart ↦ ground (arith, seen n opened, apart)
  ]

  names-held_of :
      (n : Text) (opened : List Opened)
      → names (held_of s every body opened) n
        ≡ any (λ (p : Opened). holds_it s every p && p.subscription == n) opened
  unfolding names held_of
  names-held_of n [] = refl
  names-held_of n (o ∷ opened) =
      named_one o (held_of s every body opened) n (index_entry o.subscription s)
      ∙ ground (arith, names-held_of n opened)

  held_alike :
      (opened rest : List Opened)
      → all (λ (o : Opened). any (λ (p : Opened). p.subscription == o.subscription) opened) rest
        ≡ true
      → keep (λ (o : Opened). not (names (held_of s every body opened) o.subscription)) rest
        ≡ keep (λ (o : Opened). not (holds_it s every o)) rest
  held_alike opened [] h = refl
  held_alike opened (o ∷ rest) h = ground (
    arith,
    names-held_of o.subscription opened,
    seen o.subscription opened,
    held_alike opened rest,
  )

  holds-held_of :
      (opened : List Opened)
      → (held_of s every body opened).holds ≡ holds_for s body (keep (holds_it s every) opened)
  unfolding held_of
  holds-held_of [] = refl
  holds-held_of (o ∷ opened) =
      holds_one o (held_of s every body opened) (index_entry o.subscription s)
      ∙ ground (arith, holds-held_of opened)

module _ {ℓ κ} {A : Type ℓ} {B : Type κ} (p : A → B → Bool) where
  all-any-cons :
      (x : A) (xs : List A) (ys : List B)
      → all (λ y. any (λ a. p a y) xs) ys ≡ true
      → all (λ y. any (λ a. p a y) (x ∷ xs)) ys ≡ true
  all-any-cons x xs [] h = refl
  all-any-cons x xs (y ∷ ys) h = ground (arith, all-any-cons x xs ys)

each_opened :
    (opened : List Opened)
    → all (λ (o : Opened). any (λ (p : Opened). p.subscription == o.subscription) opened) opened
      ≡ true
each_opened [] = refl
each_opened (o ∷ opened) = ground (
  arith,
  (text_beq_iff o.subscription o.subscription).1 refl,
  all-any-cons (λ (p q : Opened). p.subscription == q.subscription) o opened opened
      (each_opened opened),
)

pub holding_parts :
    (s : State) (every : Bool) (body : Text) (opened : List Opened)
    → (departing (held_of s every body opened) opened
        ≡ map lead (keep (λ (o : Opened). not (holds_it s every o)) opened))
      × ((held_of s every body opened).holds ≡ holds_for s body (keep (holds_it s every) opened))
unfolding departing
holding_parts s every body opened = (
  ap (map lead) (held_alike s every body opened opened (each_opened opened)),
  holds-held_of s every body opened,
)
