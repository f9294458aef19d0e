-- ===== src/Plane/Fresh.antt =====
-- src/plane/fresh.rs: the nonces a node issues its relays, each spent once. A nonce is its bytes; what
-- the random source gives is a list of draws.
use xmip_core_runtime.Base.{
  ℕ, zero, suc, ◌+◌, ◌-◌, ◌*◌, min, not, ◌&&◌, List, [], ◌∷◌, Option, none, some, Text, text_eq,
  length, get, insert, remove, is_some, if◌then◌else◌, ltb, leb, ◌==◌, nat_eq,
}

pub record Issued : Type 0 where
  pub through : Text
  pub listener : Text
  pub until : ℕ

abbrev pub within : ℕ
within = 30 * 1000000000

abbrev pub at_once : ℕ
at_once = 32

abbrev pub most : ℕ
most = 65536

-- `LENGTH`.
abbrev pub nonce_length : ℕ
nonce_length = 16

-- The first draw that is not held, and the draws after it; `none` is a loop that goes on drawing.
unfoldable pub draw : List (Text × Issued) → List Text → Option (Text × List Text)
draw held [] = none
draw held (d ∷ ds) = if not (is_some (get d held)) then some (d, ds) else draw held ds

abbrev pub then_issue :
    Text → Option (List (Text × Issued) × List Text) → Option (List (Text × Issued) × List Text)
then_issue nonce none = none
then_issue nonce (some (held, nonces)) = some (held, nonce ∷ nonces)

unfoldable pub issue_each :
    ℕ → Issued → List Text → List (Text × Issued) → Option (List (Text × Issued) × List Text)
issue_each zero one draws held = some (held, [])
issue_each (suc count) one draws held = elim (draw held draws) [
  | none ↦ none
  | some (nonce, rest) ↦ then_issue nonce (issue_each count one rest (insert nonce one held))
]

-- `retain` of what is fresh.
unfoldable pub fresh : (now : ℕ) → List (Text × Issued) → List (Text × Issued)
fresh now [] = []
fresh now ((k, one) ∷ m) =
    let rest = fresh now m in if ltb now one.until then (k, one) ∷ rest else rest

unfoldable pub swept : (now count : ℕ) → List (Text × Issued) → List (Text × Issued)
swept now count held = if leb most (length held + count) then fresh now held else held

-- `Fresh::issue`.
unfoldable pub issue :
    (now : ℕ)
    → (draws : List Text) → (through listener : Text) → (count : ℕ) → List (Text × Issued)
    → Option (List (Text × Issued) × List Text)
unfolding issue_each swept
issue now draws through listener count held =
    let kept = swept now count held in
    issue_each (min (min count at_once) (most - length kept))
      (record { through = through; listener = listener; until = now + within }) draws kept

-- What one nonce of a list comes to: the listener of what it found first.
unfoldable pub found_by : (now : ℕ) → (through : Text) → Option Text → Option Issued → Option Text
found_by now through found none = found
found_by now through found (some one) =
    if one.through == through && ltb now one.until
    then elim found [ none ↦ some one.listener | some listener ↦ some listener ]
    else found

unfoldable pub spend_one : Text → List (Text × Issued) → List (Text × Issued)
spend_one nonce held = if length nonce == nonce_length then remove nonce held else held

unfoldable pub taken : Text → List (Text × Issued) → Option Issued
taken nonce held = if length nonce == nonce_length then get nonce held else none

-- `Fresh::spend`.
unfoldable pub spend_each :
    (now : ℕ)
    → (through : Text) → List Text
    → Option Text
    → List (Text × Issued)
    → Option Text × List (Text × Issued)
spend_each now through [] found held = (found, held)
spend_each now through (nonce ∷ nonces) found held =
    spend_each now through nonces (found_by now through found (taken nonce held))
      (spend_one nonce held)

unfoldable pub spend :
    (now : ℕ)
    → (through : Text) → List Text
    → List (Text × Issued)
    → Option Text × List (Text × Issued)
unfolding spend_each
spend now through nonces held = spend_each now through nonces none held
