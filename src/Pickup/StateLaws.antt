-- ===== src/Pickup/StateLaws.antt =====
-- What a change at one entry of a node's pickup leaves alone: src/pickup/state.rs.
use xmip_core_runtime.Base.{
  ℕ, ◌≡◌, refl, inl, inr, [], ◌∷◌, Option, none, some, Text, text_eq, text_beq_iff, if◌then◌else◌,
  ◌==◌, Bool-cases, arith,
}
use xmip_core_runtime.Pickup.Configured.{name}
use xmip_core_runtime.Pickup.State.{
  Entry, State, one_further, index, modify, at_index, change, entry,
}

abbrev pub changed_entry : (Entry → Entry) → Option Entry → Option Entry
changed_entry f none = none
changed_entry f (some e) = some (f e)

at_index-one_further :
    (o : Option ℕ) (f : Entry → Entry) (e : Entry) (s : State)
    → at_index (one_further o) f (e ∷ s) ≡ e ∷ at_index o f s
unfolding modify
at_index-one_further none f e s = refl
at_index-one_further (some i) f e s = refl

pub change-cons :
    (n : Text) (f : Entry → Entry) (e : Entry) (s : State)
    → change n f (e ∷ s) ≡ (if name e.configured == n then f e ∷ s else e ∷ change n f s)
unfolding change index modify
change-cons n f e s = elim (Bool-cases (name e.configured == n)) [
  | inl here ↦ rw here refl
  | inr there ↦ rw there (at_index-one_further (index n s) f e s)
]

-- What changes at an entry that keeps its configuration is seen under its own name, and no other's.
pub entry-change :
    (n m : Text) (f : Entry → Entry) (s : State)
    → ((e : Entry) → (f e).configured ≡ e.configured)
    → entry m (change n f s) ≡ (if n == m then changed_entry f (entry m s) else entry m s)
unfolding entry change index
entry-change n m f [] kept = ground arith
entry-change n m f (e ∷ s) kept =
    rw (change-cons n f e s) (elim (Bool-cases (name e.configured == n)) [
      | inl here ↦ rw here (
          ground (
            arith,
            kept e,
            text_beq_iff (name e.configured) n,
            text_beq_iff n m,
            text_beq_iff (name e.configured) m,
          ))
      | inr there ↦ rw there (
          ground (
            arith,
            entry-change n m f s kept,
            text_beq_iff (name e.configured) n,
            text_beq_iff n m,
            text_beq_iff (name e.configured) m,
          ))
    ])
