-- ===== src/Plane/Held.antt =====
-- src/plane/held.rs and src/plane/handle.rs: the callers the runtime proved, held by handle. What a
-- certificate proved is kept by the identity's value and the gate's verdict. A time is a count of
-- seconds since the epoch. What the random source gives is a list of draws.
use xmip_core_runtime.Base.{
  ℕ, Bool, true, false, not, ◌&&◌, List, [], ◌∷◌, Option, none, some, Text, length, contains,
  push_new, get, insert, remove, is_some, if◌then◌else◌, ltb, leb, ◌==◌, nat_eq,
}

-- `context::AuthenticatedIdentity`, what the code reads of it.
pub record Identity : Type 0 where
  pub value : Text
  pub proven : Bool

-- The caller every holder of it shares; what nodes said for it is in `Vouches`.
pub record Proof : Type 0 where
  pub identity : Identity
  pub leaf : Option Text

-- A prover is its number.
pub record Held : Type 0 where
  pub proof : Proof
  pub until : Option ℕ
  pub by : Option ℕ

pub record Holding : Type 0 where
  pub callers : List (ℕ × Held)
  pub revoked : List ℕ

abbrev pub most : ℕ
most = 65536

unfoldable pub live : (now : ℕ) → Held → Bool
live now h = elim h.until [ none ↦ true | some until ↦ ltb now until ]

-- `drawn`: the first draw that is no one's and not 0; `none` is a loop that goes on drawing.
unfoldable pub drawn : (ℕ → Bool) → List ℕ → Option ℕ
drawn taken [] = none
drawn taken (d ∷ ds) = if not (d == 0) && not (taken d) then some d else drawn taken ds

-- `HashMap::retain` by what is held.
unfoldable pub retain : (Held → Bool) → List (ℕ × Held) → List (ℕ × Held)
retain p [] = []
retain p ((k, h) ∷ m) = let rest = retain p m in if p h then (k, h) ∷ rest else rest

abbrev pub is_revoked : Option ℕ → List ℕ → Bool
is_revoked none revoked = false
is_revoked (some by) revoked = contains revoked by

abbrev pub has_passed : (now : ℕ) → Option ℕ → Bool
has_passed now none = false
has_passed now (some until) = leb until now

-- Past the most, the expired are dropped.
unfoldable pub room : (now : ℕ) → Holding → Holding
room now s =
    if leb most (length s.callers) then record s { callers = retain (live now) s.callers } else s

unfoldable pub keeps : Held → Holding → Option ℕ → Option (Holding × ℕ)
keeps h s none = none
keeps h s (some handle) = some (record s { callers = insert handle h s.callers }, handle)

-- `held_again`: the handle, 0 where it may not be held.
unfoldable pub held_again : (now : ℕ) → (draws : List ℕ) → Held → Holding → Option (Holding × ℕ)
unfolding room keeps
held_again now draws h s =
    if has_passed now h.until
    then some (s, 0)
    else if is_revoked h.by s.revoked
    then some (s, 0)
    else let t = room now s in
      if leb most (length t.callers)
      then some (t, 0)
      else keeps h t (drawn (λ taken. is_some (get taken t.callers)) draws)

-- `hold`.
unfoldable pub hold :
    (now : ℕ)
    → (draws : List ℕ) → Identity
    → (until by : Option ℕ) → (leaf : Option Text) → Holding
    → Option (Holding × ℕ)
hold now draws identity until by leaf s =
    if not identity.proven
    then some (s, 0)
    else held_again now draws
        (record { proof = record { identity = identity; leaf = leaf }; until = until; by = by }) s

unfoldable pub proof_at : (now handle : ℕ) → Holding → Option Held → Holding × Option Proof
proof_at now handle s none = (s, none)
proof_at now handle s (some caller) =
    if live now caller
    then (s, some caller.proof)
    else (record s { callers = remove handle s.callers }, none)

-- `proof`.
unfoldable pub proof : (now handle : ℕ) → Holding → Holding × Option Proof
unfolding proof_at
proof now handle s = if handle == 0 then (s, none) else proof_at now handle s (get handle s.callers)

-- `proven`.
unfoldable pub proven : (now handle : ℕ) → Holding → Option Identity
proven now handle s = elim (proof now handle s).1 [ none ↦ none | some p ↦ some p.identity ]

-- `again`: what it found, looked up at `now`, held again at `later`.
unfoldable pub found : (now handle : ℕ) → Holding → Option Held
found now handle s = elim (get handle s.callers) [
  | none ↦ none
  | some caller ↦ if live now caller then some caller else none
]

unfoldable pub again : (now later handle : ℕ) → List ℕ → Holding → Option (Holding × ℕ)
again now later handle draws s = elim (found now handle s) [
  | none ↦ some (s, 0)
  | some caller ↦ held_again later draws caller s
]

-- `release`.
unfoldable pub release : ℕ → Holding → Holding × Bool
release handle s = (record s { callers = remove handle s.callers }, is_some (get handle s.callers))

abbrev pub proved_by : ℕ → Held → Bool
proved_by by h = elim h.by [ none ↦ false | some b ↦ b == by ]

-- `revoke`.
unfoldable pub revoke : ℕ → Holding → Holding
revoke by s = record s {
  revoked = push_new s.revoked by;
  callers = retain (λ h. not (proved_by by h)) s.callers;
}
