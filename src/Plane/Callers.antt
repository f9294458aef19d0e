-- ===== src/Plane/Callers.antt =====
-- Who is someone, over every interleaving of the calls of src/plane/held.rs: each call's critical
-- sections are steps, and `again` looks a caller up in one and holds it again in another.
use xmip_core_runtime.Base.{
  ℕ, ◌≤◌, ◌≡◌, inl, inr, refl, sym, ap, ◌∙◌, true, false, List, [], Option, none, some, Text, arith,
  length, get, remove, length-remove-le, get-remove, ◌==◌, nat_eq, nat_beq_iff, Option-cases,
  Bool-cases,
}
use xmip_core_runtime.Plane.Held.{
  Identity, Held, Holding, most, live, is_revoked, room, held_again, hold, proof, proof_at, proven,
  release, revoke,
}
use xmip_core_runtime.Plane.HeldLaws.{
  IsValid, HeldIn, held_again-HeldIn, remove-Everyone, revoke-Everyone, length-retain-le,
  get-Everyone, get-retain_kept,
}

pub data Step (s : Holding) : Holding → Type 0 where
  holds :
      (now : ℕ) (draws : List ℕ) (identity : Identity) (until by : Option ℕ) (leaf : Option Text)
      → {t : Holding} {handle : ℕ} → hold now draws identity until by leaf s ≡ some (t, handle)
      → Step s t
  holds_again :
      (now : ℕ) (draws : List ℕ) (h : Held) {t : Holding} {handle : ℕ}
      → h.proof.identity.proven ≡ true
      → held_again now draws h s ≡ some (t, handle)
      → Step s t
  asks : (now handle : ℕ) → Step s (proof now handle s).0
  releases : (handle : ℕ) → Step s (release handle s).0
  revokes : (by : ℕ) → Step s (revoke by s)

pub data Reach : Holding → Type 0 where
  start : Reach (record { callers = []; revoked = [] })
  later : {s t : Holding} → Reach s → Step s t → Reach t

pub hold_proven :
    (now : ℕ) (draws : List ℕ) (identity : Identity) (until by : Option ℕ) (leaf : Option Text)
    → (s : Holding) → identity.proven ≡ true
    → hold now draws identity until by leaf s
      ≡ held_again now draws
          (record { proof = record { identity = identity; leaf = leaf }; until = until; by = by })
          s
unfolding hold
hold_proven now draws identity until by leaf s e = ground arith

pub hold_unproven :
    (now : ℕ) (draws : List ℕ) (identity : Identity) (until by : Option ℕ) (leaf : Option Text)
    → (s : Holding) → identity.proven ≡ false
    → hold now draws identity until by leaf s ≡ some (s, 0)
unfolding hold
hold_unproven now draws identity until by leaf s e = ground arith

hold-HeldIn :
    (now : ℕ) (draws : List ℕ) (identity : Identity) (until by : Option ℕ) (leaf : Option Text)
    → (s : Holding) → IsValid s
    → HeldIn now
        (record { proof = record { identity = identity; leaf = leaf }; until = until; by = by })
        s
        (hold now draws identity until by leaf s)
hold-HeldIn now draws identity until by leaf s v = elim (Bool-cases identity.proven) [
  | inl sure ↦
      let h : Held = record {
        proof = record { identity = identity; leaf = leaf };
        until = until;
        by = by;
      } in
      rw (hold_proven now draws identity until by leaf s sure)
        (held_again-HeldIn now draws h s v sure)
  | inr unsure ↦ rw (hold_unproven now draws identity until by leaf s unsure) (v, refl, inl refl)
]

remove-IsValid :
    (k : ℕ) (s : Holding) → IsValid s → IsValid (record s { callers = remove k s.callers })
remove-IsValid k s v = record {
  bounded = ground (arith, length-remove-le k s.callers, v.bounded);
  everyone = remove-Everyone k s.revoked s.callers v.everyone;
}

proof_at-IsValid :
    (now k : ℕ) (s : Holding) (o : Option Held) → IsValid s → IsValid (proof_at now k s o).0
unfolding proof_at
proof_at-IsValid now k s none v = v
proof_at-IsValid now k s (some h) v = elim (Bool-cases (live now h)) [
  | inl alive ↦ rw alive v
  | inr gone ↦ rw gone (remove-IsValid k s v)
]

proof-IsValid : (now k : ℕ) (s : Holding) → IsValid s → IsValid (proof now k s).0
unfolding proof
proof-IsValid now k s v = elim (Bool-cases (k == 0)) [
  | inl zero_handle ↦ rw zero_handle v
  | inr other ↦ rw other (proof_at-IsValid now k s (get k s.callers) v)
]

Step-IsValid : {s t : Holding} → Step s t → IsValid s → IsValid t
unfolding release revoke
Step-IsValid {s} (holds now draws identity until by leaf e) v =
    let h = hold-HeldIn now draws identity until by leaf s v in (rw e at h).0
Step-IsValid {s} (holds_again now draws h p e) v =
    let h = held_again-HeldIn now draws h s v p in (rw e at h).0
Step-IsValid {s} (asks now handle) v = proof-IsValid now handle s v
Step-IsValid {s} (releases handle) v = remove-IsValid handle s v
Step-IsValid {s} (revokes by) v = record {
  bounded = grind (arith, length-retain-le, v.bounded);
  everyone = revoke-Everyone by s.revoked s.callers v.everyone;
}

Reach-IsValid : {s : Holding} → Reach s → IsValid s
Reach-IsValid start = record { bounded = ground arith; everyone = tt }
Reach-IsValid (later r st) = Step-IsValid st (Reach-IsValid r)

-- Who a handle is: the caller that is held under it and lives.
proven_at :
    (now k : ℕ) (s : Holding) (identity : Identity)
    → proven now k s ≡ some identity
    → (h : Held) × (get k s.callers ≡ some h) × (live now h ≡ true) × (h.proof.identity ≡ identity)
unfolding proven proof proof_at
proven_at now k s identity e = elim (Option-cases (get k s.callers)) [
  | inl g ↦ ground arith
  | inr (h, g) ↦ (h, g, ground arith, ground arith)
]

pub proven_live :
    (now k : ℕ) (s : Holding) (h : Held)
    → (k == 0) ≡ false
    → get k s.callers ≡ some h
    → live now h ≡ true
    → proven now k s ≡ some h.proof.identity
unfolding proven proof proof_at
proven_live now k s h z g l = ground arith

proven_none : (now k : ℕ) (s : Holding) → get k s.callers ≡ none → proven now k s ≡ none
unfolding proven proof proof_at
proven_none now k s g = ground arith

-- Whatever the callers do, in any order, whoever a handle is someone for was proven at the gate: the
-- handle is not 0, it is held and its time has not passed, what proved it was never revoked, and no
-- more than 65,536 are held.
pub proven_admitted :
    {s : Holding} (now k : ℕ) (identity : Identity)
    → Reach s
    → proven now k s ≡ some identity
    → (h : Held) × (get k s.callers ≡ some h)
      × (h.proof.identity ≡ identity)
      × (identity.proven ≡ true)
      × ((k == 0) ≡ false)
      × (live now h ≡ true)
      × (is_revoked h.by s.revoked ≡ false)
      × (length s.callers ≤ most)
proven_admitted {s} now k identity r e =
    let v = Reach-IsValid r in
    let (h, g, alive, same) = proven_at now k s identity e in
    let (not_zero, sure, stands) = get-Everyone k h s.revoked s.callers g v.everyone in
    (
      h,
      g,
      same,
      ap (λ (x : Identity). x.proven) (sym same) ∙ sure,
      not_zero,
      alive,
      stands,
      v.bounded,
    )

-- A handle that was released is no one, and every other handle is who it was.
pub release_ends :
    (now k j : ℕ) (s : Holding)
    → (j == k) ≡ false
    → (proven now k (release k s).0 ≡ none) × (proven now j (release k s).0 ≡ proven now j s)
unfolding release proven proof proof_at
release_ends now k j s other = ground (
  arith,
  get-remove k k s.callers,
  get-remove k j s.callers,
  nat_beq_iff k k,
  nat_beq_iff k j,
  nat_beq_iff j k,
)

pub proven_expired :
    (now k : ℕ) (s : Holding) (h : Held)
    → get k s.callers ≡ some h
    → live now h ≡ false
    → proven now k s ≡ none
unfolding proven proof proof_at
proven_expired now k s h g l = ground arith

pub proven_no_room :
    (now k : ℕ) (s : Holding) → get k (room now s).callers ≡ none → proven now k s ≡ none
unfolding room
proven_no_room now k s e = elim (Option-cases (get k s.callers)) [
  | inl g ↦ proven_none now k s g
  | inr (h, g) ↦ elim (Bool-cases (live now h)) [
    | inl alive ↦ ground (arith, get-retain_kept (live now) k h s.callers g alive)
    | inr gone ↦ proven_expired now k s h g gone
  ]
]
