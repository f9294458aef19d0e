-- ===== src/Plane/HeldLaws.antt =====
-- What src/plane/held.rs keeps over every interleaving of its callers.
use xmip_core_runtime.Base.{
  ℕ, ◌≤◌, ◌≡◌, ◌⊎◌, inl, inr, refl, Bool, true, false, not, ◌&&◌, List, [], ◌∷◌, Option, none, some,
  arith, length, get, insert, remove, length-insert-le, get-insert, get-remove, leb, ◌==◌, nat_eq,
  nat_beq_iff, push_new, any-append, is_some, Option-cases, Bool-cases,
}
use xmip_core_runtime.Plane.Held.{
  Held, Holding, most, live, drawn, retain, is_revoked, has_passed, room, keeps, held_again,
  proved_by,
}

-- Each handle is one caller's and not 0, and each caller was proven by what is not revoked.
abbrev pub Everyone : List ℕ → List (ℕ × Held) → Type 0
Everyone revoked [] = Unit {0}
Everyone revoked ((k, h) ∷ m) =
    ((k == 0) ≡ false)
    × (get k m ≡ none)
    × (h.proof.identity.proven ≡ true)
    × (is_revoked h.by revoked ≡ false)
    × Everyone revoked m

pub record IsValid (s : Holding) : Type 0 where
  pub bounded : length s.callers ≤ most
  pub everyone : Everyone s.revoked s.callers

pub length-retain-le : (p : Held → Bool) (m : List (ℕ × Held)) → length (retain p m) ≤ length m
unfolding retain
length-retain-le p [] = omega arith
length-retain-le p ((k, h) ∷ m) = ground (arith, length-retain-le p m)

get-retain-none :
    (p : Held → Bool) (k : ℕ) (m : List (ℕ × Held)) → get k m ≡ none → get k (retain p m) ≡ none
unfolding retain get
get-retain-none p k [] e = refl
get-retain-none p k ((j, h) ∷ m) e = ground (arith, get-retain-none p k m)

retain-Everyone :
    (p : Held → Bool) (revoked : List ℕ) (m : List (ℕ × Held))
    → Everyone revoked m
    → Everyone revoked (retain p m)
unfolding retain
retain-Everyone p revoked [] e = tt
retain-Everyone p revoked ((k, h) ∷ m) e =
    let rest = retain-Everyone p revoked m e.4 in
    let gone = get-retain-none p k m e.1 in
    elim (Bool-cases (p h)) [
      | inl kept ↦ rw kept (e.0, gone, e.2, e.3, rest)
      | inr dropped ↦ rw dropped rest
    ]

pub remove-Everyone :
    (k : ℕ) (revoked : List ℕ) (m : List (ℕ × Held))
    → Everyone revoked m
    → Everyone revoked (remove k m)
unfolding remove
remove-Everyone k revoked [] e = tt
remove-Everyone k revoked ((j, h) ∷ m) e =
    let rest = remove-Everyone k revoked m e.4 in
    let gone : get j (remove k m) ≡ none = ground (arith, get-remove k j m, e.1) in
    elim (Bool-cases (j == k)) [
      | inl same ↦ rw same rest
      | inr other ↦ rw other (e.0, gone, e.2, e.3, rest)
    ]

insert-Everyone :
    (k : ℕ) (g : Held) (revoked : List ℕ) (m : List (ℕ × Held))
    → (k == 0) ≡ false
    → g.proof.identity.proven ≡ true
    → is_revoked g.by revoked ≡ false
    → Everyone revoked m
    → Everyone revoked (insert k g m)
unfolding insert get
insert-Everyone k g revoked [] z p r e = (z, refl, p, r, tt)
insert-Everyone k g revoked ((j, h) ∷ m) z p r e =
    let rest = insert-Everyone k g revoked m z p r e.4 in
    elim (Bool-cases (j == k)) [
      | inl same ↦ rw same (z, ground (arith, nat_beq_iff j k, e.1), p, r, e.4)
      | inr other ↦ rw other (
        e.0,
        ground (arith, get-insert k j g m, e.1, nat_beq_iff j k, nat_beq_iff k j),
        e.2,
        e.3,
        rest,
      )
    ]

pub get-Everyone :
    (k : ℕ) (h : Held) (revoked : List ℕ) (m : List (ℕ × Held))
    → get k m ≡ some h
    → Everyone revoked m
    → ((k == 0) ≡ false) × (h.proof.identity.proven ≡ true) × (is_revoked h.by revoked ≡ false)
unfolding get
get-Everyone k h revoked [] g e = cc
get-Everyone k h revoked ((j, i) ∷ m) g e = elim (Bool-cases (j == k)) [
  | inl same ↦
      let here : some i ≡ some h = rw same at g in
      ground (arith, here, nat_beq_iff j k, e.0, e.2, e.3)
  | inr other ↦ get-Everyone k h revoked m (rw other at g) e.4
]

still_not_revoked :
    (by : ℕ) (revoked : List ℕ) (h : Held)
    → is_revoked h.by revoked ≡ false
    → proved_by by h ≡ false
    → is_revoked h.by (push_new revoked by) ≡ false
still_not_revoked by revoked h r p = elim (Option-cases h.by) [
  | inl e ↦ ground arith
  | inr (b, e) ↦
      ground (arith, any-append (λ x. x == b) revoked (by ∷ []), nat_beq_iff b by, nat_beq_iff by b)
]

pub revoke-Everyone :
    (by : ℕ) (revoked : List ℕ) (m : List (ℕ × Held))
    → Everyone revoked m
    → Everyone (push_new revoked by) (retain (λ h. not (proved_by by h)) m)
unfolding retain
revoke-Everyone by revoked [] e = tt
revoke-Everyone by revoked ((k, h) ∷ m) e =
    let rest = revoke-Everyone by revoked m e.4 in
    let gone = get-retain-none (λ (h : Held). not (proved_by by h)) k m e.1 in
    elim (Bool-cases (proved_by by h)) [
      | inl dropped ↦ rw dropped rest
      | inr kept ↦ rw kept (e.0, gone, e.2, still_not_revoked by revoked h e.3 kept, rest)
    ]

pub drawn_free :
    (taken : ℕ → Bool) (draws : List ℕ) (d : ℕ)
    → drawn taken draws ≡ some d
    → ((d == 0) ≡ false) × (taken d ≡ false)
unfolding drawn
drawn_free taken [] d e = cc
drawn_free taken (x ∷ draws) d e = elim (Bool-cases (not (x == 0) && not (taken x))) [
  | inl free ↦ let here : some x ≡ some d = rw free at e in ground (arith, here, free)
  | inr other ↦ drawn_free taken draws d (rw other at e)
]

room-IsValid : (now : ℕ) (s : Holding) → IsValid s → IsValid (room now s)
unfolding room
room-IsValid now s v =
    let kept = retain-Everyone (live now) s.revoked s.callers v.everyone in
    let fewer = length-retain-le (live now) s.callers in
    elim (Bool-cases (leb most (length s.callers))) [
      | inl full ↦ rw full (record { bounded = ground (arith, fewer, v.bounded); everyone = kept })
      | inr spare ↦ rw spare v
    ]

room_revoked : (now : ℕ) (s : Holding) → (room now s).revoked ≡ s.revoked
unfolding room
room_revoked now s = ground arith

pub get-retain_kept :
    (p : Held → Bool) (k : ℕ) (h : Held) (m : List (ℕ × Held))
    → get k m ≡ some h
    → p h ≡ true
    → get k (retain p m) ≡ some h
unfolding retain get
get-retain_kept p k h [] g e = cc
get-retain_kept p k h ((j, i) ∷ m) g e = elim (Bool-cases (j == k)) [
  | inl same ↦
      let here : some i ≡ some h = rw same at g in
      let kept : p i ≡ true = ground (arith, here, e) in rw (kept, same) here
  | inr other ↦
      let rest = get-retain_kept p k h m (rw other at g) e in
      elim (Bool-cases (p i)) [ inl kept ↦ rw (kept, other) rest | inr dropped ↦ rw dropped rest ]
]

-- A holding that holds `h` under `handle`, if it is a handle, beside those of `s` that live.
abbrev pub HeldIn : (now : ℕ) → Held → Holding → Option (Holding × ℕ) → Type 0
HeldIn now h s none = Unit {0}
HeldIn now h s (some (t, handle)) =
    IsValid t
    × (t.revoked ≡ s.revoked)
    × ((handle ≡ 0)
        ⊎ (((handle == 0) ≡ false)
            × (t.callers ≡ insert handle h (room now s).callers)
            × (get handle (room now s).callers ≡ none)
            × (live now h ≡ true)))

pub not_passed : (now : ℕ) (h : Held) → has_passed now h.until ≡ false → live now h ≡ true
unfolding live
not_passed now h e = elim (Option-cases h.until) [
  | inl n ↦ ground arith
  | inr (u, n) ↦ ground arith
]

keeps-HeldIn :
    (now : ℕ) (draws : List ℕ) (h : Held) (s : Holding) (o : Option ℕ)
    → drawn (λ taken. is_some (get taken (room now s).callers)) draws ≡ o
    → IsValid s
    → leb most (length (room now s).callers) ≡ false
    → h.proof.identity.proven ≡ true
    → is_revoked h.by s.revoked ≡ false
    → live now h ≡ true
    → HeldIn now h s (keeps h (room now s) o)
unfolding keeps
keeps-HeldIn now draws h s none e v l p r alive = tt
keeps-HeldIn now draws h s (some d) e v l p r alive =
    let (not_zero, free) =
      drawn_free (λ taken. is_some (get taken (room now s).callers)) draws d e in
    let w = room-IsValid now s v in
    let same = room_revoked now s in
    (
      record {
        bounded = ground (arith, length-insert-le d h (room now s).callers, l);
        everyone =
            insert-Everyone d h (room now s).revoked (room now s).callers not_zero p (rw same r)
              w.everyone;
      },
      same,
      inr (not_zero, refl, ground (arith, free), alive),
    )

pub held_again-HeldIn :
    (now : ℕ) (draws : List ℕ) (h : Held) (s : Holding)
    → IsValid s
    → h.proof.identity.proven ≡ true
    → HeldIn now h s (held_again now draws h s)
unfolding held_again
held_again-HeldIn now draws h s v p = elim (Bool-cases (has_passed now h.until)) [
  | inl passed ↦ rw passed (v, refl, inl refl)
  | inr early ↦ elim (Bool-cases (is_revoked h.by s.revoked)) [
    | inl gone ↦ rw (early, gone) (v, refl, inl refl)
    | inr stands ↦ elim (Bool-cases (leb most (length (room now s).callers))) [
      | inl full ↦ rw (early, stands, full) (room-IsValid now s v, room_revoked now s, inl refl)
      | inr spare ↦
          rw (early, stands, spare)
            (keeps-HeldIn now draws h s
              (drawn (λ taken. is_some (get taken (room now s).callers)) draws) refl v spare p
              stands (not_passed now h early))
    ]
  ]
]
