-- ===== src/Pickup/Reading.antt =====
-- What a read of a Subscription's queue takes: src/pickup/released.rs.
use xmip_core_runtime.Base.{
  ℕ, zero, suc, ◌+◌, ◌<◌, ◌≤◌, ◌≡◌, refl, inl, inr, Bool, true, not, ◌&&◌, ◌||◌, List, [], ◌∷◌,
  ◌++◌, keep, all, contains, push_new, length, ltb, leb, if◌then◌else◌, ◌==◌, nat_eq, nat_beq_iff,
  u64_mod, arith, Bool-cases, any-append, add64,
}
use xmip_core_runtime.SendStep.Admission.{without}
use xmip_core_runtime.Pickup.State.{Entry}
use xmip_core_runtime.Pickup.Released.{Held, take_each, let_go}
use xmip_core_runtime.Pickup.Places.{first, places, from_place, others_than, count}

pub contains-push_new-eq :
    (xs : List ℕ) (x p : ℕ) → contains (push_new xs x) p ≡ (contains xs p || x == p)
contains-push_new-eq xs x p =
    ground (arith, any-append (λ (y : ℕ). y == p) xs (x ∷ []), nat_beq_iff x p)

pub contains-without :
    (q : ℕ) (xs : List ℕ) (p : ℕ) → contains (without q xs) p ≡ (contains xs p && not (p == q))
contains-without q [] p = refl
contains-without q (x ∷ xs) p =
    ground (arith, contains-without q xs p, nat_beq_iff x p, nat_beq_iff x q, nat_beq_iff p q)

pub contains-from_place :
    (c p : ℕ) (held : List Held)
    → contains (places (from_place c held)) p ≡ (contains (places held) p && leb c p)
contains-from_place c p [] = refl
contains-from_place c p (h ∷ held) =
    ground (arith, contains-from_place c p held, nat_beq_iff h.sequence p)

pub contains-others_than :
    (q p : ℕ) (held : List Held)
    → contains (places (others_than q held)) p ≡ (contains (places held) p && not (p == q))
contains-others_than q p [] = refl
contains-others_than q p (h ∷ held) = ground (
  arith,
  contains-others_than q p held,
  nat_beq_iff h.sequence p,
  nat_beq_iff h.sequence q,
  nat_beq_iff p q,
)

-- Each place is past those before it.
abbrev pub Ascending : List Held → Type 0
Ascending [] = Unit {0}
Ascending (h ∷ held) =
    (all (λ (k : Held). ltb h.sequence k.sequence) held ≡ true)
    × (h.sequence + 1 < u64_mod)
    × Ascending held

pub all-keep {ℓ} :
    {A : Type ℓ} (p q : A → Bool) (xs : List A) → all p xs ≡ true → all p (keep q xs) ≡ true
all-keep p q [] h = refl
all-keep p q (x ∷ xs) h = ground (arith, all-keep p q xs)

pub Ascending-keep : (q : Held → Bool) (held : List Held) → Ascending held → Ascending (keep q held)
Ascending-keep q [] a = tt
Ascending-keep q (h ∷ held) (past, small, a) = elim (Bool-cases (q h)) [
  | inl on ↦ rw on (all-keep _ q held past, small, Ascending-keep q held a)
  | inr off ↦ rw off (Ascending-keep q held a)
]

pub all-from_place :
    (c : ℕ) (held : List Held) → all (λ (h : Held). leb c h.sequence) (from_place c held) ≡ true
all-from_place c [] = refl
all-from_place c (h ∷ held) = ground (arith, all-from_place c held)

pub Ascending-snoc :
    (held : List Held) (h : Held)
    → all (λ (k : Held). ltb k.sequence h.sequence) held ≡ true
    → h.sequence + 1 < u64_mod
    → Ascending held
    → Ascending (held ++ h ∷ [])
Ascending-snoc [] h p small a = (refl, small, tt)
Ascending-snoc (k ∷ held) h p small (past, fits, a) =
    (all-snoc held (ground arith) past, fits, Ascending-snoc held h (ground arith) small a)
  where
    all-snoc :
        (hs : List Held)
        → ltb k.sequence h.sequence ≡ true
        → all (λ (j : Held). ltb k.sequence j.sequence) hs ≡ true
        → all (λ (j : Held). ltb k.sequence j.sequence) (hs ++ h ∷ []) ≡ true
    all-snoc [] e f = ground arith
    all-snoc (j ∷ hs) e f = ground (arith, all-snoc hs e)

after_it :
    (h : Held) (held : List Held)
    → all (λ (k : Held). ltb h.sequence k.sequence) held ≡ true
    → h.sequence + 1 < u64_mod
    → all (λ (k : Held). leb (add64 h.sequence 1) k.sequence) held ≡ true
after_it h [] p small = refl
after_it h (k ∷ held) p small = ground (arith, after_it h held)

pub take_each-standing : (held : List Held) (e : Entry) → (take_each held e).standing ≡ e.standing
unfolding take_each
take_each-standing [] e = refl
take_each-standing (h ∷ held) e = take_each-standing held _

pub take_each-pending : (held : List Held) (e : Entry) → (take_each held e).pending ≡ e.pending
unfolding take_each
take_each-pending [] e = refl
take_each-pending (h ∷ held) e = take_each-pending held _

-- What is taken stays so, whatever is read.
pub take_each-taken :
    (p : ℕ) (held : List Held) (e : Entry)
    → contains e.taken p ≡ true
    → contains (take_each held e).taken p ≡ true
unfolding take_each
take_each-taken p [] e t = t
take_each-taken p (h ∷ held) e t =
    take_each-taken p held _ (ground (arith, contains-push_new-eq e.taken h.sequence p))

-- A place is let go of once if a read takes it, and no more.
pub count-let_go :
    (p : ℕ) (held : List Held) (e : Entry)
    → count p (places (let_go held e.taken)) + (if contains e.taken p then 1 else 0)
      ≡ (if contains (take_each held e).taken p then 1 else 0)
unfolding let_go take_each
count-let_go p [] e = ground arith
count-let_go p (h ∷ held) e = ground (
  arith,
  count-let_go p held
      (record e { cursor = add64 h.sequence 1; taken = push_new e.taken h.sequence }),
  contains-push_new-eq e.taken h.sequence p,
  nat_beq_iff h.sequence p,
)

-- Where the node reads on is never before where it read from.
pub cursor-le :
    (n : ℕ) (held : List Held) (e : Entry)
    → Ascending held
    → all (λ (h : Held). leb e.cursor h.sequence) held ≡ true
    → e.cursor ≤ (take_each (first n held) e).cursor
unfolding take_each
cursor-le zero held e a past = omega arith
cursor-le (suc n) [] e a past = omega arith
cursor-le (suc n) (h ∷ held) e (after, small, a) past =
    let e' = record e { cursor = add64 h.sequence 1; taken = push_new e.taken h.sequence } in
    ground (arith, cursor-le n held e' a (after_it h held after small))

at_or_past :
    (c p : ℕ) (held : List Held)
    → all (λ (h : Held). leb c h.sequence) held ≡ true
    → contains (places held) p ≡ true
    → leb c p ≡ true
at_or_past c p [] past h = ground arith
at_or_past c p (k ∷ held) past h = ground (arith, at_or_past c p held, nat_beq_iff k.sequence p)

-- Each place held from where the node reads is taken by the read, or is where it reads on or past it.
pub read_or_ahead :
    (p n : ℕ) (held : List Held) (e : Entry)
    → Ascending held
    → all (λ (h : Held). leb e.cursor h.sequence) held ≡ true
    → contains (places held) p ≡ true
    → (leb (take_each (first n held) e).cursor p || contains (take_each (first n held) e).taken p)
      ≡ true
unfolding take_each
read_or_ahead p n [] e a past h = ground arith
read_or_ahead p zero (k ∷ held) e a past h = ground (arith, at_or_past e.cursor p (k ∷ held) past h)
read_or_ahead p (suc n) (k ∷ held) e (after, small, a) past h =
    let e' = record e { cursor = add64 k.sequence 1; taken = push_new e.taken k.sequence } in
    elim (Bool-cases (k.sequence == p)) [
      | inl here ↦
          ground
            (arith, take_each-taken p (first n held) e', contains-push_new-eq e.taken k.sequence p)
      | inr there ↦ ground (arith, there, read_or_ahead p n held e' a (after_it k held after small))
    ]

-- A read that comes to the end has the node read on past every place held.
pub read_to_end :
    (p n : ℕ) (held : List Held) (e : Entry)
    → Ascending held
    → length (first n held) < n
    → contains (places held) p ≡ true
    → p < (take_each (first n held) e).cursor
unfolding take_each
read_to_end p zero held e a short h = absurd (omega arith)
read_to_end p (suc n) [] e a short h = ground arith
read_to_end p (suc n) (k ∷ held) e (after, small, a) short h =
    let e' = record e { cursor = add64 k.sequence 1; taken = push_new e.taken k.sequence } in
    ground (
      arith,
      cursor-le n held e' a (after_it k held after small),
      read_to_end p n held e' a,
      nat_beq_iff k.sequence p,
    )

-- Nor is it past what is numbered.
pub cursor-le-numbered :
    (n m : ℕ) (held : List Held) (e : Entry)
    → all (λ (h : Held). ltb h.sequence m) held ≡ true
    → e.cursor ≤ m
    → (take_each (first n held) e).cursor ≤ m
unfolding take_each
cursor-le-numbered zero m held e h c = omega arith
cursor-le-numbered (suc n) m [] e h c = omega arith
cursor-le-numbered (suc n) m (k ∷ held) e h c =
    let e' = record e { cursor = add64 k.sequence 1; taken = push_new e.taken k.sequence } in
    ground (arith, cursor-le-numbered n m held e')

pub all-below :
    (m n : ℕ) (held : List Held)
    → all (λ (h : Held). ltb h.sequence m) held ≡ true
    → m ≤ n
    → all (λ (h : Held). ltb h.sequence n) held ≡ true
all-below m n [] h c = refl
all-below m n (k ∷ held) h c = ground (arith, all-below m n held)

pub all-below-snoc :
    (n : ℕ) (held : List Held) (h : Held)
    → all (λ (k : Held). ltb k.sequence n) held ≡ true
    → h.sequence < n
    → all (λ (k : Held). ltb k.sequence n) (held ++ h ∷ []) ≡ true
all-below-snoc n [] h a b = ground arith
all-below-snoc n (k ∷ held) h a b = ground (arith, all-below-snoc n held h)

pub contains-places-snoc :
    (p : ℕ) (held : List Held) (h : Held)
    → contains (places (held ++ h ∷ [])) p ≡ (contains (places held) p || h.sequence == p)
contains-places-snoc p [] h = ground arith
contains-places-snoc p (k ∷ held) h = ground (arith, contains-places-snoc p held h)
