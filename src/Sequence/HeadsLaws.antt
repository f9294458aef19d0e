-- ===== src/Sequence/HeadsLaws.antt =====
-- One at a time: what `heads` of src/sequence.rs promises over every history of a process and of the
-- queues in the Ledger.
use xmip_core_runtime.Base.{
  ℕ, ◌≡◌, ◌⊎◌, ap, subst, inl, inr, true, false, List, [], ◌∷◌, ◌++◌, none, some, ◌==◌, nat_eq,
  nat_beq_iff, arith, length, head?, contains, any-append, keep, not, get, insert, get-insert,
  if◌then◌else◌, Bool-cases,
}
use xmip_core_runtime.Sequence.Heads.{Place, place_eq, place_beq_iff, Page, remember, heads}

-- The places of each queue, oldest first; every place ever taken; and what a process remembers.
pub record System : Type 0 where
  pub queues : List (ℕ × List ℕ)
  pub taken : List Place
  pub known : List Place

unfoldable pub content : ℕ → List (ℕ × List ℕ) → List ℕ
content q m = elim (get q m) [ none ↦ [] | some l ↦ l ]

-- What a page says of a queue: its count always, and its first place where it read it.
abbrev pub Truthful : List ℕ → Page → Type 0
Truthful l p = (p.count ≡ length l) × ((p.first ≡ none) ⊎ (p.first ≡ head? l))

abbrev pub leaves : ℕ → List ℕ → List ℕ
leaves m = keep (λ x. not (x == m))

-- A member takes a place once, at the end, and lets it go whenever it does; the process asks.
pub data Step (s : System) : System → Type 0 where
  takes :
      (q m : ℕ)
      → contains s.taken (q, m) ≡ false
      → Step s (record s {
        queues = insert q (content q s.queues ++ m ∷ []) s.queues;
        taken = (q, m) ∷ s.taken;
      })
  goes :
      (q m : ℕ) → Step s (record s { queues = insert q (leaves m (content q s.queues)) s.queues })
  asks :
      (q m : ℕ) (p : Page)
      → Truthful (content q s.queues) p
      → contains s.taken (q, m) ≡ true
      → Step s (record s { known = (heads s.known (some p) q m).1 })
  restarts : Step s (record s { known = [] })

pub data Reach : System → Type 0 where
  start : Reach (record { queues = []; taken = []; known = [] })
  later : {s t : System} → Reach s → Step s t → Reach t

-- A remembered place was taken, and heads its queue unless it was let go.
pub record IsSound (s : System) : Type 0 where
  pub was_taken : (q m : ℕ) → contains s.known (q, m) ≡ true → contains s.taken (q, m) ≡ true
  pub first_or_gone :
      (q m : ℕ)
      → contains s.known (q, m) ≡ true
      → contains (content q s.queues) m ≡ true
      → head? (content q s.queues) ≡ some m

head-append : (l : List ℕ) (m n : ℕ) → head? l ≡ some m → head? (l ++ n ∷ []) ≡ some m
head-append [] m n h = cc
head-append (x ∷ l) m n h = h

contains-leaves :
    (m n : ℕ) (l : List ℕ)
    → contains (leaves m l) n ≡ true
    → (contains l n ≡ true) × ((n == m) ≡ false)
contains-leaves m n [] h = cc
contains-leaves m n (x ∷ l) h = ground (arith, contains-leaves m n l)

head-leaves :
    (m n : ℕ) (l : List ℕ) → head? l ≡ some n → (n == m) ≡ false → head? (leaves m l) ≡ some n
head-leaves m n [] h k = cc
head-leaves m n (x ∷ l) h k = ground arith

head-contains : (l : List ℕ) (m : ℕ) → head? l ≡ some m → contains l m ≡ true
head-contains [] m h = cc
head-contains (x ∷ l) m h = ground (arith, (nat_beq_iff x m).1)

contains-snoc :
    (l : List ℕ) (m n : ℕ) → contains (l ++ n ∷ []) m ≡ true → (contains l m ≡ true) ⊎ (n ≡ m)
contains-snoc l m n h = ground (arith, any-append (λ x. x == m) l (n ∷ []))

content-insert :
    (q j : ℕ) (l : List ℕ) (m : List (ℕ × List ℕ))
    → content j (insert q l m) ≡ (if q == j then l else content j m)
unfolding content
content-insert q j l m = ground (arith, get-insert q j l m)

content-insert_at :
    (q p : ℕ) (l : List ℕ) (m : List (ℕ × List ℕ)) → q ≡ p → content p (insert q l m) ≡ l
content-insert_at q p l m e = rw (content-insert q p l m, (nat_beq_iff q p).1 e)

content-insert_ne :
    (q p : ℕ) (l : List ℕ) (m : List (ℕ × List ℕ))
    → (q == p) ≡ false
    → content p (insert q l m) ≡ content p m
content-insert_ne q p l m e = rw (content-insert q p l m, e)

contains-remember :
    (p x : Place) (known : List Place)
    → contains (remember p known) x ≡ true
    → (p ≡ x) ⊎ (contains known x ≡ true)
unfolding remember
contains-remember p x known h =
    ground (arith, any-append (λ y. y == x) known (p ∷ []), (place_beq_iff p x).0)

-- A queue changed to a list in which what is remembered heads it, if it is there.
changed_first :
    (s : System) (q : ℕ) (l : List ℕ)
    → ((n : ℕ) → contains s.known (q, n) ≡ true → contains l n ≡ true → head? l ≡ some n)
    → IsSound s
    → (p n : ℕ) → contains s.known (p, n) ≡ true
    → contains (content p (insert q l s.queues)) n ≡ true
    → head? (content p (insert q l s.queues)) ≡ some n
changed_first s q l f i p n k c = elim (Bool-cases (q == p)) [
  | inr other ↦
      let e = content-insert_ne q p l s.queues other in rw e (i.first_or_gone p n k (rw e at c))
  | inl same ↦
      let e : q ≡ p = (nat_beq_iff q p).0 same in
      let d = content-insert_at q p l s.queues e in
      let k' : contains s.known (q, n) ≡ true = rw (← e) at k in rw d (f n k' (rw d at c))
]

takes-IsSound :
    (s : System) (q m : ℕ)
    → contains s.taken (q, m) ≡ false
    → IsSound s
    → IsSound (record s {
      queues = insert q (content q s.queues ++ m ∷ []) s.queues;
      taken = (q, m) ∷ s.taken;
    })
takes-IsSound s q m fresh i = record {
  was_taken = λ p n k. ground (arith, i.was_taken p n k);
  first_or_gone =
      changed_first s q (content q s.queues ++ m ∷ [])
        (λ n k c. elim (contains-snoc (content q s.queues) n m c) [
          | inl old ↦ head-append (content q s.queues) n m (i.first_or_gone q n k old)
          | inr new ↦ ground (arith, i.was_taken q n k)
        ])
        i;
}

goes-IsSound :
    (s : System) (q m : ℕ)
    → IsSound s
    → IsSound (record s { queues = insert q (leaves m (content q s.queues)) s.queues })
goes-IsSound s q m i = record {
  was_taken = i.was_taken;
  first_or_gone =
      changed_first s q (leaves m (content q s.queues))
        (λ n k c.
          let there = contains-leaves m n (content q s.queues) c in
          head-leaves m n (content q s.queues) (i.first_or_gone q n k there.0) there.1)
        i;
}

-- What is remembered after an ask is what was, or a place just seen at the head.
heads-known :
    (known : List Place) (l : List ℕ) (p : Page) (q m : ℕ) (x : Place)
    → Truthful l p
    → contains (heads known (some p) q m).1 x ≡ true
    → (contains known x ≡ true) ⊎ (((q, m) ≡ x) × (head? l ≡ some m))
unfolding heads
heads-known known l p q m x truth h = ground (arith, contains-remember (q, m) x known)

asks-IsSound :
    (s : System) (q m : ℕ) (p : Page)
    → Truthful (content q s.queues) p
    → contains s.taken (q, m) ≡ true
    → IsSound s
    → IsSound (record s { known = (heads s.known (some p) q m).1 })
asks-IsSound s q m p truth taken i = record {
  was_taken = λ r n k. elim (heads-known s.known (content q s.queues) p q m (r, n) truth k) [
    | inl old ↦ i.was_taken r n old
    | inr (e, _) ↦ subst (λ (x : Place). contains s.taken x ≡ true) e taken
  ];
  first_or_gone = λ r n k c. elim (heads-known s.known (content q s.queues) p q m (r, n) truth k) [
    | inl old ↦ i.first_or_gone r n old c
    | inr (e, h) ↦
        let queue : q ≡ r = ap (λ (x : Place). x.0) e in
        let member : m ≡ n = ap (λ (x : Place). x.1) e in rw (← queue, ← member) h
  ];
}

Step-IsSound : {s t : System} → Step s t → IsSound s → IsSound t
Step-IsSound {s} (takes q m fresh) i = takes-IsSound s q m fresh i
Step-IsSound {s} (goes q m) i = goes-IsSound s q m i
Step-IsSound {s} (asks q m p truth taken) i = asks-IsSound s q m p truth taken i
Step-IsSound restarts i = record { was_taken = λ q m k. cc; first_or_gone = λ q m k c. cc }

pub Reach-IsSound : {s : System} → Reach s → IsSound s
Reach-IsSound start = record { was_taken = λ q m k. cc; first_or_gone = λ q m k c. cc }
Reach-IsSound (later r st) = Step-IsSound st (Reach-IsSound r)

headed :
    (known : List Place) (l : List ℕ) (p : Page) (q m : ℕ)
    → Truthful l p
    → (contains known (q, m) ≡ true → head? l ≡ some m)
    → contains l m ≡ true
    → (heads known (some p) q m).0 ≡ some true
    → head? l ≡ some m
unfolding heads
headed known [] p q m truth k c h = cc
headed known (x ∷ l) p q m truth k c h = ground (arith, (nat_beq_iff x m).0)

-- After any history of places taken once and let go, of asks that Xmip Storage answered truly, and of
-- restarts, a member that holds a place in a queue is told that it heads it only where it is first;
-- so of two members that hold places in one queue, never both are told so.
pub heads-first :
    {s : System} (q m n : ℕ) (p r : Page)
    → Reach s
    → Truthful (content q s.queues) p
    → Truthful (content q s.queues) r
    → contains (content q s.queues) m ≡ true
    → contains (content q s.queues) n ≡ true
    → (heads s.known (some p) q m).0 ≡ some true
    → (head? (content q s.queues) ≡ some m) × ((heads s.known (some r) q n).0 ≡ some true → m ≡ n)
heads-first {s} q m n p r reach tp tr cm cn h =
    let i = Reach-IsSound reach in
    let first = headed s.known (content q s.queues) p q m tp (λ k. i.first_or_gone q m k cm) cm h in
    (
      first,
      λ g.
          let other =
            headed s.known (content q s.queues) r q n tr (λ k. i.first_or_gone q n k cn) cn g in
          cc (first, other),
    )
