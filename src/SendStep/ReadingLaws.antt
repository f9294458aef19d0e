-- ===== src/SendStep/ReadingLaws.antt =====
-- A scan reads every entry that is due, once, in order: src/send_step/reading.rs.
use xmip_core_runtime.Base.{
  ℕ, zero, suc, ◌+◌, ◌≤◌, ◌<◌, ◌≡◌, refl, sym, ap, ◌∙◌, inl, inr, List, [], ◌∷◌, ◌++◌, Option, none,
  some, arith, length, ◌==◌, nat_eq, nat_beq_iff, Bool-cases,
}
use xmip_core_runtime.SendStep.State.{Due}
use xmip_core_runtime.SendStep.Reading.{
  page_most, Held, DueQueue, From, Read, Reading, begun, due_retries, entries, last, next_from,
  part_waits, paged, filled, popped, next,
}

-- The first `n`, and those after them.
abbrev pub first : ℕ → List Held → List Held
first zero hs = []
first (suc n) [] = []
first (suc n) (h ∷ hs) = h ∷ first n hs

abbrev pub past : ℕ → List Held → List Held
past zero hs = hs
past (suc n) [] = []
past (suc n) (h ∷ hs) = past n hs

first_past : (n : ℕ) (hs : List Held) → first n hs ++ past n hs ≡ hs
first_past zero hs = refl
first_past (suc n) [] = refl
first_past (suc n) (h ∷ hs) = ap (λ x. h ∷ x) (first_past n hs)

past_short : (n : ℕ) (hs : List Held) → length (first n hs) < n → past n hs ≡ []
past_short zero hs h = absurd (omega arith)
past_short (suc n) [] h = refl
past_short (suc n) (x ∷ hs) h = past_short n hs (omega arith)

length-first-le : (n : ℕ) (hs : List Held) → length (first n hs) ≤ n
length-first-le zero hs = omega arith
length-first-le (suc n) [] = omega arith
length-first-le (suc n) (h ∷ hs) = omega (arith, length-first-le n hs)

-- Xmip Storage serves what is due of one queue, unchanged while it is read: `rest from` is what is due
-- from `from` on, its first 64 a page, and the page after its last entry goes on past them.
pub record Serves (read_due : From → Option (ℕ × DueQueue)) (after : Held → From)
    (rest : From → List Held) : Type 0 where
  pub page :
      (from : From)
      → (asked : ℕ) × (p : DueQueue) × (read_due from ≡ some (asked, p))
        × (p.held ≡ first page_most (rest from))
  pub onward :
      (from : From) (h : Held)
      → length (first page_most (rest from)) ≡ page_most
      → last (first page_most (rest from)) ≡ some h
      → rest (after h) ≡ past page_most (rest from)

abbrev pub helds : List Read → List Held
helds [] = []
helds (r ∷ rs) = r.held ∷ helds rs

abbrev pub rest_at : (From → List Held) → Option From → List Held
rest_at rest none = []
rest_at rest (some from) = rest from

-- What is left to read.
abbrev left_of : (From → List Held) → Reading → List Held
left_of rest r = helds r.read ++ rest_at rest r.from

abbrev then_reads :
    (Reading → Due → Option (List Read))
    → Option (Option Read × (Reading × Due))
    → Option (List Read)
then_reads more none = none
then_reads more (some (none, (r, due))) = some []
then_reads more (some (some one, (r, due))) = elim (more r due) [
  | none ↦ none
  | some es ↦ some (one ∷ es)
]

-- Every entry read until none is left, on fuel; `none` where Xmip Storage did not answer.
unfoldable pub read_all :
    (From → Option (ℕ × DueQueue)) → (Held → From) → (fuel : ℕ) → Reading → Due → Option (List Read)
read_all read_due after zero r waits = some []
read_all read_due after (suc fuel) r waits =
    then_reads (read_all read_due after fuel) (next read_due after r waits)

pub helds-entries : (p : DueQueue) (asked : ℕ) (hs : List Held) → helds (entries p asked hs) ≡ hs
unfolding entries
helds-entries p asked [] = refl
helds-entries p asked (h ∷ hs) = ap (λ x. h ∷ x) (helds-entries p asked hs)

last-some : (h : Held) (hs : List Held) → (k : Held) × (last (h ∷ hs) ≡ some k)
last-some h [] = (h, refl)
last-some h (k ∷ hs) = last-some k hs

last_full : (hs : List Held) → length hs ≡ page_most → (k : Held) × (last hs ≡ some k)
last_full [] n = absurd (omega (arith, n))
last_full (h ∷ hs) n = last-some h hs

module _ (read_due : From → Option (ℕ × DueQueue)) (after : Held → From) (rest : From → List Held)
    (serves : Serves read_due after rest) where
  next_from-rest :
      (from : From)
      → first page_most (rest from) ++ rest_at rest (next_from after (first page_most (rest from)))
        ≡ rest from
  unfolding next_from
  next_from-rest from =
      let hs = first page_most (rest from) in
      elim (Bool-cases (length hs == page_most)) [
        | inl full ↦
            let n : length hs ≡ page_most = (nat_beq_iff (length hs) page_most).0 full in
            let (k, e) = last_full hs n in
            rw (next_from, full, e)
              (ap (λ x. hs ++ x) (serves.onward from k n e) ∙ first_past page_most (rest from))
        | inr short ↦
            rw (next_from, short)
              (ap (λ x. hs ++ x)
                  (sym (
                    past_short page_most (rest from) (
                      ground (
                        arith,
                        short,
                        length-first-le page_most (rest from),
                        nat_beq_iff (length hs) page_most,
                      ))))
                ∙ first_past page_most (rest from))
      ]

  pub whole_page :
      (from : From) (hs : List Held)
      → hs ≡ first page_most (rest from)
      → hs ++ rest_at rest (next_from after hs) ≡ rest from
  whole_page from hs e = ap (λ hs. hs ++ rest_at rest (next_from after hs)) e ∙ next_from-rest from

  abbrev Reads : List Held → Option (List Read) → Type 0
  Reads hs o = (es : List Read) × (o ≡ some es) × (helds es ≡ hs)

  same_Reads : (xs ys : List Held) (o : Option (List Read)) → xs ≡ ys → Reads xs o → Reads ys o
  same_Reads xs ys o e (es, f, h) = (es, f, h ∙ e)

  -- Nothing is read only where nothing is left.
  abbrev pub Done : List Read → Option From → Type 0
  Done [] f = rest_at rest f ≡ []
  Done (x ∷ xs) f = Unit {0}

  popped-Reads :
      (fuel : ℕ) (rs : List Read) (f : Option From) (a d : ℕ) (waits : Due)
      → Done rs f
      → length (helds rs ++ rest_at rest f) < suc fuel
      → ((xs : List Read)
          → length (helds xs ++ rest_at rest f) < fuel
          → Reads (helds xs ++ rest_at rest f) (
              read_all read_due after fuel
                (record { read = xs; from = f; retrying = a; due_retries = d })
                waits))
      → Reads (helds rs ++ rest_at rest f) (
          then_reads
            (read_all read_due after fuel)
            (popped (some (record { read = rs; from = f; retrying = a; due_retries = d }, waits))))
  popped-Reads fuel [] f a d waits done n ih = ([], refl, sym done)
  popped-Reads fuel (x ∷ xs) f a d waits done n ih =
      let (es, e, h) = ih xs (omega (arith, n)) in
      (x ∷ es, rw (then_reads, e) refl, ap (λ hs. x.held ∷ hs) h)

  pub paged-Done :
      (p : DueQueue) (asked : ℕ) (hs : List Held) → Done (entries p asked hs) (next_from after hs)
  unfolding entries next_from
  paged-Done p asked [] = refl
  paged-Done p asked (h ∷ hs) = tt

  all-Reads :
      (fuel : ℕ) (rs : List Read) (f : Option From) (a d : ℕ) (waits : Due)
      → length (helds rs ++ rest_at rest f) < fuel
      → Reads (helds rs ++ rest_at rest f) (
          read_all read_due after fuel
            (record { read = rs; from = f; retrying = a; due_retries = d })
            waits)
  unfolding read_all next filled paged
  all-Reads zero rs f a d waits n = absurd (omega (arith, n))
  all-Reads (suc fuel) (x ∷ xs) f a d waits n =
      popped-Reads fuel (x ∷ xs) f a d waits tt n (λ ys m. all-Reads fuel ys f a d waits m)
  all-Reads (suc fuel) [] none a d waits n = ([], refl, refl)
  all-Reads (suc fuel) [] (some from) a d waits n =
      let (asked, p, e, h) = serves.page from in
      let whole : helds (entries p asked p.held) ++ rest_at rest (next_from after p.held)
          ≡ rest from =
        ap (λ hs. hs ++ rest_at rest (next_from after p.held)) (helds-entries p asked p.held)
        ∙ whole_page from p.held h in
      rw (read_all, e)
        (same_Reads _ _ _ whole (
          popped-Reads fuel (entries p asked p.held) (next_from after p.held) p.retrying
            (d + due_retries p) (part_waits asked p waits) (paged-Done p asked p.held)
            (omega (arith, ap length whole, n))
            (λ ys m.
              all-Reads fuel ys (next_from after p.held) p.retrying (d + due_retries p)
                (part_waits asked p waits) m)))

-- A scan that reads until nothing is left reads every entry of its queue that is due, once and in the
-- order it fell due, however many pages that takes, for Xmip Storage that serves what is due.
pub reads_due :
    (read_due : From → Option (ℕ × DueQueue)) (after : Held → From) (rest : From → List Held)
    → (fuel : ℕ) (waits : Due) → Serves read_due after rest
    → length (rest (0, 0)) < fuel
    → (es : List Read) × (read_all read_due after fuel begun waits ≡ some es)
      × (helds es ≡ rest (0, 0))
reads_due read_due after rest fuel waits serves n =
    all-Reads read_due after rest serves fuel [] (some (0, 0)) 0 0 waits n
