-- ===== src/Pool/Laws.antt =====
-- What src/pool.rs keeps over every interleaving of its owner and its threads.
use mathlib.Core.List.{append_assoc, append-nil}
use xmip_core_runtime.Base.{
  ℕ, ◌≤◌, ◌<◌, max, ◌≡◌, refl, sym, ap, ◌∙◌, inl, inr, Bool, true, false, List, [], ◌∷◌, ◌++◌,
  arith, ◌&&◌, ltb, subst, Bool-cases,
}
use xmip_core_runtime.Sending.Defs.{is_empty}
use xmip_core_runtime.Pool.Defs.{
  Pool, new, run, close, take, rest, wake, Reach, start, ran, closed_it, took, rested, woke,
}

pub record IsSound (most : ℕ) (p : Pool) : Type 0 where
  pub limit : p.most ≡ max most 1
  pub bounded : p.threads ≤ p.most
  pub serving : p.closed ≡ false → 1 ≤ p.threads
  pub resting : p.waiting ≤ p.threads
  pub none_stranded : p.threads ≡ 0 → p.queued ≡ []

run-IsSound :
    (most work : ℕ) (p : Pool) → p.closed ≡ false → IsSound most p → IsSound most (run work p)
unfolding run
run-IsSound most work p h i = ground (arith, i.limit, i.bounded, i.serving h, i.resting)

close-IsSound : (most : ℕ) (p : Pool) → IsSound most p → IsSound most (close p)
unfolding close
close-IsSound most p i = ground (arith, i.limit, i.bounded, i.resting, i.none_stranded)

take-IsSound :
    (most : ℕ) (p : Pool) → p.waiting < p.threads → IsSound most p → IsSound most (take p)
unfolding take
take-IsSound most p h i = ground (arith, i.limit, i.bounded, i.serving, i.resting)

rest-IsSound :
    (most : ℕ) (p : Pool)
    → p.waiting < p.threads
    → is_empty p.queued ≡ true
    → IsSound most p
    → IsSound most (rest p)
unfolding rest
rest-IsSound most p h e i = ground (arith, i.limit, i.bounded, i.serving, i.resting)

wake-IsSound :
    (most : ℕ) (timed_out : Bool) (p : Pool)
    → 0 < p.waiting
    → IsSound most p
    → IsSound most (wake timed_out p)
unfolding wake
wake-IsSound most timed_out p h i =
    ground (arith, i.limit, i.bounded, i.serving, i.resting, i.none_stranded)

Reach-IsSound : {most : ℕ} {p : Pool} {works : List ℕ} → Reach most p works → IsSound most p
unfolding new
Reach-IsSound start = ground arith
Reach-IsSound {most} (ran {p} work r h) = run-IsSound most work p h (Reach-IsSound r)
Reach-IsSound {most} (closed_it {p} r) = close-IsSound most p (Reach-IsSound r)
Reach-IsSound {most} (took {p} r h) = take-IsSound most p h (Reach-IsSound r)
Reach-IsSound {most} (rested {p} r h e) = rest-IsSound most p h e (Reach-IsSound r)
Reach-IsSound {most} (woke {p} timed_out r h) = wake-IsSound most timed_out p h (Reach-IsSound r)

take-order_at :
    (p : Pool) (queued : List ℕ)
    → p.queued ≡ queued
    → (take p).taken ++ (take p).queued ≡ p.taken ++ queued
unfolding take
take-order_at p [] e =
    let stays : take p ≡ p = rw e refl in
    ap (λ (x : Pool). x.taken ++ x.queued) stays ∙ ap (λ l. p.taken ++ l) e
take-order_at p (work ∷ works) e = rw e (append_assoc p.taken (work ∷ []) works)

rest-order : (p : Pool) → (rest p).taken ++ (rest p).queued ≡ p.taken ++ p.queued
unfolding rest
rest-order p = elim (Bool-cases p.closed) [ inl e ↦ rw e refl | inr e ↦ rw e refl ]

wake-order :
    (timed_out : Bool) (p : Pool)
    → (wake timed_out p).taken ++ (wake timed_out p).queued ≡ p.taken ++ p.queued
unfolding wake
wake-order timed_out p = elim (Bool-cases (timed_out && is_empty p.queued && ltb 1 p.threads)) [
  | inl e ↦ rw e refl
  | inr e ↦ rw e refl
]

Reach-order :
    {most : ℕ} {p : Pool} {works : List ℕ} → Reach most p works → p.taken ++ p.queued ≡ works
unfolding new run close
Reach-order start = refl
Reach-order (ran {p} work r h) =
    sym (append_assoc p.taken p.queued (work ∷ [])) ∙ ap (λ l. l ++ work ∷ []) (Reach-order r)
Reach-order (closed_it r) = Reach-order r
Reach-order (took {p} r h) = take-order_at p p.queued refl ∙ Reach-order r
Reach-order (rested {p} r h e) = rest-order p ∙ Reach-order r
Reach-order (woke {p} timed_out r h) = wake-order timed_out p ∙ Reach-order r

-- In every pool that a pool made for `most` threads reaches, whatever its owner and its threads do
-- in whatever order: it has at most `most` threads, one where `most` is 0; until it is closed it has
-- one at least; no more wait than it has; the work taken and the work queued are the work it was
-- given, in order; and once no thread is left, all of that work was taken.
pub pool_serves :
    {most : ℕ} {p : Pool} {works : List ℕ}
    → Reach most p works
    → (p.threads ≤ max most 1)
      × (p.closed ≡ false → 1 ≤ p.threads)
      × (p.waiting ≤ p.threads)
      × (p.taken ++ p.queued ≡ works)
      × (p.threads ≡ 0 → p.taken ≡ works)
pool_serves {most} {p} {works} r =
    let i = Reach-IsSound r in
    (
      subst (λ (x : ℕ). p.threads ≤ x) i.limit i.bounded,
      i.serving,
      i.resting,
      Reach-order r,
      λ (e : p.threads ≡ 0).
          sym (append-nil p.taken)
          ∙ ap (λ l. p.taken ++ l) (sym (i.none_stranded e))
          ∙ Reach-order r,
    )
