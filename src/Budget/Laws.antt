-- ===== src/Budget/Laws.antt =====
-- What a budget keeps over every interleaving of src/budget.rs's critical sections.
use xmip_core_runtime.Base.{
  ℕ, ◌+◌, ◌-◌, ◌≤◌, ◌<◌, min, max, ◌≡◌, refl, ap, ◌∙◌, ◌↔◌, List, [], ◌∷◌, Option, none, some,
  arith, sum, sum-append, sum-set, sum-remove_at, get_elem?, set,
}
use xmip_core_runtime.Budget.Defs.{new, hold, hold_up_to, release, split}
use xmip_core_runtime.Budget.System.{
  System, Action, holds, holds_up_to, splits, drops, taken, split_at, drop_at, step, run, start,
}

-- Below this no sum of two charges leaves a `u64`.
abbrev pub half : ℕ
half = 9223372036854775807

pub record IsValid (s : System) : Type 0 where
  pub some_room : 1 ≤ s.budget.most
  pub small : s.budget.most ≤ half
  pub bounded : s.budget.held ≤ s.budget.most
  pub counted : s.budget.held ≡ sum s.live

hold-taken-IsValid : (s : System) (c : ℕ) → IsValid s → IsValid (taken s (hold s.budget c))
unfolding taken hold
hold-taken-IsValid s c v = ground (arith, sum-append s.live (min c s.budget.most ∷ []))

hold_up_to-taken-IsValid :
    (s : System) (n : ℕ) → IsValid s → IsValid (taken s (hold_up_to s.budget n))
unfolding taken hold_up_to
hold_up_to-taken-IsValid s n v = ground (
  arith,
  sum-append s.live (min (min (max n 1) s.budget.most) (s.budget.most - s.budget.held) ∷ []),
)

split_at-IsValid :
    (s : System) (place wanted : ℕ) (o : Option ℕ)
    → get_elem? s.live place ≡ o
    → IsValid s
    → IsValid (split_at s place wanted o)
unfolding split_at split
split_at-IsValid s place wanted none e v = v
split_at-IsValid s place wanted (some c) e v = ground (
  arith,
  sum-append (set s.live place (c - min wanted c)) (min wanted c ∷ []),
  sum-set s.live place (c - min wanted c) c e,
)

drop_at-IsValid :
    (s : System) (place : ℕ) (o : Option ℕ)
    → get_elem? s.live place ≡ o
    → IsValid s
    → IsValid (drop_at s place o)
unfolding drop_at release
drop_at-IsValid s place none e v = v
drop_at-IsValid s place (some c) e v = ground (arith, sum-remove_at s.live place c e)

pub step-IsValid : (s : System) (a : Action) → IsValid s → IsValid (step s a)
unfolding step
step-IsValid s (holds c) v = hold-taken-IsValid s c v
step-IsValid s (holds_up_to n) v = hold_up_to-taken-IsValid s n v
step-IsValid s (splits p c) v = split_at-IsValid s p c (get_elem? s.live p) refl v
step-IsValid s (drops p) v = drop_at-IsValid s p (get_elem? s.live p) refl v

pub run-IsValid : (s : System) (actions : List Action) → IsValid s → IsValid (run s actions)
unfolding run
run-IsValid s [] v = v
run-IsValid s (a ∷ rest) v = run-IsValid (step s a) rest (step-IsValid s a v)

start-IsValid : (most : ℕ) → most ≤ half → IsValid (start most)
unfolding start new
start-IsValid most h = ground arith

-- Whatever the threads do, in any order, what a budget holds is the sum of the holds that live and
-- never more than its most, for a budget of below 2 ^ 63.
pub run_bounded :
    (most : ℕ) (actions : List Action)
    → most ≤ half
    → let s = run (start most) actions in
      (s.budget.held ≡ sum s.live) × (s.budget.held ≤ s.budget.most) × (1 ≤ s.budget.most)
run_bounded most actions h =
    let v = run-IsValid (start most) actions (start-IsValid most h) in
    (v.counted, v.bounded, v.some_room)

-- In a valid state `hold` waits exactly when something is held and the charge, cut to the whole
-- budget, does not fit beside it; `hold_up_to` waits exactly when everything is held.
pub hold-waits_iff :
    (s : System) (c n : ℕ)
    → IsValid s
    → ((hold s.budget c ≡ none)
        ↔ ((0 < sum s.live) × (s.budget.most < sum s.live + min c s.budget.most)))
      × ((hold_up_to s.budget n ≡ none) ↔ (sum s.live ≡ s.budget.most))
unfolding hold hold_up_to
hold-waits_iff s c n v =
    ((λ e. ground arith, λ p. ground arith), (λ e. ground arith, λ e. ground arith))

abbrev pub drop_each : List ℕ → List Action
drop_each [] = []
drop_each (c ∷ cs) = drops 0 ∷ drop_each cs

drops-first :
    (s : System) (c : ℕ) (cs : List ℕ)
    → s.live ≡ c ∷ cs
    → ((step s (drops 0)).live ≡ cs) × ((step s (drops 0)).budget.most ≡ s.budget.most)
unfolding step drop_at release
drops-first s c cs e = rw e (refl, ground arith)

drop_each-empties :
    (s : System) (live : List ℕ)
    → s.live ≡ live
    → IsValid s
    → let t = run s (drop_each live) in (t.live ≡ []) × (t.budget.most ≡ s.budget.most) × IsValid t
unfolding run
drop_each-empties s [] e v = (e, refl, v)
drop_each-empties s (c ∷ cs) e v =
    let first = drops-first s c cs e in
    let r = drop_each-empties (step s (drops 0)) cs first.0 (step-IsValid s (drops 0) v) in
    (r.0, r.1 ∙ first.1, r.2)

-- Once every holder of a valid state has let go, any charge is held at once: itself, or the whole
-- budget where it is larger.
pub hold-drops :
    (s : System) (c : ℕ)
    → IsValid s
    → hold (run s (drop_each s.live)).budget c
      ≡ some (record { most = s.budget.most; held = min c s.budget.most }, min c s.budget.most)
unfolding hold
hold-drops s c v =
    let r = drop_each-empties s s.live refl v in ground (arith, r.2.counted, ap sum r.0)
