-- ===== src/Departure/Pass.antt =====
-- What one pass of src/departure.rs keeps: `depart_port`'s loop ends, tries each Location once, and
-- tries nothing without the claim.
use native.Mathlib.Nat.{add-zero, zero-add}
use xmip_core_runtime.Base.{
  ℕ, zero, suc, ◌+◌, ◌*◌, ◌≤◌, ◌<◌, ◌≡◌, ◌⊎◌, inl, inr, refl, Bool, true, false, List, [], Option,
  none, some, Text, arith, length, get_elem?, get_elem?-lt, any, u32_mod, Option-cases,
}
use xmip_core_runtime.Sending.Defs.{Subscriber, send_port, Sending, Port, tries}
use xmip_core_runtime.Departure.Defs.{
  Departed, is_sent, Progress, waiting, Edge, depart_one, Turn, returns, goes_on, after_try, turn,
  World, push, depart_loop, depart_port,
}

-- Where a send may still be tried: at a Location the Port has, with a try of it left.
pub record Fits (port : Port) (p : Progress) : Type 0 where
  pub open_location : p.location < length port.locations
  pub open_try : p.tries < tries port
  pub small : tries port < u32_mod
  pub is_waiting : waiting p ≡ true

-- The tries spent so far, each Location left behind counted in full.
abbrev pub used : Port → Progress → ℕ
used port p = p.location * tries port + p.tries

-- What a pass gives of the progress it began with.
pub record Passed (port : Port) (from to : Progress) (ds : List Departed) : Type 0 where
  pub spends : length ds + used port from ≤ used port to
  pub within : used port to ≤ length port.locations * tries port
  pub again : waiting to ≡ true → Fits port to
  pub delivered : any is_sent ds ≡ to.sent

abbrev TurnFits : Port → Progress → Turn → Type 0
TurnFits port from (returns p ds) = Passed port from p ds
TurnFits port from (goes_on p d) =
    Fits port p
    × (suc (used port from) ≤ used port p)
    × (is_sent d ≡ false)
    × (p.location ≡ from.location + 1)

row : (l n t k : ℕ) → l < n → t ≤ k → l * k + t ≤ n * k
row l n t k h g = grind arith

later : (i k : ℕ) → i + 1 + k ≡ i + suc k
later i k = omega arith

Turn-cases :
    (t : Turn)
    → ((p : Progress) × (ds : List Departed) × (t ≡ returns p ds))
      ⊎ ((p : Progress) × (d : Departed) × (t ≡ goes_on p d))
Turn-cases (returns p ds) = inl (p, ds, refl)
Turn-cases (goes_on p d) = inr (p, d, refl)

module _ (shown : Subscriber → Text) (port : Port) where
  after_try-TurnFits :
      (p : Progress) (d : Departed) → Fits port p → TurnFits port p (after_try shown port p d)
  unfolding after_try waiting
  after_try-TurnFits p d f = ground (
    arith,
    row p.location (length port.locations) (p.tries + 1) (tries port),
    row p.location (p.location + 1) (p.tries + 1) (tries port),
  )

  stays : (p : Progress) → Fits port p → Passed port p p []
  unfolding waiting
  stays p f = ground (arith, row p.location (length port.locations) p.tries (tries port))

  turn-TurnFits :
      (owned : Bool) (world : Sending → Edge) (p : Progress)
      → Fits port p
      → TurnFits port p (turn shown port owned world p)
  unfolding turn
  turn-TurnFits false world p f = stays p f
  turn-TurnFits true world p f = elim (Option-cases (get_elem? port.locations p.location)) [
    | inl e ↦ absurd (omega (arith, get_elem?-lt port.locations p.location e))
    | inr (sending, e) ↦ elim (Option-cases (depart_one (world sending) (send_port port.name))) [
      | inl gone ↦ rw (e, turn) (rw (gone, turn) (stays p f))
      | inr (one, tried) ↦ rw (e, turn) (rw (tried, turn) (after_try-TurnFits p one f))
    ]
  ]

  abbrev Ended : Progress → Option (Progress × List Departed) → Type 0
  Ended p none = ⊥
  Ended p (some (q, ds)) = Passed port p q ds

  push-Ended :
      (p q : Progress) (d : Departed) (o : Option (Progress × List Departed))
      → TurnFits port p (goes_on q d)
      → Ended q o
      → Ended p (push d o)
  push-Ended p q d none f h = h
  push-Ended p q d (some (r, ds)) f h = ground arith

  depart_loop-Ended :
      (w : World) (fuel i : ℕ) (p : Progress)
      → Fits port p
      → length port.locations < fuel + p.location
      → Ended p (depart_loop shown port w fuel i p)
  unfolding depart_loop
  depart_loop-Ended w zero i p f h = absurd (omega (arith, f.open_location))
  depart_loop-Ended w (suc fuel) i p f h =
      let fits = turn-TurnFits (w.owned i) (w.edge i) p f in
      elim (Turn-cases (turn shown port (w.owned i) (w.edge i) p)) [
        | inl (q, ds, e) ↦ rw (e, depart_loop) (rw e at fits)
        | inr (q, d, e) ↦
            let next : TurnFits port p (goes_on q d) = rw e at fits in
            rw (e, depart_loop)
              (push-Ended p q d (depart_loop shown port w fuel (i + 1) q) next
                (depart_loop-Ended w fuel (i + 1) q next.0 (omega (arith, next.3))))
      ]

  returned :
      (p : Progress) (o : Option (Progress × List Departed))
      → Ended p o
      → (q : Progress) × (ds : List Departed) × (o ≡ some (q, ds)) × Passed port p q ds
  returned p none h = absurd h
  returned p (some (q, ds)) h = (q, ds, refl, h)

  -- A pass over a Send Port that may still be tried always returns. It spends at least one try for
  -- each departure it reports, and never more than the Port's tries at each of its Locations; it
  -- was sent exactly where a departure it reports was; and where it goes on waiting there is a
  -- Location and a try of it left.
  pub depart_port-Passed :
      (w : World) (p : Progress)
      → Fits port p
      → (q : Progress) × (ds : List Departed) × (depart_port shown port w p ≡ some (q, ds))
        × Passed port p q ds
  unfolding depart_port
  depart_port-Passed w p f =
      returned p (depart_loop shown port w (suc (length port.locations)) 0 p)
        (depart_loop-Ended w (suc (length port.locations)) 0 p f (omega arith))

  turn_unowned :
      (world : Sending → Edge) (p : Progress) → turn shown port false world p ≡ returns p []
  unfolding turn
  turn_unowned world p = refl

  abbrev AtMost : ℕ → Option (Progress × List Departed) → Type 0
  AtMost k none = Unit {0}
  AtMost k (some (q, ds)) = length ds ≤ k

  turn-AtMost :
      (owned : Bool) (world : Sending → Edge) (p q : Progress) (ds : List Departed)
      → turn shown port owned world p ≡ returns q ds
      → length ds ≤ 1
  unfolding turn after_try
  turn-AtMost owned world p q ds e = ground arith

  push-AtMost :
      (k : ℕ) (d : Departed) (o : Option (Progress × List Departed))
      → AtMost k o
      → AtMost (suc k) (push d o)
  push-AtMost k d none h = tt
  push-AtMost k d (some (q, ds)) h = omega arith

  depart_loop-AtMost :
      (w : World) (fuel i k : ℕ) (p : Progress)
      → w.owned (i + k) ≡ false
      → AtMost k (depart_loop shown port w fuel i p)
  unfolding depart_loop
  depart_loop-AtMost w zero i k p h = tt
  depart_loop-AtMost w (suc fuel) i zero p h =
      let gone : w.owned i ≡ false = rw add-zero at h in
      rw (gone, turn_unowned (w.edge i) p, depart_loop) (omega arith)
  depart_loop-AtMost w (suc fuel) i (suc k) p h =
      elim (Turn-cases (turn shown port (w.owned i) (w.edge i) p)) [
        | inl (q, ds, e) ↦
            rw (e, depart_loop) (omega (arith, turn-AtMost (w.owned i) (w.edge i) p q ds e))
        | inr (q, d, e) ↦
            rw (e, depart_loop)
              (push-AtMost k d (depart_loop shown port w fuel (i + 1) q)
                (depart_loop-AtMost w fuel (i + 1) k q (rw (later i k) h)))
      ]

  -- No attempt without the claim: where the claim is no longer this node's as turn `k` of a pass
  -- begins, at most `k` departures are reported, so none from that turn on; with `k` zero, none.
  pub depart_port_unowned :
      (w : World) (p q : Progress) (ds : List Departed) (k : ℕ)
      → w.owned k ≡ false
      → depart_port shown port w p ≡ some (q, ds)
      → length ds ≤ k
  unfolding depart_port
  depart_port_unowned w p q ds k h e =
      let bound = depart_loop-AtMost w (suc (length port.locations)) 0 k p (rw zero-add h) in
      rw e at bound
