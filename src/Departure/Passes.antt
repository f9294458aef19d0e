-- ===== src/Departure/Passes.antt =====
-- A send over its passes: src/departure.rs's progress kept in the Journey's `attempts` between them
-- (src/send_step/pass.rs), on this node or another.
use xmip_core_runtime.Base.{
  ◌+◌, ◌*◌, ◌≤◌, ◌≡◌, refl, List, [], ◌∷◌, ◌++◌, Option, none, some, Text, arith, length,
  length-append, if◌then◌else◌, u32_mod, Bool-cases, inl, inr,
}
use xmip_core_runtime.Sending.Defs.{Subscriber, Port, tries}
use xmip_core_runtime.Departure.Defs.{Departed, Progress, of, attempts, waiting, World, depart_port}
use xmip_core_runtime.Departure.Pass.{Fits, Passed, used, depart_port-Passed}

-- The progress the next pass begins with: read back from the Journey's `attempts`.
unfoldable pub resumed : Progress → Progress
resumed p = of (attempts p)

abbrev pub joined :
    List Departed → Option (Progress × List Departed) → Option (Progress × List Departed)
joined ds none = none
joined ds (some (p, es)) = some (p, ds ++ es)

-- A pass for each world met, until the send waits no more.
unfoldable pub passes :
    (Subscriber → Text) → Port → List World → Progress → Option (Progress × List Departed)
passes shown port [] p = some (p, [])
passes shown port (w ∷ ws) p = elim (depart_port shown port w p) [
  | none ↦ none
  | some (q, ds) ↦
      let rest = passes shown port ws (resumed q) in
      if waiting q then joined ds rest else some (q, ds)
]

pub resumed-Fits :
    (port : Port) (p : Progress)
    → length port.locations ≤ u32_mod
    → Fits port p
    → Fits port (resumed p) × (used port (resumed p) ≡ used port p)
unfolding resumed of attempts waiting
resumed-Fits port p h f = ground arith

abbrev Bounded : Port → Progress → Option (Progress × List Departed) → Type 0
Bounded port p none = ⊥
Bounded port p (some (q, ds)) = length ds + used port p ≤ length port.locations * tries port

start-Bounded : (port : Port) (p : Progress) → Fits port p → Bounded port p (some (p, []))
start-Bounded port p f = grind (arith, f.open_location, f.open_try)

joined-Bounded :
    (port : Port) (p q r : Progress) (ds : List Departed) (o : Option (Progress × List Departed))
    → Passed port p q ds
    → used port r ≡ used port q
    → Bounded port r o
    → Bounded port p (joined ds o)
joined-Bounded port p q r ds none s e h = h
joined-Bounded port p q r ds (some (t, es)) s e h = omega (arith, length-append ds es, s.spends)

passes-Bounded :
    (shown : Subscriber → Text) (port : Port) (ws : List World) (p : Progress)
    → length port.locations ≤ u32_mod
    → Fits port p
    → Bounded port p (passes shown port ws p)
unfolding passes
passes-Bounded shown port [] p h f = start-Bounded port p f
passes-Bounded shown port (w ∷ ws) p h f =
    let (q, ds, e, s) = depart_port-Passed shown port w p f in
    elim (Bool-cases (waiting q)) [
      | inl more ↦
          let kept = resumed-Fits port q h (s.again more) in
          rw (e, passes)
            (rw more (
              joined-Bounded port p q (resumed q) ds (passes shown port ws (resumed q)) s kept.1
                (passes-Bounded shown port ws (resumed q) h kept.0)))
      | inr done ↦ rw (e, passes) (rw done (omega (arith, s.spends, s.within)))
    ]

Bounded-returns :
    (port : Port) (p : Progress) (o : Option (Progress × List Departed))
    → Bounded port p o
    → (q : Progress) × (ds : List Departed) × (o ≡ some (q, ds))
      × (length ds + used port p ≤ length port.locations * tries port)
Bounded-returns port p none h = absurd h
Bounded-returns port p (some (q, ds)) h = (q, ds, refl, h)

-- However many passes a send takes, over restarts and on whichever node, it reports in all at most
-- the Port's tries at each of its Locations, less what it had spent: for a Port of at most 2 ^ 32
-- Locations and progress that fits it.
pub passes_bound :
    (shown : Subscriber → Text) (port : Port) (ws : List World) (p : Progress)
    → length port.locations ≤ u32_mod
    → Fits port p
    → (q : Progress) × (ds : List Departed) × (passes shown port ws p ≡ some (q, ds))
      × (length ds + used port p ≤ length port.locations * tries port)
passes_bound shown port ws p h f =
    Bounded-returns port p (passes shown port ws p) (passes-Bounded shown port ws p h f)
