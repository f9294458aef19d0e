-- ===== src/Receiving/Drain.antt =====
-- src/receiving/drain.rs: what a stopping Receive Location whose far end already let go of what it
-- handed over still receives. Whether the stop was raised and the instant are what each ask reads.
use xmip_core_runtime.Base.{
  ℕ, ◌+◌, ◌≡◌, refl, subst, Bool, true, false, not, ◌||◌, ◌&&◌, List, [], ◌∷◌, Option, none, some,
  arith, any, if◌then◌else◌, ltb, is_some,
}
use xmip_core_runtime.Receiving.Pace.{Ended, found, nothing, mendable}

pub record Drain : Type 0 where
  pub waits : Bool
  pub let_go : Bool
  pub bound : ℕ
  pub until : Option ℕ
  pub quiet : Bool

unfoldable pub new : Bool → ℕ → Drain
new waits bound = record {
  waits = waits;
  let_go = false;
  bound = bound;
  until = none;
  quiet = false;
}

abbrev pub or_now : Option ℕ → ℕ → ℕ
or_now none at = at
or_now (some until) at = until

-- `asks`: whether the Location receives again. `now` is read once here; the source reads the clock
-- a second time for its test, which is no earlier.
unfoldable pub asks : (raised : Bool) → (now later : ℕ) → Drain → Bool × Drain
asks raised now later d =
    if not raised
    then (true, d)
    else if not d.waits || not d.let_go || d.quiet
    then (false, d)
    else let until = or_now d.until (now + d.bound) in
      (ltb later until, record d { until = some until })

unfoldable pub handed : Bool → Drain → Drain
handed let_go d = record d { let_go = d.let_go || let_go }

abbrev is_found : Ended → Bool
is_found found = true
is_found nothing = false
is_found mendable = false

unfoldable pub received : Ended → Drain → Drain
received ended d = if is_some d.until && not (is_found ended) then record d { quiet = true } else d

-- What happens to a Location's drain, in order.
pub data Event : Type 0 where
  asked : (raised : Bool) → (now later : ℕ) → Event
  was_handed : (let_go : Bool) → Event
  was_received : Ended → Event

unfoldable pub step : Event → Drain → Drain
step (asked raised now later) d = (asks raised now later d).1
step (was_handed let_go) d = handed let_go d
step (was_received ended) d = received ended d

unfoldable pub run : List Event → Drain → Drain
run [] d = d
run (e ∷ es) d = run es (step e d)

-- A receive that found nothing, or failed.
abbrev pub is_quiet : Event → Bool
is_quiet (asked raised now later) = false
is_quiet (was_handed let_go) = false
is_quiet (was_received found) = false
is_quiet (was_received nothing) = true
is_quiet (was_received mendable) = true

-- It drains, until an instant that was set once, and `quiet` says whether a receive found nothing.
record Draining (until : ℕ) (quiet : Bool) (d : Drain) : Type 0 where
  set : d.until ≡ some until
  waiting : d.waits ≡ true
  gone : d.let_go ≡ true
  found_none : d.quiet ≡ quiet

step-Draining :
    (u : ℕ) (q : Bool) (e : Event) (d : Drain)
    → Draining u q d
    → Draining u (q || is_quiet e) (step e d)
unfolding step asks handed received
step-Draining u q (asked raised now later) d b =
    ground (arith, b.set, b.waiting, b.gone, b.found_none)
step-Draining u q (was_handed let_go) d b = ground (arith, b.set, b.waiting, b.gone, b.found_none)
step-Draining u q (was_received found) d b = ground (arith, b.set, b.waiting, b.gone, b.found_none)
step-Draining u q (was_received nothing) d b =
    ground (arith, b.set, b.waiting, b.gone, b.found_none)
step-Draining u q (was_received mendable) d b =
    ground (arith, b.set, b.waiting, b.gone, b.found_none)

run-Draining :
    (u : ℕ) (q : Bool) (es : List Event) (d : Drain)
    → Draining u q d
    → Draining u (q || any is_quiet es) (run es d)
unfolding run
run-Draining u q [] d b = subst (λ (x : Bool). Draining u x d) (ground arith) b
run-Draining u q (e ∷ es) d b =
    subst (λ (x : Bool). Draining u x (run es (step e d))) (ground arith)
      (run-Draining u (q || is_quiet e) es (step e d) (step-Draining u q e d b))

Draining-asks :
    (u now later : ℕ) (q : Bool) (d : Drain)
    → Draining u q d
    → (asks true now later d).0 ≡ (not q && ltb later u)
unfolding asks
Draining-asks u now later q d b = ground (arith, b.set, b.waiting, b.gone, b.found_none)

first-asks :
    (now later : ℕ) (d : Drain)
    → (asks true now later d).0 ≡ true
    → d.until ≡ none
    → Draining (now + d.bound) false (asks true now later d).1
unfolding asks
first-asks now later d a e = record {
  set = ground arith;
  waiting = ground arith;
  gone = ground arith;
  found_none = ground arith;
}

-- Once a stopping Location that had not begun to drain goes on receiving, whatever it receives and is
-- handed meanwhile: an ask of the stopping node goes on just where no receive found nothing since and its
-- bound from that first ask has not passed, whenever the stop was raised.
pub drain_ends :
    (now later : ℕ) (d : Drain) (es : List Event) (then_now last : ℕ)
    → d.until ≡ none
    → (asks true now later d).0 ≡ true
    → (asks true then_now last (run es (asks true now later d).1)).0
      ≡ (not (any is_quiet es) && ltb last (now + d.bound))
drain_ends now later d es then_now last e a =
    let first = (asks true now later d).1 in
    Draining-asks (now + d.bound) then_now last (any is_quiet es) (run es first)
      (run-Draining (now + d.bound) false es first (first-asks now later d a e))

-- A stopping Location receives again exactly where its receive waits, its far end let go of
-- something it handed over, no receive since its drain began found nothing, and its bound has not
-- passed; one that is not stopping always does, and nothing of its drain changes.
pub asks_iff :
    (now later : ℕ) (d : Drain)
    → ((asks true now later d).0
        ≡ (d.waits && d.let_go && not d.quiet && ltb later (or_now d.until (now + d.bound))))
      × (asks false now later d ≡ (true, d))
unfolding asks
asks_iff now later d = (ground arith, refl)
