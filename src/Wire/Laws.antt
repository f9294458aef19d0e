-- ===== src/Wire/Laws.antt =====
-- What crosses the header comes back: src/wire.rs.
use xmip_core_runtime.Base.{
  ℕ, ◌≡◌, refl, subst, inl, inr, true, false, List, [], ◌∷◌, some, get, nat_eq, nat_beq_iff,
  contains, ◌==◌, arith, Bool-cases, ◌↔◌,
}
use xmip_core_runtime.Wire.Defs.{
  Health, fine, paused, working, stressed, exhausted, done, holding, HealthInts, health_arms,
  Counted, streams, messages, journeys, bytes, retrying, failed, CountedInts, counted_arms, Stage,
  receive, process, send, StageInts, stage_arms, Outcome, success, failure, rejection, waiting,
  pause, timeout, exhausted_retries, dismissal, OutcomeInts, outcome_arms, wire_health,
  from_wire_health, wire_counted, from_wire_counted, wire_stage, stage_of, wire_outcome, outcome_of,
  distinct, ints,
}

abbrev Each {ℓ ℓ'} : {A : Type ℓ} → (ℕ → A → Type ℓ') → List (ℕ × A) → Type ℓ'
Each P [] = Unit
Each P ((k, a) ∷ arms) = P k a × Each P arms

other-Each {ℓ} :
    {A : Type ℓ} (j : ℕ) (w : A) (rest arms : List (ℕ × A))
    → contains (ints arms) j ≡ false
    → Each (λ k a. get k rest ≡ some a) arms
    → Each (λ k a. get k ((j, w) ∷ rest) ≡ some a) arms
unfolding get
other-Each j w rest [] c e = tt
other-Each j w rest ((k, a) ∷ arms) c e = (
  ground (arith, c, e.0, nat_beq_iff k j, nat_beq_iff j k),
  other-Each j w rest arms (ground (arith, c)) e.1,
)

-- Of distinct constants each arm is reached.
arms-Each {ℓ} :
    {A : Type ℓ} (arms : List (ℕ × A))
    → distinct (ints arms) ≡ true
    → Each (λ k a. get k arms ≡ some a) arms
unfolding get
arms-Each [] d = tt
arms-Each ((j, w) ∷ arms) d = (
  ground (arith, nat_beq_iff j j),
  other-Each j w arms arms (ground (arith, d)) (arms-Each arms (ground (arith, d))),
)

-- An arm that is taken is the value's.
get-Each {ℓ} :
    {A : Type ℓ} (to : A → ℕ) (n : ℕ) (v : A) (arms : List (ℕ × A))
    → Each (λ k a. to a ≡ k) arms
    → get n arms ≡ some v
    → to v ≡ n
unfolding get
get-Each to n v [] e g = absurd (ground (arith, g))
get-Each to n v ((j, w) ∷ arms) e g = elim (Bool-cases (j == n)) [
  | inl same ↦ ground (arith, g, e.0, nat_beq_iff j n)
  | inr other ↦ get-Each to n v arms e.1 (ground (arith, g))
]

health_back :
    (h : HealthInts) (x : Health)
    → distinct (ints (health_arms h)) ≡ true
    → from_wire_health h (wire_health h x) ≡ some x
unfolding from_wire_health wire_health
health_back h fine d = (arms-Each (health_arms h) d).0
health_back h paused d = (arms-Each (health_arms h) d).1.0
health_back h working d = (arms-Each (health_arms h) d).1.1.0
health_back h stressed d = (arms-Each (health_arms h) d).1.1.1.0
health_back h exhausted d = (arms-Each (health_arms h) d).1.1.1.1.0
health_back h done d = (arms-Each (health_arms h) d).1.1.1.1.1.0
health_back h holding d = (arms-Each (health_arms h) d).1.1.1.1.1.1.0

health_iff :
    (h : HealthInts) (n : ℕ) (x : Health)
    → distinct (ints (health_arms h)) ≡ true
    → (from_wire_health h n ≡ some x) ↔ (wire_health h x ≡ n)
unfolding from_wire_health wire_health
health_iff h n x d = (
  λ e.
      get-Each (wire_health h) n x (health_arms h)
        (refl, (refl, (refl, (refl, (refl, (refl, (refl, tt))))))) e,
  λ e. subst (λ (v : ℕ). from_wire_health h v ≡ some x) e (health_back h x d),
)

counted_back :
    (h : CountedInts) (x : Counted)
    → distinct (ints (counted_arms h)) ≡ true
    → from_wire_counted h (wire_counted h x) ≡ some x
unfolding from_wire_counted wire_counted
counted_back h streams d = (arms-Each (counted_arms h) d).0
counted_back h messages d = (arms-Each (counted_arms h) d).1.0
counted_back h journeys d = (arms-Each (counted_arms h) d).1.1.0
counted_back h bytes d = (arms-Each (counted_arms h) d).1.1.1.0
counted_back h retrying d = (arms-Each (counted_arms h) d).1.1.1.1.0
counted_back h failed d = (arms-Each (counted_arms h) d).1.1.1.1.1.0

counted_iff :
    (h : CountedInts) (n : ℕ) (x : Counted)
    → distinct (ints (counted_arms h)) ≡ true
    → (from_wire_counted h n ≡ some x) ↔ (wire_counted h x ≡ n)
unfolding from_wire_counted wire_counted
counted_iff h n x d = (
  λ e.
      get-Each (wire_counted h) n x (counted_arms h)
        (refl, (refl, (refl, (refl, (refl, (refl, tt)))))) e,
  λ e. subst (λ (v : ℕ). from_wire_counted h v ≡ some x) e (counted_back h x d),
)

stage_back :
    (h : StageInts) (x : Stage)
    → distinct (ints (stage_arms h)) ≡ true
    → stage_of h (wire_stage h x) ≡ some x
unfolding stage_of wire_stage
stage_back h receive d = (arms-Each (stage_arms h) d).0
stage_back h process d = (arms-Each (stage_arms h) d).1.0
stage_back h send d = (arms-Each (stage_arms h) d).1.1.0

stage_iff :
    (h : StageInts) (n : ℕ) (x : Stage)
    → distinct (ints (stage_arms h)) ≡ true
    → (stage_of h n ≡ some x) ↔ (wire_stage h x ≡ n)
unfolding stage_of wire_stage
stage_iff h n x d = (
  λ e. get-Each (wire_stage h) n x (stage_arms h) (refl, (refl, (refl, tt))) e,
  λ e. subst (λ (v : ℕ). stage_of h v ≡ some x) e (stage_back h x d),
)

outcome_back :
    (h : OutcomeInts) (x : Outcome)
    → distinct (ints (outcome_arms h)) ≡ true
    → outcome_of h (wire_outcome h x) ≡ some x
unfolding outcome_of wire_outcome
outcome_back h success d = (arms-Each (outcome_arms h) d).0
outcome_back h failure d = (arms-Each (outcome_arms h) d).1.0
outcome_back h rejection d = (arms-Each (outcome_arms h) d).1.1.0
outcome_back h waiting d = (arms-Each (outcome_arms h) d).1.1.1.0
outcome_back h pause d = (arms-Each (outcome_arms h) d).1.1.1.1.0
outcome_back h timeout d = (arms-Each (outcome_arms h) d).1.1.1.1.1.0
outcome_back h exhausted_retries d = (arms-Each (outcome_arms h) d).1.1.1.1.1.1.0
outcome_back h dismissal d = (arms-Each (outcome_arms h) d).1.1.1.1.1.1.1.0

outcome_iff :
    (h : OutcomeInts) (n : ℕ) (x : Outcome)
    → distinct (ints (outcome_arms h)) ≡ true
    → (outcome_of h n ≡ some x) ↔ (wire_outcome h x ≡ n)
unfolding outcome_of wire_outcome
outcome_iff h n x d = (
  λ e.
      get-Each (wire_outcome h) n x (outcome_arms h)
        (refl, (refl, (refl, (refl, (refl, (refl, (refl, (refl, tt)))))))) e,
  λ e. subst (λ (v : ℕ). outcome_of h v ≡ some x) e (outcome_back h x d),
)

-- Where no constant of the header is there twice, an `int` reads as a health, a counted thing, a stage
-- or an outcome just where that one is written as it: what crosses comes back, and no other is read.
pub wire_round_trip :
    (h : HealthInts) (c : CountedInts) (s : StageInts) (o : OutcomeInts) (n : ℕ)
    → (health : Health) (thing : Counted) (stage : Stage) (outcome : Outcome)
    → distinct (ints (health_arms h)) ≡ true
    → distinct (ints (counted_arms c)) ≡ true
    → distinct (ints (stage_arms s)) ≡ true
    → distinct (ints (outcome_arms o)) ≡ true
    → ((from_wire_health h n ≡ some health) ↔ (wire_health h health ≡ n))
      × ((from_wire_counted c n ≡ some thing) ↔ (wire_counted c thing ≡ n))
      × ((stage_of s n ≡ some stage) ↔ (wire_stage s stage ≡ n))
      × ((outcome_of o n ≡ some outcome) ↔ (wire_outcome o outcome ≡ n))
wire_round_trip h c s o n health thing stage outcome d e f g = (
  health_iff h n health d,
  counted_iff c n thing e,
  stage_iff s n stage f,
  outcome_iff o n outcome g,
)
