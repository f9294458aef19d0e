-- ===== src/SendStep/PassLaws.antt =====
-- What a pass of src/departure.rs leaves behind in the hand-on of src/send_step/pass.rs.
use xmip_core_runtime.Base.{
  ℕ, ◌-◌, ◌≤◌, min, ◌≡◌, ◌⊎◌, refl, sym, ap, ◌∙◌, subst, inl, inr, true, false, List, [], ◌∷◌,
  Option, none, some, Text, arith, any, length, if◌then◌else◌, u32_mod, u64_mod, Bool-cases,
}
use xmip_core_runtime.Journey.{JourneyState, Sequenced}
use xmip_core_runtime.Sending.Defs as Sending
use xmip_core_runtime.Sending.Defs.{Subscriber, send_port, Port, Sends}
use xmip_core_runtime.Departure.Defs.{
  Departed, is_sent, Progress, of, waiting, World, depart_port, said,
}
use xmip_core_runtime.Departure.Pass.{Fits, Passed, depart_port-Passed}
use xmip_core_runtime.Departure.Passes.{resumed, resumed-Fits}
use xmip_core_runtime.SendStep.State.{Departure}
use xmip_core_runtime.SendStep.Dispatch.{Ended}
use xmip_core_runtime.SendStep.Pass.{
  HandOn, Written, nanos, leaves_point, hand_on, standing, backoff, outcome, concluded,
}

-- The queues of all the sequences it holds a place in, and of those that let a failure pass.
abbrev pub queues_of : List Sequenced → List ℕ
queues_of [] = []
queues_of (s ∷ l) = s.queue ∷ queues_of l

abbrev pub queues_skipping : List Sequenced → List ℕ
queues_skipping [] = []
queues_skipping (s ∷ l) = if s.skips then s.queue ∷ queues_skipping l else queues_skipping l

leaves_all : (l : List Sequenced) → leaves_point JourneyState.completed l ≡ queues_of l
unfolding leaves_point
leaves_all [] = refl
leaves_all (s ∷ l) = ap (λ q. s.queue ∷ q) (leaves_all l)

leaves_skipping : (l : List Sequenced) → leaves_point JourneyState.failed l ≡ queues_skipping l
unfolding leaves_point
leaves_skipping [] = refl
leaves_skipping (s ∷ l) = elim (Bool-cases s.skips) [
  | inl e ↦ ground (arith, e, leaves_skipping l)
  | inr e ↦ ground (arith, e, leaves_skipping l)
]

leaves_none : (l : List Sequenced) → leaves_point JourneyState.recovering l ≡ []
unfolding leaves_point
leaves_none [] = refl
leaves_none (s ∷ l) = leaves_none l

abbrev pub Sent : Departure → HandOn → Type 0
Sent d h =
    (h.result.state ≡ JourneyState.completed)
    × (h.leaves ≡ d.queue ∷ queues_of d.journey.sequences)
    × (h.failed ≡ none)
    × (h.waits ≡ none)

abbrev pub Waiting : Port → (backoff : ℕ) → Departure → HandOn → Type 0
Waiting port backoff d h =
    (h.result.state ≡ JourneyState.recovering)
    × (h.leaves ≡ [])
    × (h.failed ≡ none)
    × (h.waits ≡ some (d.queue, min backoff (u64_mod - 1)))
    × Fits port (of h.result.attempts)

abbrev pub GivenUp : (reason : Text) → Departure → HandOn → Type 0
GivenUp reason d h =
    (h.result.state ≡ JourneyState.failed)
    × (h.leaves ≡ queues_skipping d.journey.sequences)
    × (h.failed ≡ some (d.queue, reason))
    × (h.waits ≡ none)

-- Which of the three a hand-on is.
abbrev pub Told : (Subscriber → Text) → Port → ℕ → Departure → List Departed → HandOn → Type 0
Told shown port backoff d ds h =
    ((any is_sent ds ≡ true) × Sent d h)
    ⊎ ((any is_sent ds ≡ false) × Waiting port backoff d h)
    ⊎ ((any is_sent ds ≡ false) × GivenUp (said shown ds) d h)

-- What is handed on of progress `q` after departures `ds`, as it stands at `s`.
abbrev handed_on :
    (Subscriber → Text)
    → (ℕ → Text)
    → Departure
    → Progress
    → List Departed
    → JourneyState × Option ℕ
    → HandOn
handed_on shown in_words d q ds s =
    hand_on (record d { progress = q }) s.0 (outcome shown in_words ds s.1) s.1

standing-sent :
    (b : ℕ) (q : Progress) → q.sent ≡ true → standing b q ≡ (JourneyState.completed, none)
unfolding standing
standing-sent b q e = ground arith

standing-waiting :
    (b : ℕ) (q : Progress)
    → q.sent ≡ false
    → waiting q ≡ true
    → standing b q ≡ (JourneyState.recovering, some b)
unfolding standing
standing-waiting b q e h = ground arith

standing-given_up :
    (b : ℕ) (q : Progress)
    → q.sent ≡ false
    → waiting q ≡ false
    → standing b q ≡ (JourneyState.failed, none)
unfolding standing
standing-given_up b q e h = ground arith

handed_on-Told :
    (shown : Subscriber → Text) (in_words : ℕ → Text) (port : Port) (backoff : ℕ) (d : Departure)
    → (from q : Progress) (ds : List Departed) → length port.locations ≤ u32_mod
    → Passed port from q ds
    → Told shown port backoff d ds (handed_on shown in_words d q ds (standing backoff q))
unfolding hand_on outcome resumed nanos
handed_on-Told shown in_words port backoff d from q ds small p =
    let at : JourneyState × Option ℕ → Type 0 =
      λ s. Told shown port backoff d ds (handed_on shown in_words d q ds s) in
    elim (Bool-cases q.sent) [
      | inl told ↦ subst at (sym (standing-sent backoff q told)) (
          inl (
            p.delivered ∙ told,
            (refl, ap (λ q. d.queue ∷ q) (leaves_all d.journey.sequences), refl, refl),
          ))
      | inr untold ↦ elim (Bool-cases (waiting q)) [
        | inl more ↦ subst at (sym (standing-waiting backoff q untold more)) (
            inr (
              inl (
                p.delivered ∙ untold,
                (
                  refl,
                  leaves_none d.journey.sequences,
                  refl,
                  refl,
                  (resumed-Fits port q small (p.again more)).0,
                ),
              )))
        | inr done ↦ subst at (sym (standing-given_up backoff q untold done)) (
            inr
              (inr (p.delivered ∙ untold, (refl, leaves_skipping d.journey.sequences, refl, refl))))
      ]
    ]

concluded-Told :
    (shown : Subscriber → Text) (in_words : ℕ → Text) (storage : HandOn → Written)
    (duration : Text → Option ℕ) (sends : Sends) (port : Port) (d : Departure) (from q : Progress)
    (ds : List Departed)
    → length port.locations ≤ u32_mod
    → Passed port from q ds
    → let r =
        concluded shown in_words storage duration sends false (record d { progress = q }) ds in
      ((ds ≡ []) × (r ≡ (none, Ended.untried)))
      ⊎ ((h : HandOn) × (r.0 ≡ some h) × Told shown port (backoff duration sends d.to) d ds h)
unfolding concluded
concluded-Told shown in_words storage duration sends port d from q [] small p =
    let b = backoff duration sends d.to in
    let told = handed_on-Told shown in_words port b d from q [] small p in
    elim (Bool-cases (waiting q)) [
      | inl more ↦ inl (refl, rw more refl)
      | inr done ↦ inr (handed_on shown in_words d q [] (standing b q), rw done refl, told)
    ]
concluded-Told shown in_words storage duration sends port d from q (x ∷ ds) small p =
    let b = backoff duration sends d.to in
    inr (
      handed_on shown in_words d q (x ∷ ds) (standing b q),
      refl,
      handed_on-Told shown in_words port b d from q (x ∷ ds) small p,
    )

-- A pass of a Message bound for a Send Port that may still be tried returns, and where its claim is not
-- lost, either it tried nothing and hands on nothing, or it hands on one of three: it was sent, and the
-- Message leaves its queue and every sequence it holds a place in; or a Location and a try are left in
-- the attempts its Journey keeps, it leaves none, and it waits in its queue for that Port's backoff; or
-- it is entered in its queue's failed Messages, with what was tried, and leaves just the sequences that
-- let a failure pass; for at most 2 ^ 32 Locations.
pub pass_concludes :
    (shown : Subscriber → Text) (in_words : ℕ → Text) (storage : HandOn → Written)
    (duration : Text → Option ℕ) (sends : Sends) (name : Text) (w : World) (d : Departure)
    → d.to ≡ send_port name
    → length (Sending.port sends name).locations ≤ u32_mod
    → Fits (Sending.port sends name) d.progress
    → let port = Sending.port sends name in
      (q : Progress) × (ds : List Departed) × (depart_port shown port w d.progress ≡ some (q, ds))
      × (let r =
            concluded shown in_words storage duration sends false (record d { progress = q }) ds in
          ((ds ≡ []) × (r ≡ (none, Ended.untried)))
          ⊎ ((h : HandOn) × (r.0 ≡ some h)
              × Told shown port (Sending.backoff duration port) d ds h))
unfolding backoff
pass_concludes shown in_words storage duration sends name w d leads small f =
    let port = Sending.port sends name in
    let (q, ds, e, p) = depart_port-Passed shown port w d.progress f in
    let r = concluded-Told shown in_words storage duration sends port d d.progress q ds small p in
    let ended =
      concluded shown in_words storage duration sends false (record d { progress = q }) ds in
    let at : Subscriber → Type 0 = λ to.
      ((ds ≡ []) × (ended ≡ (none, Ended.untried)))
      ⊎ ((h : HandOn) × (ended.0 ≡ some h) × Told shown port (backoff duration sends to) d ds h) in
    (q, ds, e, subst at leads r)
