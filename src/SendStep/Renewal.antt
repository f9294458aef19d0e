-- ===== src/SendStep/Renewal.antt =====
-- src/send_step/renewal.rs: the claims of work in flight, renewed while it runs. Xmip Storage's
-- answer to a round is a parameter: the claims it holds, or why it did not answer. What is audited
-- is returned as a Boolean; its words are not kept.
use xmip_core_runtime.Base.{
  ℕ, ◌+◌, max, Bool, true, false, not, ◌&&◌, ◌||◌, List, [], ◌∷◌, Option, none, some, Text, get,
  insert, remove, if◌then◌else◌, ltb, ◌==◌, nat_eq, text_eq, add64,
}
use xmip_core_runtime.SendStep.State.{
  State, Claim, Standing, Owned, Departure, PortFigures, confirmed_until,
}
use xmip_core_runtime.SendStep.Admission.{freed, name_of}
use xmip_core_runtime.SendStep.Lined.{held_as}

-- `Standing::holds`.
unfoldable pub surely : Standing → (now : ℕ) → Bool
surely st now = not st.lost && ltb now st.until

-- `SendStep::holds`, `is_lost`.
unfoldable pub holds : (now : ℕ) → ℕ → State → Bool
unfolding surely
holds now id s = elim (get id s.owned) [ none ↦ false | some o ↦ surely o.standing now ]

unfoldable pub is_lost : ℕ → State → Bool
is_lost id s = elim (get id s.owned) [ none ↦ false | some o ↦ o.standing.lost ]

pub data Renewed : Type 0 where
  held : Claim → Renewed
  lost : Renewed
  unanswered : Renewed

-- One claim's standing after its answer, and whether something is audited now. `asked` is when the
-- round was asked, `now` when its answer is read.
unfoldable pub stands : (lease asked now : ℕ) → Renewed → Owned → Owned × Bool
unfolding surely confirmed_until
stands lease asked now (held claim) o = (
  record {
    claim = claim;
    port = o.port;
    standing = confirmed_until (max o.standing.until (asked + lease));
  },
  false,
)
stands lease asked now lost o =
    if o.standing.lost
    then (o, false)
    else (record o { standing = record (o.standing) { lost = true } }, true)
stands lease asked now unanswered o =
    let since : Option ℕ = elim o.standing.unconfirmed [ none ↦ some asked | some t ↦ some t ] in
    let st : Standing = record (o.standing) { unconfirmed = since } in
    if surely st now || st.said
    then (record o { standing = st }, false)
    else (record o { standing = record st { said = true } }, true)

-- `renewed`: an answer for a claim this node no longer holds the Message by is dropped.
unfoldable pub renewed : (lease asked now : ℕ) → Claim → Renewed → State → State × Bool
renewed lease asked now claim answer s = elim (get claim.journey s.owned) [
  | none ↦ (s, false)
  | some o ↦
      let r = stands lease asked now answer o in
      if o.claim.token == claim.token
      then (record s { owned = insert claim.journey r.0 s.owned }, r.1)
      else (s, false)
]

-- The claims in flight that no renewal found another's.
unfoldable pub flying : List (ℕ × Owned) → List Claim
flying [] = []
flying ((id, o) ∷ m) = if not o.standing.lost then o.claim ∷ flying m else flying m

-- What one round's answer says of one claim: `none` is Xmip Storage not answering.
unfoldable pub answer_for : Option (List Claim) → Claim → Renewed
answer_for none claim = unanswered
answer_for (some kept) claim = elim (held_as kept claim) [ none ↦ lost | some c ↦ held c ]

unfoldable pub renew_each : (lease asked now : ℕ) → Option (List Claim) → List Claim → State → State
renew_each lease asked now answered [] s = s
renew_each lease asked now answered (c ∷ cs) s =
    renew_each lease asked now answered cs (renewed lease asked now c (answer_for answered c) s).0

-- `renew`: one round, run whole; `renewed` is its critical section for each claim.
unfoldable pub renew : (lease asked now : ℕ) → Option (List Claim) → State → State
unfolding flying renew_each
renew lease asked now answered s = renew_each lease asked now answered (flying s.owned) s

abbrev pub no_figures : PortFigures
no_figures = record { sent = 0; failed = 0; lost = 0; last_failure = none }

abbrev pub figures_of : Text → State → PortFigures
figures_of port s = elim (get port s.figures) [ none ↦ no_figures | some f ↦ f ]

-- `lost`: the Message of `d` let go of, and whether its loss is audited now.
unfoldable pub let_go : Departure → State → State × Bool
unfolding freed
let_go d s =
    let id = d.journey.journey_id in
    let said : Bool = elim (get id s.owned) [
      | none ↦ false
      | some o ↦ o.standing.lost || o.standing.said
    ] in
    let port = name_of d.to in
    let f = figures_of port s in
    (
      freed (record s {
        figures = insert port (record f { lost = add64 f.lost 1 }) s.figures;
        owned = remove id s.owned;
      }),
      not said,
    )
