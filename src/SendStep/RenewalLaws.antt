-- ===== src/SendStep/RenewalLaws.antt =====
-- What a renewal means: src/send_step/renewal.rs.
use xmip_core_runtime.Base.{
  ℕ, ◌+◌, ◌≤◌, max, ◌≡◌, refl, ◌∙◌, Bool, true, false, not, ◌&&◌, List, [], ◌∷◌, arith, ltb,
  if◌then◌else◌,
}
use xmip_core_runtime.SendStep.State.{Standing, Owned}
use xmip_core_runtime.SendStep.Renewal.{surely, Renewed, held, lost, unanswered, stands}

-- A round's answer for one claim: when it was asked, when it was read, and what it was.
pub record Answer : Type 0 where
  pub asked : ℕ
  pub now : ℕ
  pub said : Renewed

-- The claim's record after its answers, in the order they were read.
unfoldable pub after : ℕ → List Answer → Owned → Owned
after lease [] o = o
after lease (a ∷ answers) o = after lease answers (stands lease a.asked a.now a.said o).0

-- How many of them were audited.
unfoldable pub audits : ℕ → List Answer → Owned → ℕ
audits lease [] o = 0
audits lease (a ∷ answers) o =
    let r = stands lease a.asked a.now a.said o in (if r.1 then 1 else 0) + audits lease answers r.0

-- Until when the answers confirm the claim: a lease from when each that held it was asked.
abbrev pub confirmed_by : ℕ → ℕ → List Answer → ℕ
confirmed_by lease until [] = until
confirmed_by lease until (a ∷ answers) = elim a.said [
  | held claim ↦ confirmed_by lease (max until (a.asked + lease)) answers
  | lost ↦ confirmed_by lease until answers
  | unanswered ↦ confirmed_by lease until answers
]

-- Whether the claim was answered another's since it was last held.
abbrev pub lost_by : Bool → List Answer → Bool
lost_by was [] = was
lost_by was (a ∷ answers) = elim a.said [
  | held claim ↦ lost_by false answers
  | lost ↦ lost_by true answers
  | unanswered ↦ lost_by was answers
]

one_answer :
    (lease asked now : ℕ) (r : Renewed) (o : Owned) (t : ℕ) (answers : List Answer)
    → let p = (stands lease asked now r o).0.standing in
      let a : Answer = record { asked = asked; now = now; said = r } in
      (confirmed_by lease p.until answers ≡ confirmed_by lease o.standing.until (a ∷ answers))
      × (lost_by p.lost answers ≡ lost_by o.standing.lost (a ∷ answers))
unfolding stands
one_answer lease asked now (held c) o t answers = (refl, refl)
one_answer lease asked now lost o t answers = ground arith
one_answer lease asked now unanswered o t answers = ground arith

-- At any instant the node is sure of a claim exactly where no renewal answered it another's since it
-- was last held, and the instant lies within a lease of when a round that held it was asked, or
-- before the instant it was first confirmed until. What Xmip Storage did not answer changes nothing.
pub surely-after :
    (lease : ℕ) (answers : List Answer) (o : Owned) (t : ℕ)
    → surely (after lease answers o).standing t ≡ (
        not (lost_by o.standing.lost answers)
        && ltb t (confirmed_by lease o.standing.until answers))
unfolding surely after
surely-after lease [] o t = refl
surely-after lease (a ∷ answers) o t =
    let r = one_answer lease a.asked a.now a.said o t answers in
    surely-after lease answers (stands lease a.asked a.now a.said o).0 t ∙ cc (r.0, r.1)

-- No round among the answers held the claim.
abbrev pub NeverHeld : List Answer → Type 0
NeverHeld [] = Unit {0}
NeverHeld (a ∷ answers) = elim a.said [
  | held claim ↦ ⊥
  | lost ↦ NeverHeld answers
  | unanswered ↦ NeverHeld answers
]

abbrev pub unsaid : Standing → ℕ
unsaid st = (if st.lost then 0 else 1) + (if st.said then 0 else 1)

one_audit :
    (lease asked now : ℕ) (r : Renewed) (o : Owned)
    → NeverHeld (record { asked = asked; now = now; said = r } ∷ [])
    → let p = stands lease asked now r o in
      (if p.1 then 1 else 0) + unsaid p.0.standing ≤ unsaid o.standing
unfolding stands
one_audit lease asked now (held c) o n = absurd n
one_audit lease asked now lost o n = ground arith
one_audit lease asked now unanswered o n = ground arith

never_head : (a : Answer) (answers : List Answer) → NeverHeld (a ∷ answers) → NeverHeld (a ∷ [])
never_head a answers n = ground arith

never_tail : (a : Answer) (answers : List Answer) → NeverHeld (a ∷ answers) → NeverHeld answers
never_tail a answers n = ground arith

-- A loss and a prolonged uncertainty are each audited once at most, however many rounds find the
-- claim lost or leave it unanswered, until one holds it again.
pub audits_bound :
    (lease : ℕ) (answers : List Answer) (o : Owned)
    → NeverHeld answers
    → audits lease answers o ≤ unsaid o.standing
unfolding audits
audits_bound lease [] o n = omega arith
audits_bound lease (a ∷ answers) o n =
    let r = one_audit lease a.asked a.now a.said o (never_head a answers n) in
    let rest =
      audits_bound lease answers (stands lease a.asked a.now a.said o).0 (never_tail a answers n) in
    omega (arith, r, rest)
