-- ===== src/SendStep/ScanUnder.antt =====
-- What a scan claims it reads again under its claim: src/send_step/under_claim.rs.
use xmip_core_runtime.Base.{
  ℕ, ◌≡◌, refl, sym, subst, inl, inr, true, Option, none, some, Text, arith, nat_eq, nat_beq_iff,
  Bool-cases, Option-cases,
}
use xmip_core_runtime.Journey.{Journey}
use xmip_core_runtime.Sending.Defs.{Subscriber}
use xmip_core_runtime.SendStep.State.{State, Claim}
use xmip_core_runtime.SendStep.Admission.{name_of}
use xmip_core_runtime.SendStep.MessageAct.{Claiming, claimed, held_elsewhere, unclaimed}
use xmip_core_runtime.Sequence.Heads.{Place, place_eq}
use xmip_core_runtime.SendStep.Reading.{Held}
use xmip_core_runtime.SendStep.Scan.{
  World, HeldPage, Under, is_waiting, is_not_due, is_moved, is_not, is_unanswered, Found, waiting,
  failed, finished, unreadable, found_under, at_place, under_page, under_claim, after_claim,
  claimed_first,
}

-- The Message at `place` claimed, and read under that claim: its place there, and due, and then its
-- Journey, to be sent.
pub record UnderClaim (w : World) (queue : ℕ) (place : Place) (claim : Claim) (journey : Journey)
    : Type 0 where
  pub page : HeldPage
  pub held : Held
  pub was_claimed : w.claim place.0 ≡ claimed claim
  pub was_read : w.read_held claim queue place.1 ≡ some page
  pub first : page.first ≡ some held
  pub there : held.sequence ≡ place.1
  pub mine : held.journey ≡ place.0
  pub due : page.due_in held ≡ none
  pub to_send : w.read claim place.0 ≡ some (waiting journey)

module _ (w : World) (to : Subscriber) (queue : ℕ) where
  -- What is found waiting under a claim.
  abbrev Waits : Claim → Place → Under → Type 0
  Waits claim place (is_waiting j) =
      (page : HeldPage) × (held : Held) × (w.read_held claim queue place.1 ≡ some page)
      × (page.first ≡ some held)
      × (at_place place.0 place.1 held ≡ true)
      × (page.due_in held ≡ none)
      × (w.read claim place.0 ≡ some (waiting j))
  Waits claim place _ = Unit {0}

  found-Waits :
      (claim : Claim) (place : Place) (page : HeldPage) (held : Held) (o : Option Found)
      → w.read_held claim queue place.1 ≡ some page
      → page.first ≡ some held
      → at_place place.0 place.1 held ≡ true
      → page.due_in held ≡ none
      → w.read claim place.0 ≡ o
      → Waits claim place (found_under o)
  found-Waits claim place page held (some (waiting j)) e f g h k = (page, held, e, f, g, h, k)
  found-Waits claim place page held none e f g h k = tt
  found-Waits claim place page held (some failed) e f g h k = tt
  found-Waits claim place page held (some finished) e f g h k = tt
  found-Waits claim place page held (some unreadable) e f g h k = tt

  page-Waits :
      (claim : Claim) (place : Place) (o : Option HeldPage)
      → w.read_held claim queue place.1 ≡ o
      → Waits claim place (under_page w claim place o)
  page-Waits claim (id, at) none e = tt
  page-Waits claim (id, at) (some page) e = elim (Option-cases page.first) [
    | inl f ↦ rw (Waits, under_page, f) tt
    | inr (held, f) ↦ elim (Bool-cases (at_place id at held)) [
      | inr gone ↦ rw (Waits, under_page, f, gone) tt
      | inl there ↦ elim (Option-cases (page.due_in held)) [
        | inr (left, d) ↦ rw (Waits, under_page, f, there, d) tt
        | inl d ↦
            subst (λ (u : Under). Waits claim (id, at) u) (sym (rw (under_page, f, there, d) refl))
              (found-Waits claim (id, at) page held (w.read claim id) e f there d refl)
      ]
    ]
  ]

  after_claim-some :
      (port : Text) (place : Place) (u : Under) (s : State) (j : Journey)
      → (after_claim port queue place u s).1 ≡ some j
      → u ≡ is_waiting j
  after_claim-some port place (is_waiting k) s j e = cc
  after_claim-some port place (is_not_due at) s j e = absurd (ground (arith, e))
  after_claim-some port place is_moved s j e = absurd (ground (arith, e))
  after_claim-some port place (is_not f) s j e = absurd (ground (arith, e))
  after_claim-some port place is_unanswered s j e = absurd (ground (arith, e))

  abbrev pub Took : Place → Option (Journey × Claim) → Type 0
  Took place none = Unit {0}
  Took place (some (j, claim)) = UnderClaim w queue place claim j

  with_claim-Took :
      (place : Place) (claim : Claim) (s : State) (o : Option Journey)
      → w.claim place.0 ≡ claimed claim
      → (after_claim (name_of to) queue place (under_claim w claim queue place) s).1 ≡ o
      → Took place (elim o [ none ↦ none | some j ↦ some (j, claim) ])
  unfolding under_claim
  with_claim-Took place claim s none c e = tt
  with_claim-Took place claim s (some j) c e =
      let u = after_claim-some (name_of to) place (under_claim w claim queue place) s j e in
      let (page, held, f, g, h, d, r) =
        subst (λ (u : Under). Waits claim place u) u
          (page-Waits claim place (w.read_held claim queue place.1) refl) in
      record {
        page = page;
        held = held;
        was_claimed = c;
        was_read = f;
        first = g;
        there = ground (arith, h, nat_beq_iff held.sequence place.1);
        mine = ground (arith, h, nat_beq_iff held.journey place.0);
        due = d;
        to_send = r;
      }

  pub claimed_first-Took :
      (place : Place) (c : Claiming) (s : State)
      → w.claim place.0 ≡ c
      → Took place (claimed_first w to queue place c s).1
  unfolding claimed_first
  claimed_first-Took place (claimed claim) s e =
      with_claim-Took place claim s
        (after_claim (name_of to) queue place (under_claim w claim queue place) s).1 e refl
  claimed_first-Took place held_elsewhere s e = tt
  claimed_first-Took place unclaimed s e = tt
