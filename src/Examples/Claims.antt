-- ===== src/Examples/Claims.antt =====
-- The properties of the send step and of the sequences at concrete inputs.
use xmip_core_runtime.Base.{
  ℕ, ◌+◌, ◌-◌, ◌≤◌, min, ◌≡◌, ◌⊎◌, ◌↔◌, refl, inr, true, not, ◌&&◌, ◌||◌, List, [], ◌∷◌, ◌++◌, none,
  some, map, keep, any, codes, arith, length, contains, head?, get, insert, ltb, nat_eq,
}
use xmip_core_runtime.SendStep.State.{empty}
use xmip_core_runtime.SendStep.Admission.{admit, own, room}
use xmip_core_runtime.SendStep.Bound
use xmip_core_runtime.SendStep.Lined.{Claimed, line_up, confirmed, handed}
use xmip_core_runtime.SendStep.LinedLaws.{
  Places, Claims, take, out_of_order, line_up_claims, publication_balance,
}
use xmip_core_runtime.SendStep.Due.{hand_on, claimed_early, tell_each, reading, waited, wakes_at}
use xmip_core_runtime.SendStep.DueLaws.{wakes_at-told, read_answers, with_told, told_for}
use xmip_core_runtime.SendStep.Renewal.{surely, held, lost, unanswered}
use xmip_core_runtime.SendStep.RenewalLaws.{Answer, after, confirmed_by, lost_by, surely-after}
use xmip_core_runtime.SendStep.Dispatch.{completed, settle, next, ready}
use xmip_core_runtime.SendStep.DispatchLaws.{settle_frees, has_due, next_takes}
use xmip_core_runtime.Sequence.Heads.{Page, heads}
use xmip_core_runtime.Sequence.HeadsLaws
use xmip_core_runtime.Sequence.HeadsLaws.{content, heads-first}
use xmip_core_runtime.Examples.Data.{
  owned_at, departure_at, due_at, busy, config, departing, journeys, sends, claim_at,
}

-- Two Messages admitted of three wanted, and one of them owned.
abbrev admitted_two : Bound.System
admitted_two = record { state = (admit 2 3 empty).0; places = 0 + (admit 2 3 empty).1 }

abbrev one_owned : Bound.System
one_owned = record {
  state = own 1 (owned_at 1) admitted_two.state;
  places = admitted_two.places - 1;
}

one_owned-Reach : Bound.Reach 2 one_owned
unfolding admit room
one_owned-Reach =
    Bound.later (Bound.later Bound.start (Bound.admits 3)) (Bound.owns 1 (owned_at 1) (omega arith))

Reach-IsBounded_example : Bound.IsBounded 2 one_owned
Reach-IsBounded_example = Bound.Reach-IsBounded one_owned-Reach

line_up_claims_example :
    let lined = (line_up config sends departing [] 5 empty).1 in
    Places config departing lined.holds
    × Claims config 0 (take (keep (out_of_order sends) departing) lined.admitted) lined.claimed
    × (lined.claims ≡ map (λ (x : Claimed). x.claim) lined.claimed)
    × (length lined.claimed ≡ lined.admitted)
    × (lined.admitted ≡ min (length (keep (out_of_order sends) departing)) (room config.most empty))
line_up_claims_example = line_up_claims config sends departing [] 5 empty

publication_balance_example :
    let lined = line_up config sends departing [] 5 empty in
    let answered = confirmed lined.1 (claim_at 1 ∷ []) lined.0 in
    let done = handed config answered.1 journeys answered.0 in
    (done.admitted ≡ empty.admitted)
    × (length done.owned ≤ length empty.owned + room config.most empty)
publication_balance_example =
    publication_balance config sends departing [] 5 (claim_at 1 ∷ []) journeys empty

wakes_at-told_example :
    wakes_at 90 (
      waited 7
        (due_at 80)
        true
        (tell_each (codes "out") ([] ++ hand_on 7 50 ∷ claimed_early 7 60 ∷ []) busy))
    ≤ 50
wakes_at-told_example =
    wakes_at-told (codes "out") [] (claimed_early 7 60 ∷ []) (hand_on 7 50) (due_at 80) true 90 busy

read_answers_example :
    get 7
      (waited 7 (due_at 80) true (tell_each (codes "out") (hand_on 7 50 ∷ []) (reading 7 busy))).due
    ≡ some (with_told (due_at 80) (told_for 7 none (hand_on 7 50 ∷ [])))
read_answers_example = read_answers (codes "out") 7 (hand_on 7 50 ∷ []) (due_at 80) busy

-- Held by a round asked at 10, then not answered.
abbrev answers : List Answer
answers =
    record { asked = 10; now = 11; said = held (claim_at 1) }
    ∷ record { asked = 45; now = 46; said = unanswered }
    ∷ []

surely-after_example : surely (after 30 answers (owned_at 1)).standing 39 ≡ (
    not (lost_by (owned_at 1).standing.lost answers)
    && ltb 39 (confirmed_by 30 (owned_at 1).standing.until answers))
surely-after_example = surely-after 30 answers (owned_at 1) 39

-- Lost twice, the second time found again.
abbrev found_lost : List Answer
found_lost =
    record { asked = 10; now = 11; said = lost } ∷ record { asked = 20; now = 21; said = lost } ∷ []

settle_frees_example :
    (get 1 (settle 20 (departure_at 1) completed busy).owned ≡ none)
    × ((settle 20 (departure_at 1) completed busy).starved ≡ [])
    × (contains busy.starved 8 ≡ true
        → contains (settle 20 (departure_at 1) completed busy).asked 8 ≡ true)
settle_frees_example = settle_frees 20 (departure_at 1) completed busy 8

next_takes_example :
    (contains (next 45 busy).asked 7 ≡ (
      contains busy.asked 7
      || busy.rescan && contains busy.served 7
      || any (has_due 45 7) busy.due))
    × ((next 45 busy).handed ≡ busy.handed)
    × ((next 45 busy).closed ≡ busy.closed)
    × ((ready 60 45 (next 45 busy).state ≡ true) ↔ ((busy.closed ≡ true) ⊎ (60 ≤ 45)))
    × ((next 45 busy).state.owned ≡ busy.owned)
    × ((next 45 busy).state.admitted ≡ busy.admitted)
next_takes_example = next_takes 45 60 busy 7

-- Two members in queue 4, the one behind the other.
abbrev two_placed : HeadsLaws.System
two_placed = record { queues = (4, 1 ∷ 2 ∷ []) ∷ []; taken = (4, 2) ∷ (4, 1) ∷ []; known = [] }

two_placed-Reach : HeadsLaws.Reach two_placed
unfolding content insert get
two_placed-Reach =
    HeadsLaws.later (HeadsLaws.later HeadsLaws.start (HeadsLaws.takes 4 1 refl))
      (HeadsLaws.takes 4 2 refl)

abbrev first_member : ℕ
first_member = 1

abbrev second_member : ℕ
second_member = 2

abbrev first_page : Page
first_page = record { first = some 1; count = 2 }

heads-first_example :
    (head? (content 4 two_placed.queues) ≡ some 1)
    × ((heads two_placed.known (some first_page) 4 2).0 ≡ some true → first_member ≡ second_member)
unfolding content get heads
heads-first_example =
    heads-first 4 first_member second_member first_page first_page two_placed-Reach (refl, inr refl)
      (refl, inr refl) refl refl refl
