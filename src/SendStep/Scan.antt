-- ===== src/SendStep/Scan.antt =====
-- src/send_step/scan.rs and src/send_step/under_claim.rs: a scan of a queue that the node sends. What
-- Xmip Storage answers, the clock and the tokens are the parameters of `World`; the Message and its
-- identity facts travel with a Journey and are not kept, nor is what is said of a queue unanswered.
use xmip_core_runtime.Base.{
  ℕ, zero, suc, ◌+◌, Bool, true, false, not, ◌&&◌, ◌||◌, List, [], ◌∷◌, ◌++◌, Option, none, some,
  Text, contains, push_new, get, is_some, if◌then◌else◌, ◌==◌, nat_eq,
}
use xmip_core_runtime.Journey.{Journey}
use xmip_core_runtime.Sending.Defs.{Subscriber, Sends, is_empty}
use xmip_core_runtime.Departure.Defs.{of}
use xmip_core_runtime.Sequence.Heads.{Page, Place, place_eq}
use xmip_core_runtime.Sequence.Late.{
  Round, Placing, behind, placed_at, lost, unanswered, reading, heading, waits_for_places,
  points_of, grouped,
}
use xmip_core_runtime.SendStep.State.{State, Claim, Due, Departure}
use xmip_core_runtime.SendStep.Admission.{admit, own, untake, starve, owned_of, name_of}
use xmip_core_runtime.SendStep.Due as Dues
use xmip_core_runtime.SendStep.Due.{found_at, not_due, waited}
use xmip_core_runtime.SendStep.MessageAct.{Claiming, claimed, held_elsewhere, unclaimed}
use xmip_core_runtime.SendStep.Passed.{pass_over, read_whole, passed_of}
use xmip_core_runtime.SendStep.Reading.{Held, DueQueue, From, Read, Reading, begun, next}

-- `Found` of src/send_step/pass.rs.
pub data Found : Type 0 where
  waiting : Journey → Found
  failed finished : Found
  unreadable : Found

-- A page of one entry, and when it was asked.
pub record HeldPage : Type 0 where
  pub asked : ℕ
  pub first : Option Held
  pub due_in : Held → Option ℕ

-- `read_held` and `read` are what Xmip Storage answers once it gave this node the claim.
pub record World : Type 0 where
  pub most : ℕ
  pub lease : ℕ
  pub named : Text → ℕ
  pub cluster : Text
  pub sends : Sends
  pub read_due : From → Option (ℕ × DueQueue)
  pub after : Held → From
  pub asked : ℕ → ℕ
  pub claim : ℕ → Claiming
  pub read_held : Claim → (queue at : ℕ) → Option HeldPage
  pub read : Claim → (journey : ℕ) → Option Found
  pub known : ℕ → List Place
  pub pages : ℕ → (ℕ → Option Page)
  pub rounds : ℕ → (ℕ → Round)

-- `Under`.
pub data Under : Type 0 where
  is_waiting : Journey → Under
  is_not_due : (at : ℕ) → Under
  is_moved : Under
  is_not : Found → Under
  is_unanswered : Under

abbrev pub found_under : Option Found → Under
found_under none = is_unanswered
found_under (some (waiting j)) = is_waiting j
found_under (some failed) = is_not failed
found_under (some finished) = is_not finished
found_under (some unreadable) = is_not unreadable

abbrev pub at_place : (id at : ℕ) → Held → Bool
at_place id at h = h.sequence == at && h.journey == id

-- The Message found where its place still is.
abbrev pub under_page : World → Claim → Place → Option HeldPage → Under
under_page w claim (id, at) none = is_unanswered
under_page w claim (id, at) (some p) = elim p.first [
  | none ↦ is_moved
  | some h ↦
      if at_place id at h
      then (elim (p.due_in h) [
        | some left ↦ is_not_due (p.asked + left)
        | none ↦ found_under (w.read claim id)
      ])
      else is_moved
]

-- `under_claim`.
unfoldable pub under_claim : World → Claim → (queue : ℕ) → Place → Under
under_claim w claim queue place = under_page w claim place (w.read_held claim queue place.1)

-- What a claim took, and what the step keeps of what it did not.
abbrev pub after_claim :
    (port : Text) → (queue : ℕ) → Place → Under → State → State × Option Journey
after_claim port queue place (is_waiting j) s = (s, some j)
after_claim port queue place (is_not_due at) s = (not_due port queue at s, none)
after_claim port queue place is_moved s = (s, none)
after_claim port queue place (is_not found) s = (pass_over queue place s, none)
after_claim port queue place is_unanswered s = (s, none)

-- `owned`'s departure.
unfoldable pub departure_of : World → Subscriber → (queue : ℕ) → Journey → Claim → Departure
departure_of w to queue j claim = record {
  journey = j;
  to = to;
  queue = queue;
  claim = claim;
  progress = of j.attempts;
  until = w.asked j.journey_id + w.lease;
}

-- `claimed_first`, with the claim it is asked.
unfoldable pub claimed_first :
    World → Subscriber → (queue : ℕ) → Place → Claiming → State → State × Option (Journey × Claim)
unfolding under_claim
claimed_first w to queue place held_elsewhere s = (s, none)
claimed_first w to queue place unclaimed s = (s, none)
claimed_first w to queue place (claimed claim) s =
    let r = after_claim (name_of to) queue place (under_claim w claim queue place) s in
    (r.0, elim r.1 [ none ↦ none | some j ↦ some (j, claim) ])

abbrev pub owns :
    World → Subscriber → (queue : ℕ) → State × Option (Journey × Claim) → State × Option Departure
owns w to queue (s, none) = (s, none)
owns w to queue (s, some (j, claim)) =
    let d = departure_of w to queue j claim in (own j.journey_id (owned_of d) s, some d)

-- `take`.
unfoldable pub take : World → Subscriber → (queue : ℕ) → Place → State → State × Option Departure
unfolding claimed_first
take w to queue place s = owns w to queue (claimed_first w to queue place (w.claim place.0) s)

abbrev pub journey_of : Journey → Placing → Journey
journey_of old (behind j) = j
journey_of old (placed_at j) = j
journey_of old (lost j) = j
journey_of old (unanswered j) = j
journey_of old reading = old

-- `placed`: its places taken where it waits for them.
unfoldable pub placed_late : World → Subscriber → Departure → Departure
placed_late w to d =
    let j = d.journey in
    let id = j.journey_id in
    if waits_for_places w.sends j to
    then record d {
      journey =
          journey_of j
            (heading w.named w.cluster w.sends to (w.pages id) (w.rounds id) j (w.known id));
    }
    else d

-- `Ready`.
pub data Ready : Type 0 where
  to_claim : Place → Ready
  is_claimed : Departure → Ready

pub record Scan : Type 0 where
  pub state : State
  pub waits : Due
  pub present : List Place
  pub found : List Ready

abbrev pub queue_ready :
    (id : ℕ) → World → Subscriber → State × Option Departure → State × Option Ready
queue_ready id w to (s, none) = (untake id s, none)
queue_ready id w to (s, some d) = (s, some (is_claimed (placed_late w to d)))

-- An entry under the place admitted for it.
unfoldable pub takes :
    World → Subscriber → (queue : ℕ) → (sequenced : Bool) → Place → State → State × Option Ready
unfolding take
takes w to queue sequenced place s =
    let t = record s { taking = push_new s.taking place.0 } in
    if sequenced
    then queue_ready place.0 w to (take w to queue place t)
    else (t, some (to_claim place))

abbrev pub with_ready : Scan → State × Option Ready → Scan
with_ready r (s, none) = record r { state = s }
with_ready r (s, some ready) = record r { state = s; found = r.found ++ ready ∷ [] }

unfoldable pub is_known : (queue : ℕ) → Place → State → Bool
is_known queue place s =
    is_some (get place.0 s.owned) || contains s.taking place.0 || contains (passed_of queue s) place

-- An entry not yet known, where the pool admits it: whether the scan goes on.
unfoldable pub admits :
    World → Subscriber → (queue : ℕ) → (sequenced : Bool) → Place → Scan → Bool × Scan
unfolding takes
admits w to queue sequenced place r =
    let a = admit w.most 1 r.state in
    if a.1 == 0
    then (false, record r { state = starve queue a.0 })
    else (true, with_ready r (takes w to queue sequenced place a.0))

-- One entry that the scan reads.
unfoldable pub visit :
    World → Subscriber → (queue : ℕ) → (sequenced : Bool) → Read → Scan → Bool × Scan
unfolding admits is_known
visit w to queue sequenced one r =
    let place : Place = (one.held.journey, one.held.sequence) in
    let seen : Scan = record r { present = push_new r.present place } in
    if one.held.failed then (true, seen) else elim one.due_in [
      | some left ↦ (true, record seen { waits = found_at (one.asked + left) seen.waits })
      | none ↦
          if is_known queue place seen.state
          then (true, seen)
          else admits w to queue sequenced place seen
    ]

-- How a scan's reading ended; `fuel_out` is a loop that goes on.
pub data Stop : Type 0 where
  all_read pool_full no_answer fuel_out : Stop

abbrev pub is_whole : Stop → Bool
is_whole all_read = true
is_whole pool_full = false
is_whole no_answer = false
is_whole fuel_out = false

abbrev pub if_on : Bool × Scan → (Scan → Scan × Stop) → Scan × Stop
if_on (true, r) f = f r
if_on (false, r) f = (r, pool_full)

-- What the loop does with what it read.
abbrev pub then_scan :
    World
    → Subscriber
    → (queue : ℕ) → (sequenced : Bool) → (Reading → Scan → Scan × Stop)
    → Scan
    → Option (Option Read × (Reading × Due))
    → Scan × Stop
then_scan w to queue sequenced more r none = (r, no_answer)
then_scan w to queue sequenced more r (some (none, (rest, waits))) =
    (record r { waits = waits; state = read_whole queue r.present r.state }, all_read)
then_scan w to queue sequenced more r (some (some one, (rest, waits))) =
    if_on (visit w to queue sequenced one (record r { waits = waits })) (more rest)

-- `scanning`'s loop on fuel.
unfoldable pub scan_loop :
    World
    → Subscriber
    → (queue : ℕ) → (sequenced : Bool) → (fuel : ℕ) → Reading
    → Scan
    → Scan × Stop
unfolding visit
scan_loop w to queue sequenced zero from r = (r, fuel_out)
scan_loop w to queue sequenced (suc fuel) from r =
    then_scan w to queue sequenced (scan_loop w to queue sequenced fuel) r
      (next w.read_due w.after from r.waits)

unfoldable pub is_sequenced : Sends → Subscriber → Bool
is_sequenced sends to = not (is_empty (points_of sends to)) || grouped sends to

-- `scan`.
unfoldable pub scan : World → Subscriber → (queue fuel : ℕ) → State → State × List Ready
unfolding scan_loop is_sequenced
scan w to queue fuel s =
    let start : Scan = record {
      state = Dues.reading queue s;
      waits = Dues.of (name_of to);
      present = [];
      found = [];
    } in
    let r = scan_loop w to queue (is_sequenced w.sends to) fuel begun start in
    (waited queue r.0.waits (is_whole r.1) r.0.state, r.0.found)
