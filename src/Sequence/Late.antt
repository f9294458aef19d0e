-- ===== src/Sequence/Late.antt =====
-- src/sequence/late.rs, with the places of src/sequence.rs and src/sequence/group.rs: a Message's places
-- at its destination, taken once its Stream heads its own sequences. What Xmip Storage answers, round
-- for round, and what is promoted of the Message are parameters; `none` is an error, its words not kept.
use xmip_core_runtime.Base.{
  ℕ, zero, suc, ◌+◌, Bool, true, false, not, ◌&&◌, ◌||◌, List, [], ◌∷◌, ◌++◌, Option, none, some,
  Text, text_eq, ◌==◌, keep, find, any, contains, is_some, if◌then◌else◌,
}
use xmip_core_runtime.Journey.{Journey, Sequenced, GroupDelivery}
use xmip_core_runtime.Sequence.Point.{Point, PointKind, OnFailure, Hold, place}
use xmip_core_runtime.Sequence.Heads.{Page, Place, stream_heads, group_heads}
use xmip_core_runtime.Sending.Defs.{
  Subscriber, send_port, send_group, work_process, SendPortGroup, Sends, Port, Destination, ports,
  process, nowhere, to, is_empty,
}

abbrev pub is_group : PointKind → Bool
is_group PointKind.send_port_group = true
is_group _ = false

abbrev pub is_process : PointKind → Bool
is_process PointKind.work_process = true
is_process _ = false

-- `point` of group.rs: the Send Port Group's sequence.
unfoldable pub point : Sends → Text → Option Point
point sends name = find (λ (p : Point). is_group p.kind && p.name == name) sends.points

abbrev pub points_of_ports : List Port → List Point
points_of_ports [] = []
points_of_ports (p ∷ ps) = p.points ++ points_of_ports ps

abbrev pub points_at : Destination → List Point
points_at (ports ps) = points_of_ports ps
points_at process = []
points_at nowhere = []

-- `points_of`.
unfoldable pub points_of : Sends → Subscriber → List Point
points_of sends (work_process name) =
    keep (λ (p : Point). is_process p.kind && p.name == name) sends.points
points_of sends (send_port name) = points_at (to sends (send_port name))
points_of sends (send_group name) = points_at (to sends (send_group name))

-- `grouped`.
unfoldable pub grouped : Sends → Subscriber → Bool
unfolding point
grouped sends (send_port port) =
    any (λ (g : SendPortGroup). contains g.send_ports port && is_some (point sends g.name))
      sends.groups
grouped sends (send_group name) = false
grouped sends (work_process name) = false

abbrev pub waits_in : Sends → Option GroupDelivery → Bool
waits_in sends none = false
waits_in sends (some g) = not (is_some g.queue) && is_some (point sends g.name)

-- `waits_for_group`.
unfoldable pub waits_for_group : Sends → Journey → Bool
waits_for_group sends j = waits_in sends j.group

-- `waits_for_places`.
unfoldable pub waits_for_places : Sends → Journey → Subscriber → Bool
waits_for_places sends j to =
    waits_for_group sends j || is_empty j.sequences && not (is_empty (points_of sends to))

abbrev pub Promoted : Type 0
Promoted = Text → Option Text

abbrev pub skips : OnFailure → Bool
skips OnFailure.skip = true
skips OnFailure.block = false

abbrev pub told_queue : Journey → GroupDelivery → Option Hold → Option (Option Hold × Journey)
told_queue j g none = none
told_queue j g (some hold) =
    some (some hold, record j { group = some (record g { queue = some hold.queue }) })

module _ (named : Text → ℕ) (cluster : Text) where
  abbrev pub at_point :
      Journey → Promoted → GroupDelivery → Option Point → Option (Option Hold × Journey)
  at_point j promoted g none = some (none, j)
  at_point j promoted g (some p) = told_queue j g (place named p cluster g.delivery j promoted)

  abbrev pub in_group :
      Sends → Journey → Promoted → Option GroupDelivery → Option (Option Hold × Journey)
  in_group sends j promoted none = some (none, j)
  in_group sends j promoted (some g) =
      if is_some g.queue then some (none, j) else at_point j promoted g (point sends g.name)

  -- `group_placed`.
  unfoldable pub group_placed : Sends → Journey → Promoted → Option (Option Hold × Journey)
  group_placed sends j promoted = in_group sends j promoted j.group

  -- `placed` of src/sequence.rs, after the places `holds`.
  unfoldable pub placed : List Point → Journey → Promoted → List Hold → Option (List Hold × Journey)
  placed [] j promoted holds = some (holds, j)
  placed (p ∷ ps) j promoted holds = elim (place named p cluster j.journey_id j promoted) [
    | none ↦ none
    | some hold ↦
        let s : Sequenced = record { queue = hold.queue; skips = skips p.on_failure } in
        placed ps (record j { sequences = j.sequences ++ s ∷ [] }) promoted (holds ++ hold ∷ [])
  ]

  unfoldable pub then_placed :
      List Point → Promoted → Option (Option Hold × Journey) → Option (List Hold × Journey)
  unfolding placed
  then_placed points promoted none = none
  then_placed points promoted (some (some hold, told)) = some (hold ∷ [], told)
  then_placed points promoted (some (none, told)) = placed points told promoted []

  -- The places a late taking queues, and the Journey told them.
  unfoldable pub late_places :
      Sends → Journey → Subscriber → Promoted → Option (List Hold × Journey)
  unfolding group_placed then_placed
  late_places sends j to promoted =
      then_placed (points_of sends to) promoted (group_placed sends j promoted)

pub data Taken : Type 0 where
  taken : Journey → Taken
  lapsed : Taken
  unable : Taken

abbrev pub handed_on : (List Hold → Journey → Option Bool) → Option (List Hold × Journey) → Taken
handed_on hand_on none = unable
handed_on hand_on (some (holds, told)) = elim (hand_on holds told) [
  | none ↦ unable
  | some false ↦ lapsed
  | some true ↦ taken told
]

-- What one round of `heading` meets.
pub record Round : Type 0 where
  pub pages : ℕ → Option Page
  pub promoted : Option Promoted
  pub hand_on : List Hold → Journey → Option Bool

-- `take_late`.
unfoldable pub take_late :
    (Text → ℕ) → (cluster : Text) → Sends → Subscriber → Round → Journey → Taken
unfolding late_places
take_late named cluster sends to r j =
    if not (waits_for_places sends j to) then taken j else elim r.promoted [
      | none ↦ unable
      | some promoted ↦ handed_on r.hand_on (late_places named cluster sends j to promoted)
    ]

-- `Placing`, with the Journey as it stands, or an error; `reading` is a loop that goes on.
pub data Placing : Type 0 where
  behind placed_at lost : Journey → Placing
  unanswered : Journey → Placing
  reading : Placing

abbrev pub goes_on : Journey → (Journey → Placing) → Taken → Placing
goes_on j next unable = unanswered j
goes_on j next lapsed = lost j
goes_on j next (taken told) = next told

abbrev pub if_heads : Journey → (List Place → Placing) → Option Bool × List Place → Placing
if_heads j next (none, known) = unanswered j
if_heads j next (some false, known) = behind j
if_heads j next (some true, known) = next known

-- `heading`'s loop on fuel, its first round at `n`.
unfoldable pub heading_loop :
    (Text → ℕ)
    → (cluster : Text) → Sends
    → Subscriber
    → (ℕ → Round)
    → (fuel n : ℕ) → Journey
    → List Place
    → Placing
heading_loop named cluster sends to rounds zero n j known = reading
heading_loop named cluster sends to rounds (suc fuel) n j known =
    if_heads j
      (λ known.
        let rest =
          goes_on j (λ told. heading_loop named cluster sends to rounds fuel (n + 1) told known)
            (take_late named cluster sends to (rounds n) j) in
        if waits_for_places sends j to then rest else placed_at j)
      (group_heads (rounds n).pages j known)

-- `heading`: the Stream's own sequences asked first.
unfoldable pub heading :
    (Text → ℕ)
    → (cluster : Text) → Sends
    → Subscriber
    → (pages : ℕ → Option Page) → (ℕ → Round)
    → Journey
    → List Place
    → Placing
unfolding heading_loop
heading named cluster sends to pages rounds j known =
    if_heads j (λ known. heading_loop named cluster sends to rounds 3 0 j known)
      (stream_heads pages j known)
