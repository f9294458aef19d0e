-- ===== src/Pickup/Released.antt =====
-- src/pickup/released.rs: what the node picks up of what its Subscriptions hold, and what it says of
-- each. What Xmip Storage answers is a parameter, and so is what others do to the state while the lock
-- is not held; an audit record is not kept.
use xmip_core_runtime.Base.{
  ℕ, suc, ◌+◌, ◌-◌, Bool, true, false, not, ◌||◌, List, [], ◌∷◌, ◌++◌, Option, none, some, Text,
  map, push_new, contains, length, get_elem?, ltb, max, min, u32_mod, if◌then◌else◌, ◌==◌, nat_eq,
  add64,
}
use xmip_core_runtime.Journey.{Journey}
use xmip_core_runtime.Sending.Defs.{Subscriber}
use xmip_core_runtime.Sequence.Point.{Hold}
use xmip_core_runtime.SendStep.State.{Claim}
use xmip_core_runtime.SendStep.Admission.{without}
use xmip_core_runtime.Pickup.Configured.{name}
use xmip_core_runtime.Pickup.State.{Entry, State, entry_ready, modify, change}
use xmip_core_runtime.Pickup.Act.{again_after}

-- `persist::storage::Held`.
pub record Held : Type 0 where
  pub sequence : ℕ
  pub hold : Hold

pub record Released : Type 0 where
  pub subscription : Text
  pub destination : Subscriber
  pub held : Held

-- `u32::try_from(max.max(1)).unwrap_or(u32::MAX)`.
unfoldable pub most_of : ℕ → ℕ
most_of m = min (max m 1) (u32_mod - 1)

-- What is read, one after the other: each let go of unless it is taken already.
unfoldable pub take_each : List Held → Entry → Entry
take_each [] e = e
take_each (h ∷ held) e =
    take_each held (record e { cursor = add64 h.sequence 1; taken = push_new e.taken h.sequence })

unfoldable pub let_go : List Held → (taken : List ℕ) → List Held
let_go [] taken = []
let_go (h ∷ held) taken =
    let rest = let_go held (push_new taken h.sequence) in
    if contains taken h.sequence then rest else h ∷ rest

unfoldable pub release : Entry → Held → Released
unfolding name
release e h = record {
  subscription = name e.configured;
  destination = e.configured.subscription.destination;
  held = h;
}

abbrev pub if_ended : (ended : Bool) → Entry → Entry
if_ended true e = record e { pending = false }
if_ended false e = e

-- A read's answer at its entry, the lock held again; `none` is an error.
unfoldable pub on_answer :
    (most : ℕ) → (now : ℕ) → Option (List Held) → Entry → Entry × List Released
unfolding take_each let_go release
on_answer most now none e = (record e { not_before = some (now + again_after) }, [])
on_answer most now (some read) e = (
  if_ended (ltb (length read) most) (take_each read (record e { not_before = none })),
  map (release e) (let_go read e.taken),
)

unfoldable pub on_read :
    (most from : ℕ) → (now : ℕ) → Option (List Held) → Entry → Entry × List Released
unfolding on_answer
on_read most from now answer e =
    if e.standing.paused || not (e.cursor == from) then (e, []) else on_answer most now answer e

pub record Ask : Type 0 where
  pub index : ℕ
  pub queue : ℕ
  pub from : ℕ

unfoldable pub asks : (now : ℕ) → (first : ℕ) → State → List Ask
unfolding entry_ready
asks now first [] = []
asks now first (e ∷ s) =
    let rest = asks now (suc first) s in
    if entry_ready e now
    then record { index = first; queue = e.queue; from = e.cursor } ∷ rest
    else rest

abbrev pub read_at :
    (most : ℕ) → (now : ℕ) → Ask → Option (List Held) → State → Option Entry → State × List Released
read_at most now a answer s none = (s, [])
read_at most now a answer s (some e) =
    let (e', let_go_of) = on_read most a.from now answer e in
    (modify a.index (λ _. e') s, let_go_of)

abbrev pub and_these : List Released → State × List Released → State × List Released
and_these taken (s, rest) = (s, taken ++ rest)

abbrev pub then_asks :
    (State → State × List Released) → State × List Released → State × List Released
then_asks more (s, taken) = and_these taken (more s)

-- Each queue asked is read, while others do as they do, and its answer taken under the lock.
unfoldable pub read_asks :
    (most : ℕ)
    → (read : Ask → Option (List Held)) → (others : Ask → State → State) → (now : ℕ) → List Ask
    → State
    → State × List Released
unfolding on_read modify
read_asks most read others now [] s = (s, [])
read_asks most read others now (a ∷ asked) s =
    let s' = others a s in
    then_asks (read_asks most read others now asked)
      (read_at most now a (read a) s' (get_elem? s' a.index))

-- `Pickup::released`, once it has waited.
unfoldable pub released :
    (read : (most : ℕ) → Ask → Option (List Held))
    → (others : Ask → State → State) → (now : ℕ) → (max : ℕ) → State
    → State × List Released
unfolding read_asks asks most_of
released read others now m s =
    let most = most_of m in read_asks most (read most) others now (asks now 0 s) s

unfoldable pub settled : (done : Entry → Entry) → (sequence : ℕ) → Entry → Entry
settled done sequence e = done (record e { taken = without sequence e.taken })

unfoldable pub settle : (done : Entry → Entry) → Released → State → State
unfolding change settled
settle done r s = change r.subscription (settled done r.held.sequence) s

unfoldable pub one_picked_up : Entry → Entry
one_picked_up e = record e { held = e.held - 1; picked_up = add64 e.picked_up 1 }

-- `Pickup::moved`, `Pickup::passed` and `Pickup::unreadable`.
unfoldable pub moved : Released → State → State
unfolding settle one_picked_up
moved r s = settle one_picked_up r s

unfoldable pub passed : Released → State → State
unfolding settle
passed r s = settle (λ e. e) r s

unfoldable pub unreadable : Released → State → State
unfolding passed
unreadable r s = passed r s

unfoldable pub read_again : (now : ℕ) → (sequence : ℕ) → Entry → Entry
read_again now sequence e = record e {
  taken = without sequence e.taken;
  cursor = if ltb sequence e.cursor then sequence else e.cursor;
  pending = true;
  not_before = some (now + again_after);
}

-- `Pickup::again`.
unfoldable pub again : (now : ℕ) → Released → State → State
unfolding read_again change
again now r s = change r.subscription (read_again now r.held.sequence) s

-- `claim`'s and `hand_on`'s answers.
pub data Claiming : Type 0 where
  claimed : Claim → Claiming
  elsewhere unclaimed : Claiming

pub data HandedOn : Type 0 where
  taken lapsed unanswered : HandedOn

-- `persist::storage::HandOn`, what a pickup writes of it.
pub record HandOn : Type 0 where
  pub claim : Claim
  pub result : Journey
  pub leaves : List ℕ
  pub queued : List Hold
  pub kept_for_nanos : Option ℕ

unfoldable pub let_go_by : Claim → Journey → Released → HandOn
let_go_by claim j r = record {
  claim = claim;
  result = j;
  leaves = r.held.hold.queue ∷ [];
  queued = [];
  kept_for_nanos = none;
}

abbrev pub delivered_on : Released → State → HandedOn → State × Bool
delivered_on r s taken = (moved r s, true)
delivered_on r s lapsed = (s, false)
delivered_on r s unanswered = (s, false)

-- `Pickup::delivered`, and whether it was.
unfoldable pub delivered :
    Claiming → (hand_on : HandOn → HandedOn) → Released → Journey → State → State × Bool
unfolding moved let_go_by
delivered (claimed claim) hand_on r j s = delivered_on r s (hand_on (let_go_by claim j r))
delivered elsewhere hand_on r j s = (s, false)
delivered unclaimed hand_on r j s = (s, false)

-- `Pickup::kept`; `wrote` is whether Xmip Storage took the Journey.
unfoldable pub kept : (wrote : Bool) → Released → State → State × Bool
unfolding passed
kept true r s = (passed r s, true)
kept false r s = (s, false)
