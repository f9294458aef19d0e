-- ===== src/Examples/Pickups.antt =====
-- The pickup's properties at concrete inputs.
use xmip_core_runtime.Base.{
  ℕ, zero, suc, ◌+◌, ◌*◌, ◌≤◌, ◌≡◌, refl, not, ◌&&◌, ◌||◌, true, false, Bool, List, [], ◌∷◌, ◌++◌,
  Option, none, some, Text, text_eq, nat_eq, codes, arith, length, map, keep, contains,
  if◌then◌else◌, ◌==◌,
}
use xmip_core_runtime.Journey.{Journey, JourneyState}
use xmip_core_runtime.Sending.Defs.{send_port}
use xmip_core_runtime.SendStep.State.{empty}
use xmip_core_runtime.Pickup.State.{Standing, Entry, State, entry, entry_ready}
use xmip_core_runtime.Pickup.Form.{
  Codec, Reads, record_of, from_record, read_as, other_form, bytes_after,
}
use xmip_core_runtime.Pickup.FormLaws.{standing_round_trip}
use xmip_core_runtime.Pickup.Act.{pause, paused, act}
use xmip_core_runtime.Pickup.Holding.{Opened, holding, departing, lead, told}
use xmip_core_runtime.Pickup.HoldingLaws.{holds_it, holds_for}
use xmip_core_runtime.Pickup.Released.{Held, Released, on_read, claimed, lapsed}
use xmip_core_runtime.Pickup.ReleasedLaws.{to_read, pause_holds, told_between}
use xmip_core_runtime.Pickup.Places.{
  Queue, places, keeps, reads, happens, Reach, begun, next, count,
}
use xmip_core_runtime.Pickup.PlacesLaws.{let_go_once, none_forgotten}
use xmip_core_runtime.Pickup.HeldWork.{Node, Answers, waiting, not_answered}
use xmip_core_runtime.Pickup.Round.{round}
use xmip_core_runtime.Pickup.RoundLaws.{InOrder}
use xmip_core_runtime.Pickup.RoundEnds.{Left, round_leaves}
use xmip_core_runtime.Examples.Data.{claim_at}

abbrev orders : Text
orders = codes "orders"

abbrev stock : Text
stock = codes "stock"

abbrev active : Standing
active = record { paused = false; by = []; since_unix_nanos = 5 }

abbrev subscribed : Text → Entry
subscribed n = record {
  configured = record {
    subscription = record { id = n; destination = send_port (codes "Out") };
    application = [];
    file = [];
    entry = [];
    ports = codes "Out" ∷ [];
  };
  queue = length n;
  standing = active;
  held = 0;
  picked_up = 0;
  cursor = 0;
  taken = [];
  pending = false;
  not_before = none;
}

abbrev two : State
two = subscribed orders ∷ subscribed stock ∷ []

abbrev journey : ℕ → Journey
journey id = record {
  journey_id = id;
  state = JourneyState.active;
  attempts = record { location = 0; tries = 0 };
  received = none;
  group = none;
  send_port = some (codes "Out");
  current_work_process = none;
  subscription = none;
  previous_journey_id = none;
  sequences = [];
}

abbrev opened_for : ℕ → Text → Opened
opened_for id n = record {
  journey = journey id;
  subscription = n;
  to = send_port (codes "Out");
  group = none;
}

abbrev both : List Opened
both = opened_for 1 orders ∷ opened_for 2 stock ∷ []

orders_paused : (act some (λ q s. true) 9 orders pause (codes "ilian") two).said ≡ paused
unfolding act
orders_paused = refl

pause_holds_example :
    let s' = (act some (λ q s. true) 9 orders pause (codes "ilian") two).state in
    (departing (holding s' [] both) both
      ≡ map lead (
          keep (λ (o : Opened). not (orders == o.subscription) && not (holds_it two false o)) both))
    × ((holding s' [] both).holds
        ≡ holds_for s' []
            (keep (λ (o : Opened). orders == o.subscription || holds_it two false o) both))
    × (to_read 12 (entry orders s') ≡ false)
pause_holds_example =
    pause_holds some (λ q s. true) 9 orders pause (codes "ilian") two [] both 12 orders_paused

-- One Message kept, read and passed over.
abbrev hold_at : ℕ → Held
hold_at n = record { sequence = n; hold = record { queue = 6; journey = 10 + n; body = [] } }

abbrev started : Queue
started = record {
  entry = subscribed orders;
  stored = [];
  numbered = 0;
  passed_over = [];
  lets = [];
  dones = [];
}

abbrev one_kept : Queue
one_kept = happens (keeps (hold_at 0)) started

abbrev one_read : Queue
one_read = happens (reads 4 7) one_kept

one_read-Reach : Reach one_read
unfolding happens entry_ready
one_read-Reach =
    next (reads 4 7) one_kept
      (next (keeps (hold_at 0)) started (begun (subscribed orders) refl refl)
        (omega arith, omega arith))
      refl

let_go_once_example :
    count 0 one_read.lets
    ≡ count 0 one_read.dones + (if contains one_read.entry.taken 0 then 1 else 0)
let_go_once_example = let_go_once 0 one_read-Reach

one_read_quiet :
    (one_read.entry.standing.paused ≡ false)
    × (one_read.entry.pending ≡ false)
    × (contains (places one_read.stored) 0 ≡ true)
unfolding happens
one_read_quiet = (refl, refl, refl)

none_forgotten_example : (contains one_read.entry.taken 0 || contains one_read.passed_over 0) ≡ true
none_forgotten_example =
    none_forgotten 0 one_read-Reach one_read_quiet.0 one_read_quiet.1 one_read_quiet.2

told_between_example :
    ((on_read 4 0 7 (some (hold_at 0 ∷ [])) (told (subscribed orders))).0.pending ≡ false)
    × ((on_read 4 0 7 (some (hold_at 0 ∷ [])) (told (subscribed orders))).0.cursor ≤ 1)
    × (contains (on_read 4 0 7 (some (hold_at 0 ∷ [])) (told (subscribed orders))).0.taken 1
        ≡ false)
told_between_example =
    told_between (subscribed orders) 4 7 (hold_at 0 ∷ []) (hold_at 1) refl (omega arith) refl
      (omega arith) (omega arith) refl

abbrev node : Node
node = record {
  sends = record {
    locations = record { name = codes "Out"; target = codes "file:///out" } ∷ [];
    groups = [];
    ports = [];
    points = [];
  };
  queue = λ to. 77;
  lease = 30;
  most = 2;
}

abbrev answers : Answers
answers = record {
  claiming = claimed (claim_at 10);
  found = waiting (journey 10);
  hand_on = λ h. lapsed;
}

abbrev let_go_of : ℕ → Released
let_go_of n = record {
  subscription = orders;
  destination = send_port (codes "Out");
  held = hold_at n;
}

-- The first of two that cannot be read: both are to be read again.
abbrev silent : Released → Answers
silent r = record answers { found = not_answered }

abbrev read_twice : Entry
read_twice = record (subscribed orders) {
  cursor = 0;
  pending = true;
  not_before = some (5 + 50 * 1000000);
}

both_read_again :
    entry orders (round node silent 5 (let_go_of 0 ∷ let_go_of 1 ∷ []) [] two empty).0
    ≡ some read_twice
unfolding entry round
both_read_again = refl

round_leaves_example :
    let rs = let_go_of 0 ∷ let_go_of 1 ∷ [] in
    let done = round node silent 5 rs [] two empty in
    (map (λ (q : Released × Bool). q.0) done.1 ≡ rs)
    × InOrder done.1
    × Left orders done.1 read_twice
round_leaves_example =
    round_leaves node silent 5 (let_go_of 0 ∷ let_go_of 1 ∷ []) two empty orders read_twice
      both_read_again

-- A codec that writes a number as one element, and a text after its length.
abbrev cut : ℕ → Text → Text × Text
cut zero t = ([], t)
cut (suc n) [] = ([], [])
cut (suc n) (b ∷ t) = let (first, rest) = cut n t in (b ∷ first, rest)

cut-append : (t rest : Text) → cut (length t) (t ++ rest) ≡ (t, rest)
cut-append [] rest = refl
cut-append (b ∷ t) rest = ground (arith, cut-append t rest)

abbrev read_one : Text → Option (ℕ × Text)
read_one [] = none
read_one (b ∷ rest) = some (b, rest)

abbrev read_counted : Text → Option (Text × Text)
read_counted [] = none
read_counted (n ∷ rest) = some (cut n rest)

abbrev plain : Codec
plain = record {
  byte = λ b. b ∷ [];
  text = λ t. length t ∷ t;
  i64_be = λ n. n ∷ [];
  read_byte = read_one;
  read_text = read_counted;
  read_i64 = read_one;
}

plain-Reads : Reads plain
plain-Reads = record {
  bytes = λ b rest h. refl;
  texts = λ t rest. ground (arith, cut-append t rest);
  i64s = λ n rest h. refl;
}

abbrev stopped_by : Standing
stopped_by = record { paused = true; by = codes "ilian"; since_unix_nanos = 9 }

standing_round_trip_example :
    (from_record plain (record_of plain stopped_by) ≡ read_as stopped_by)
    × (from_record plain (record_of plain stopped_by ++ 0 ∷ []) ≡ bytes_after)
    × (from_record plain (plain.byte 2 ++ []) ≡ other_form 2)
standing_round_trip_example =
    standing_round_trip plain plain-Reads stopped_by 0 [] 2 (omega arith) (omega arith)
      (omega arith)
