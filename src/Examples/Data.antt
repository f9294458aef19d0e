-- ===== src/Examples/Data.antt =====
-- Small Journeys, Ports, sends and states that the examples share.
use xmip_core_runtime.Base.{ℕ, ◌+◌, true, false, List, [], ◌∷◌, Option, none, some, codes}
use xmip_core_runtime.Journey.{Journey, JourneyState}
use xmip_core_runtime.Sending.Defs.{
  Subscriber, send_port, Sending, Failover, DesignedSendPort, Port, Sends,
}
use xmip_core_runtime.Departure.Defs.{Progress, Failure, Edge, World}
use xmip_core_runtime.SendStep.State.{State, Claim, Owned, Departure, Due, empty, confirmed_until}
use xmip_core_runtime.SendStep.Lined.{Config}

abbrev pub journey_at : ℕ → Journey
journey_at id = record {
  journey_id = id;
  state = JourneyState.active;
  attempts = record { location = 0; tries = 0 };
  received = some (record {
    location = codes "in";
    port = codes "orders";
    origin = 9;
    sequences = [];
    skips = false;
  });
  group = none;
  send_port = some (codes "out");
  current_work_process = none;
  subscription = none;
  previous_journey_id = none;
  sequences = [];
}

abbrev pub first_location : Sending
first_location = record { name = codes "out"; target = codes "a" }

abbrev pub second_location : Sending
second_location = record { name = codes "spare"; target = codes "b" }

abbrev pub out_design : DesignedSendPort
out_design = record {
  name = codes "out";
  send_locations = codes "out" ∷ codes "spare" ∷ [];
  retry = some (record { attempts = 1; backoff = codes "1s" });
  failover = some Failover.next;
}

abbrev pub out_port : Port
out_port = record {
  name = codes "out";
  locations = first_location ∷ second_location ∷ [];
  policy = some out_design;
  points = [];
}

abbrev pub sends : Sends
sends = record {
  locations = first_location ∷ second_location ∷ [];
  groups = [];
  ports = out_design ∷ [];
  points = [];
}

abbrev pub edge_of : Option Failure → Edge
edge_of answer = record {
  permitted = true;
  decision = [];
  holds_back = false;
  kept = none;
  owned = true;
  let_go = false;
  answer = answer;
  presented = none;
}

-- Every Location refuses, and a retry may mend it.
abbrev pub refusing : World
refusing = record {
  owned = λ _. true;
  edge = λ _ _. edge_of (some (record { retryable = true; message = codes "refused" }));
}

-- The claim is gone as the first turn begins.
abbrev pub unowned : World
unowned = record { owned = λ _. false; edge = λ _ _. edge_of none }

abbrev pub fresh : Progress
fresh = record { sent = false; location = 0; tries = 0; given_up = none; fence = 0 }

abbrev pub claim_at : ℕ → Claim
claim_at id = record {
  journey = id;
  holder = codes "node";
  token = id + 100;
  until_unix_nanos = 0;
  fence = 1;
}

abbrev pub owned_at : ℕ → Owned
owned_at id = record { claim = claim_at id; port = codes "out"; standing = confirmed_until 30 }

abbrev pub departure_at : ℕ → Departure
departure_at id = record {
  journey = journey_at id;
  to = send_port (codes "out");
  queue = 7;
  claim = claim_at id;
  progress = fresh;
  until = 30;
}

abbrev pub due_at : ℕ → Due
due_at at = record { port = codes "out"; at = some at; waiting = 1; noted = none }

-- One Message owned, a queue starved, another's retry due, and a scan asked for.
abbrev pub busy : State
busy = record empty {
  owned = (1, owned_at 1) ∷ [];
  starved = 8 ∷ [];
  asked = 3 ∷ [];
  served = 5 ∷ [];
  rescan = true;
  due = (7, due_at 40) ∷ [];
}

abbrev pub config : Config
config = record { node = codes "node"; queue = λ _. 7; lease = 30; most = 2; ids = λ k. k + 100 }

abbrev pub departing : List (Journey × Subscriber)
departing =
    (journey_at 1, send_port (codes "out"))
    ∷ (journey_at 2, send_port (codes "nowhere"))
    ∷ (journey_at 3, send_port (codes "out"))
    ∷ []

abbrev pub journeys : List Journey
journeys = journey_at 1 ∷ journey_at 2 ∷ journey_at 3 ∷ []
