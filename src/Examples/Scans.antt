-- ===== src/Examples/Scans.antt =====
-- A scan, a reading and a late placing at concrete inputs.
use xmip_core_runtime.Base.{
  ℕ, ◌+◌, ◌≡◌, ◌⊎◌, contains, nat_eq, refl, true, false, List, [], ◌∷◌, Option, none, some, Text,
  codes, arith, length,
}
use xmip_core_runtime.Journey.{Journey}
use xmip_core_runtime.Sending.Defs.{send_port, Sends}
use xmip_core_runtime.Sequence.Point.{Point, PointKind, OnFailure}
use xmip_core_runtime.Sequence.Heads.{Page, Place}
use xmip_core_runtime.Sequence.Late.{Round, heading}
use xmip_core_runtime.Sequence.LateLaws.{EndsBy, heading_ends}
use xmip_core_runtime.SendStep.State.{empty}
use xmip_core_runtime.SendStep.Due.{of}
use xmip_core_runtime.SendStep.MessageAct.{claimed}
use xmip_core_runtime.SendStep.Reading.{Held, DueQueue, From, Read, begun}
use xmip_core_runtime.SendStep.ReadingLaws.{Serves, read_all, helds, reads_due}
use xmip_core_runtime.SendStep.Scan.{World, HeldPage, waiting, Scan, scan_loop, all_read, pool_full}
use xmip_core_runtime.SendStep.ScanEnds.{Sees, scan_ends}
use xmip_core_runtime.Examples.Data.{journey_at, claim_at, sends}

abbrev held_at : ℕ → Held
held_at id = record {
  journey = id;
  body = [];
  sequence = id;
  failed = false;
  due_unix_nanos = none;
}

abbrev due_now : List Held
due_now = held_at 1 ∷ held_at 2 ∷ []

abbrev page : DueQueue
page = record { held = due_now; retrying = 0; next_due_in = none; due_in = λ h. none }

abbrev read_due : From → Option (ℕ × DueQueue)
read_due from = some (5, page)

abbrev after : Held → From
after h = (0, h.sequence + 1)

abbrev rest : From → List Held
rest from = due_now

page-Serves : Serves read_due after rest
page-Serves = record {
  page = λ from. (5, page, refl, refl);
  onward = λ from h e l. absurd (omega (arith, e));
}

reads_due_example :
    (es : List Read) × (read_all read_due after 3 begun (of (codes "out")) ≡ some es)
    × (helds es ≡ rest (0, 0))
reads_due_example = reads_due read_due after rest 3 (of (codes "out")) page-Serves (omega arith)

-- Members of a Group go one delivery at a time.
abbrev group_point : Point
group_point = record {
  kind = PointKind.send_port_group;
  name = codes "spread";
  set = record { name = codes "all"; keys = [] };
  on_failure = OnFailure.block;
}

abbrev grouped_sends : Sends
grouped_sends = record sends { points = group_point ∷ [] }

abbrev member : Journey
member = record (journey_at 1) {
  group = some (record {
    name = codes "spread";
    delivery = 5;
    queue = none;
    skips = false;
    members = 1 ∷ 2 ∷ [];
  });
}

abbrev pages : ℕ → Option Page
pages queue = some (record { first = some 5; count = 1 })

abbrev rounds : ℕ → Round
rounds n = record { pages = pages; promoted = some (λ name. none); hand_on = λ holds j. some true }

abbrev named : Text → ℕ
named t = length t

abbrev nothing_known : List Place
nothing_known = []

heading_ends_example :
    EndsBy named
      (codes "c")
      grouped_sends
      (send_port (codes "out"))
      pages
      rounds
      member
      nothing_known
      (heading named
        (codes "c")
        grouped_sends
        (send_port (codes "out"))
        pages
        rounds
        member
        nothing_known)
heading_ends_example =
    heading_ends named (codes "c") grouped_sends (send_port (codes "out")) pages rounds member
      nothing_known

-- Two Messages due in a queue whose Port names a Correlation, and a pool of two threads.
abbrev port_point : Point
port_point = record group_point { kind = PointKind.send_port; name = codes "out" }

abbrev held_page : ℕ → HeldPage
held_page at = record { asked = 6; first = some (held_at at); due_in = λ h. none }

abbrev world : World
world = record {
  most = 2;
  lease = 30;
  named = named;
  cluster = codes "c";
  sends = record sends { points = port_point ∷ [] };
  read_due = read_due;
  after = after;
  asked = λ id. 5;
  claim = λ id. claimed (claim_at id);
  read_held = λ claim queue at. some (held_page at);
  read = λ claim id. some (waiting (journey_at id));
  known = λ id. [];
  pages = λ id. pages;
  rounds = λ id. rounds;
}

abbrev first_scan : Scan
first_scan = record { state = empty; waits = of (codes "out"); present = []; found = [] }

scan_ends_example :
    let x = scan_loop world (send_port (codes "out")) 7 true 3 begun first_scan in
    ((x.1 ≡ pool_full) × (contains x.0.state.starved 7 ≡ true))
    ⊎ ((x.1 ≡ all_read) × Sees x.0.present (rest (0, 0)))
scan_ends_example =
    scan_ends world (send_port (codes "out")) 7 true rest 3 first_scan page-Serves (omega arith)
