-- ===== src/Pickup/Act.antt =====
-- src/pickup.rs: a node's Subscriptions taken up with their standing, where what one matches leads,
-- and an operator's pause or resume. Xmip Storage's answers are parameters, as are the name-based
-- identifier of a Subscription's URI and which acts a Subscription takes; an audit record is a `Bool`.
use xmip_core_runtime.Base.{
  ℕ, ◌*◌, Bool, true, false, not, ◌++◌, List, [], ◌∷◌, Option, none, some, Text, text_eq, codes,
  map, ltb, if◌then◌else◌,
}
use xmip_core_runtime.Sending.Defs.{Subscriber, send_port, is_empty}
use xmip_core_runtime.Pickup.Configured.{ConfiguredSubscription, name}
use xmip_core_runtime.Pickup.State.{Standing, Entry, State, change, entry}
use xmip_core_runtime.Pickup.Form.{Codec, Reading, read_as, from_record}

-- `AGAIN`.
abbrev pub again_after : ℕ
again_after = 50 * 1000000

unfoldable pub uri : (node name : Text) → Text
uri node n = node ++ (codes "/subscription/" ++ n)

-- `read_administration`'s answer: a record's body, no record, or an error.
pub data Administered : Type 0 where
  body : Text → Administered
  missing unread : Administered

-- `read_administration` and the count `read_held` gives, of a queue.
pub record Kept : Type 0 where
  pub administered : ℕ → Administered
  pub count : ℕ → Option ℕ

unfoldable pub standing_of : Reading → Option Standing
standing_of (read_as s) = some s
standing_of _ = none

-- The standing read back; `none` is the error that keeps the node from starting.
unfoldable pub standing_read : Codec → (now : ℕ) → Administered → Option Standing
unfolding standing_of
standing_read c now (body bytes) = standing_of (from_record c bytes)
standing_read c now missing = some (record { paused = false; by = []; since_unix_nanos = now })
standing_read c now unread = none

unfoldable pub taken_up : ConfiguredSubscription → (queue : ℕ) → Standing → (held : ℕ) → Entry
taken_up configured queue s held = record {
  configured = configured;
  queue = queue;
  standing = s;
  held = held;
  picked_up = 0;
  cursor = 0;
  taken = [];
  pending = ltb 0 held;
  not_before = none;
}

abbrev pub with_count : ConfiguredSubscription → ℕ → Option Standing → Option ℕ → Option Entry
with_count configured queue none held = none
with_count configured queue (some s) none = none
with_count configured queue (some s) (some held) = some (taken_up configured queue s held)

abbrev pub all_taken_up : Option Entry → Option State → Option State
all_taken_up none s = none
all_taken_up (some e) none = none
all_taken_up (some e) (some s) = some (e ∷ s)

unfoldable pub open_one :
    Codec
    → (named : Text → ℕ) → Kept
    → (node : Text) → (now : ℕ) → ConfiguredSubscription
    → Option Entry
unfolding uri standing_read taken_up name
open_one c named kept node now configured =
    let queue = named (uri node (name configured)) in
    with_count configured queue (standing_read c now (kept.administered queue)) (kept.count queue)

-- `Pickup::open`'s state.
unfoldable pub open_all :
    Codec
    → (named : Text → ℕ) → Kept
    → (node : Text) → (now : ℕ) → List ConfiguredSubscription
    → Option State
unfolding open_one
open_all c named kept node now [] = some []
open_all c named kept node now (one ∷ configured) =
    all_taken_up (open_one c named kept node now one) (open_all c named kept node now configured)

-- `observe::Act`, by the two a Subscription takes.
pub data Act : Type 0 where
  pause resume other : Act

-- `Ok` in its four words, with how many a resume says are held, or `Err` in its three.
pub data Said : Type 0 where
  paused was_paused was_not_paused : Said
  resumed : (held : ℕ) → Said
  not_taken not_configured fails : Said

pub record Acted : Type 0 where
  pub state : State
  pub written : Option (ℕ × Standing)
  pub woken : Bool
  pub audited : Bool
  pub said : Said

abbrev pub unchanged : State → Said → Acted
unchanged s said = record { state = s; written = none; woken = false; audited = false; said = said }

unfoldable pub standing_by : (pauses : Bool) → (who : Text) → (now : ℕ) → Standing
standing_by pauses who now = record {
  paused = pauses;
  by = if pauses then who else [];
  since_unix_nanos = now;
}

-- The entry under its new standing; a resume has its queue read from its first place.
unfoldable pub stand : Standing → Entry → Entry
stand s e =
    if s.paused
    then record e { standing = s }
    else record e { standing = s; cursor = 0; pending = true }

unfoldable pub said_of : (pauses : Bool) → (held : ℕ) → Said
said_of pauses held = if pauses then paused else resumed held

-- What Xmip Storage's answer to the standing written comes to.
unfoldable pub on_written : Text → State → Entry → Standing → (took : Bool) → Acted
unfolding stand said_of change
on_written n s e st true = record {
  state = change n (stand st) s;
  written = some (e.queue, st);
  woken = not st.paused;
  audited = true;
  said = said_of st.paused e.held;
}
on_written n s e st false = record {
  state = s;
  written = some (e.queue, st);
  woken = false;
  audited = false;
  said = fails;
}

unfoldable pub on_standing :
    (takes : ℕ → Standing → Bool)
    → (now : ℕ) → Text
    → (who : Text) → State
    → Entry
    → Act
    → (paused : Bool) → Acted
unfolding on_written standing_by
on_standing takes now n who s e pause true = unchanged s was_paused
on_standing takes now n who s e pause false =
    let st = standing_by true who now in on_written n s e st (takes e.queue st)
on_standing takes now n who s e resume false = unchanged s was_not_paused
on_standing takes now n who s e resume true =
    let st = standing_by false who now in on_written n s e st (takes e.queue st)
on_standing takes now n who s e other was =
    let st = standing_by false who now in on_written n s e st (takes e.queue st)

unfoldable pub on_entry :
    (takes : ℕ → Standing → Bool)
    → (now : ℕ) → Text
    → (who : Text) → State
    → Act
    → Option Entry
    → Acted
unfolding on_standing
on_entry takes now n who s a none = unchanged s not_configured
on_entry takes now n who s a (some e) = on_standing takes now n who s e a e.standing.paused

unfoldable pub on_act :
    (takes : ℕ → Standing → Bool) → (now : ℕ) → Text → (who : Text) → State → Option Act → Acted
unfolding on_entry entry
on_act takes now n who s none = unchanged s not_taken
on_act takes now n who s (some a) = on_entry takes now n who s a (entry n s)

-- `Pickup::act`; `allows` is `Noun::Subscription.act`.
unfoldable pub act :
    (allows : Act → Option Act)
    → (takes : ℕ → Standing → Bool) → (now : ℕ) → Text
    → Act
    → (who : Text) → State
    → Acted
unfolding on_act
act allows takes now n a who s = on_act takes now n who s (allows a)

unfoldable pub ports_of : Option Entry → List Text
ports_of none = []
ports_of (some e) = e.configured.ports

-- `Pickup::reaches`.
unfoldable pub reaches : State → Text → Subscriber → List Subscriber
unfolding ports_of entry
reaches s n destination =
    let ports = ports_of (entry n s) in
    if is_empty ports then destination ∷ [] else map send_port ports
