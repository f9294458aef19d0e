-- ===== src/Pickup/State.antt =====
-- src/pickup/state.rs: what a node's pickup keeps under its one lock. An instant is a count of
-- nanoseconds on the node's one clock; the places taken are a list with one place a number, whose
-- order nothing reads.
use xmip_core_runtime.Base.{
  ℕ, zero, suc, Bool, true, not, ◌&&◌, List, [], ◌∷◌, Option, none, some, Text, text_eq, map, any,
  leb, if◌then◌else◌, ◌==◌,
}
use xmip_core_runtime.Sending.Defs.{Subscriber}
use xmip_core_runtime.Pickup.Configured.{ConfiguredSubscription, name}

-- `since_unix_nanos`, an `i64`, is its bit pattern.
pub record Standing : Type 0 where
  pub paused : Bool
  pub by : Text
  pub since_unix_nanos : ℕ

pub record Entry : Type 0 where
  pub configured : ConfiguredSubscription
  pub queue : ℕ
  pub standing : Standing
  pub held : ℕ
  pub picked_up : ℕ
  pub cursor : ℕ
  pub taken : List ℕ
  pub pending : Bool
  pub not_before : Option ℕ

-- `State`, its one field.
abbrev pub State : Type 0
State = List Entry

-- `Option::is_none_or(|at| at <= now)`.
unfoldable pub due : Option ℕ → (now : ℕ) → Bool
due none now = true
due (some at) now = leb at now

-- `Entry::ready`.
unfoldable pub entry_ready : Entry → (now : ℕ) → Bool
unfolding due
entry_ready e now = e.pending && not e.standing.paused && due e.not_before now

-- `State::ready`.
unfoldable pub ready : State → (now : ℕ) → Bool
unfolding entry_ready
ready s now = any (λ e. entry_ready e now) s

abbrev pub one_further : Option ℕ → Option ℕ
one_further none = none
one_further (some i) = some (suc i)

-- `State::index`.
unfoldable pub index : Text → State → Option ℕ
unfolding name
index n [] = none
index n (e ∷ s) =
    let rest = one_further (index n s) in if name e.configured == n then some zero else rest

-- The entry of an index, changed in its place.
unfoldable pub modify : ℕ → (Entry → Entry) → State → State
modify i f [] = []
modify zero f (e ∷ s) = f e ∷ s
modify (suc i) f (e ∷ s) = e ∷ modify i f s

abbrev pub at_index : Option ℕ → (Entry → Entry) → State → State
at_index none f s = s
at_index (some i) f s = modify i f s

-- `if let Some(index) = state.index(name)` with the entry there changed.
unfoldable pub change : Text → (Entry → Entry) → State → State
unfolding index modify
change n f s = at_index (index n s) f s

-- The entry a name finds.
unfoldable pub entry : Text → State → Option Entry
unfolding name
entry n [] = none
entry n (e ∷ s) = if name e.configured == n then some e else entry n s

pub data PauseState : Type 0 where
  paused active : PauseState

-- `observe::Subscription`, as a node publishes one. Its filter's text is the crate `path`'s.
pub record Published : Type 0 where
  pub node : Text
  pub name : Text
  pub application : Text
  pub destination : Subscriber
  pub file : Text
  pub configuration : Text
  pub state : PauseState
  pub by : Text
  pub picked_up : ℕ
  pub held : ℕ
  pub since_unix_nanos : ℕ

unfoldable pub published_one : (node : Text) → Entry → Published
unfolding name
published_one node e = record {
  node = node;
  name = name e.configured;
  application = e.configured.application;
  destination = e.configured.subscription.destination;
  file = e.configured.file;
  configuration = e.configured.entry;
  state = if e.standing.paused then paused else active;
  by = e.standing.by;
  picked_up = e.picked_up;
  held = e.held;
  since_unix_nanos = e.standing.since_unix_nanos;
}

-- `State::standing`.
unfoldable pub standing : (node : Text) → State → List Published
unfolding published_one
standing node s = map (published_one node) s
