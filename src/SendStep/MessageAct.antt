-- ===== src/SendStep/MessageAct.antt =====
-- src/send_step/message_act.rs: an operator's Retry or Dismiss of a Message that failed. What Xmip
-- Storage answers each call is a parameter; which words name an act and a Journey is other crates', and
-- what is said of an outcome is not kept, nor its audit.
use xmip_core_runtime.Base.{
  ℕ, Bool, true, false, not, List, [], ◌∷◌, Option, none, some, Text, map, get, keep, text_eq,
  nat_eq, if◌then◌else◌, ◌==◌,
}
use xmip_core_runtime.Journey.{Journey, JourneyState, Sequenced}
use xmip_core_runtime.SendStep.State.{Claim}
use xmip_core_runtime.SendStep.Pass.{Written, taken, refused, unanswered}

pub data Act : Type 0 where
  retry dismiss : Act

-- `read_journey`'s answer, with the record's bytes; a record that is no Journey is `unreadable`.
pub data Kept : Type 0 where
  kept : (body : Text) → Journey → Kept
  unreadable missing unread : Kept

-- `claim`'s answer.
pub data Claiming : Type 0 where
  claimed : Claim → Claiming
  held_elsewhere unclaimed : Claiming

-- `persist::storage::HandOn`, what an act writes of it.
pub record HandOn : Type 0 where
  pub claim : Claim
  pub result : Journey
  pub leaves : List ℕ
  pub requeued : List ℕ
  pub cleared : List ℕ

pub record Storage : Type 0 where
  pub first : Kept
  pub claiming : Claiming
  pub again : Kept
  pub hand_on : HandOn → Written

-- `Ok`, in its two words, or `Err` by its first word.
pub data Said : Type 0 where
  done already refuses fails : Said

-- What an act did: the claim it took, whether it gave it back, what it handed on, the queue it asked.
pub record Acted : Type 0 where
  pub claim : Option Claim
  pub released : Bool
  pub handed : Option HandOn
  pub asked : Option ℕ
  pub said : Said

abbrev pub untouched : Said → Acted
untouched said = record { claim = none; released = false; handed = none; asked = none; said = said }

-- `acted`.
unfoldable pub acted : Act → Journey → Journey
acted retry j = record j {
  state = JourneyState.active;
  attempts = record { location = 0; tries = 0 };
}
acted dismiss j = record j { state = JourneyState.dismissed }

unfoldable pub hand_on : Act → Claim → (queue : ℕ) → (blocks : Bool) → Journey → HandOn
unfolding acted
hand_on retry claim queue blocks j = record {
  claim = claim;
  result = acted retry j;
  leaves = [];
  requeued = if not blocks then queue ∷ [] else [];
  cleared = queue ∷ [];
}
hand_on dismiss claim queue blocks j = record {
  claim = claim;
  result = acted dismiss j;
  leaves = queue ∷ map (λ (s : Sequenced). s.queue) j.sequences;
  requeued = [];
  cleared = queue ∷ [];
}

abbrev pub is_failed : JourneyState → Bool
is_failed JourneyState.failed = true
is_failed _ = false

abbrev pub is_dismissed : Act → JourneyState → Bool
is_dismissed dismiss JourneyState.dismissed = true
is_dismissed _ _ = false

-- `taken_by`: the Send Port, and whether a failure of it blocks.
unfoldable pub taken_by : (ports : List (Text × Bool)) → Journey → Option (Text × Bool)
taken_by ports j = if not (is_failed j.state) then none else elim j.send_port [
  | none ↦ none
  | some port ↦ elim (get port ports) [ none ↦ none | some blocks ↦ some (port, blocks) ]
]

-- `unchanged`: why it is refused, where it is.
unfoldable pub changed : (seen : Text) → Kept → Option Said
changed seen (kept now j) = if now == seen then none else some refuses
changed seen unreadable = some refuses
changed seen missing = some refuses
changed seen unread = some fails

-- What the hand-on's answer comes to.
unfoldable pub written : Claim → HandOn → (queue : ℕ) → Written → Acted
written claim h queue taken = record {
  claim = some claim;
  released = false;
  handed = some h;
  asked = some queue;
  said = done;
}
written claim h queue refused = record {
  claim = some claim;
  released = false;
  handed = some h;
  asked = none;
  said = fails;
}
written claim h queue (unanswered why) = record {
  claim = some claim;
  released = true;
  handed = some h;
  asked = none;
  said = fails;
}

-- The act under its claim, on what `unchanged` says of the Message.
unfoldable pub on_change :
    Storage → Act → (queue : ℕ) → (blocks : Bool) → Journey → Claim → Option Said → Acted
unfolding written
on_change s act queue blocks j claim (some said) = record {
  claim = some claim;
  released = true;
  handed = none;
  asked = none;
  said = said;
}
on_change s act queue blocks j claim none =
    let h = hand_on act claim queue blocks j in written claim h queue (s.hand_on h)

unfoldable pub under_claim :
    Storage → Act → (queue : ℕ) → (blocks : Bool) → (seen : Text) → Journey → Claim → Acted
unfolding on_change
under_claim s act queue blocks seen j claim =
    on_change s act queue blocks j claim (changed seen s.again)

unfoldable pub claims :
    Storage → Act → (queue : ℕ) → (blocks : Bool) → (seen : Text) → Journey → Claiming → Acted
claims s act queue blocks seen j (claimed claim) = under_claim s act queue blocks seen j claim
claims s act queue blocks seen j held_elsewhere = untouched refuses
claims s act queue blocks seen j unclaimed = untouched fails

unfoldable pub on_port :
    Storage → (queue : Text → ℕ) → Act → (seen : Text) → Journey → Option (Text × Bool) → Acted
on_port s queue act seen j none = untouched refuses
on_port s queue act seen j (some (port, blocks)) =
    claims s act (queue port) blocks seen j s.claiming

unfoldable pub on_kept :
    Storage → (ports : List (Text × Bool)) → (queue : Text → ℕ) → Act → Kept → Acted
unfolding on_port
on_kept s ports queue act (kept body j) =
    if is_dismissed act j.state
    then untouched already
    else on_port s queue act body j (taken_by ports j)
on_kept s ports queue act unreadable = untouched refuses
on_kept s ports queue act missing = untouched refuses
on_kept s ports queue act unread = untouched fails

-- `SendStep::act`.
unfoldable pub act : Storage → (ports : List (Text × Bool)) → (queue : Text → ℕ) → Act → Acted
unfolding on_kept
act s ports queue a = on_kept s ports queue a s.first

-- `acted_on`: what a scan passed of the Journey it forgets, and reads at its place again.
unfoldable pub forgets : (journey : ℕ) → List (ℕ × ℕ) → List (ℕ × ℕ)
forgets journey passed = keep (λ (p : ℕ × ℕ). not (p.0 == journey)) passed
