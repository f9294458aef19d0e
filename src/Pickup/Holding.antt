-- ===== src/Pickup/Holding.antt =====
-- src/pickup/holding.rs: which Messages of a Publication's Journeys a Subscription holds, with the
-- Journeys it opens (src/ledger/publication.rs). What the holder keeps beside each is a value: the code
-- asks for it once, where one is held. How a Journey is begun is the crate `journey`'s.
use xmip_core_runtime.Base.{
  ℕ, suc, Bool, true, false, not, ◌&&◌, List, [], ◌∷◌, ◌++◌, Option, none, some, Text, text_eq, map,
  keep, any, if◌then◌else◌, ◌==◌, nat_eq, add64,
}
use xmip_core_runtime.Journey.{Journey}
use xmip_core_runtime.Sending.Defs.{Subscriber, send_port, send_group, work_process}
use xmip_core_runtime.Sequence.Point.{Hold}
use xmip_core_runtime.Pickup.State.{Entry, State, index, entry, modify}
use xmip_core_runtime.Pickup.Act.{reaches}

pub record Opened : Type 0 where
  pub journey : Journey
  pub subscription : Text
  pub to : Subscriber
  pub group : Option Text

-- A `route` evaluation: the Subscription asked, where it leads, and whether it matched.
pub record Evaluation : Type 0 where
  pub subscription_id : Text
  pub destination : Subscriber
  pub matched : Bool

unfoldable pub through : Subscriber → Option Text
through (send_group g) = some g
through (send_port p) = none
through (work_process p) = none

-- `ChainCause`.
pub data ChainCause : Type 0 where
  process : (subscription process : Text) → ChainCause
  subscription : Text → ChainCause

unfoldable pub cause : Text → Subscriber → ChainCause
cause n (work_process p) = process n p
cause n (send_port p) = subscription n
cause n (send_group g) = subscription n

unfoldable pub led : Subscriber → Journey → Journey
led (send_port p) j = record j { send_port = some p }
led (send_group g) j = j
led (work_process p) j = j

-- One Journey for each place it reaches, its identifier the next that is minted.
unfoldable pub open_each :
    (begun : ℕ → ChainCause → Journey)
    → (mint : ℕ → ℕ) → (from : ℕ) → Evaluation
    → List Subscriber
    → List Opened
unfolding led cause through
open_each begun mint from e [] = []
open_each begun mint from e (to ∷ reached) =
    record {
      journey = led to (begun (mint from) (cause e.subscription_id e.destination));
      subscription = e.subscription_id;
      to = to;
      group = through e.destination;
    }
    ∷ open_each begun mint (suc from) e reached

abbrev minted : (from : ℕ) → List Opened → ℕ
minted from [] = from
minted from (o ∷ opened) = minted (suc from) opened

abbrev pub open_matched : (rest : ℕ → List Opened) → (from : ℕ) → List Opened → List Opened
open_matched rest from now = now ++ rest (minted from now)

-- `opened` of src/ledger/publication.rs; `mint` is what the identifier generator gives in turn.
unfoldable pub opened :
    State
    → (begun : ℕ → ChainCause → Journey) → (mint : ℕ → ℕ) → List Evaluation
    → (from : ℕ) → List Opened
unfolding open_each reaches
opened s begun mint [] from = []
opened s begun mint (e ∷ evaluations) from =
    let reached = reaches s e.subscription_id e.destination in
    open_matched (opened s begun mint evaluations) from
      (if e.matched then open_each begun mint from e reached else [])

pub record Holding : Type 0 where
  pub holds : List Hold
  pub held : List (ℕ × Text)
  pub picked : List ℕ

-- Whether the Message of a Subscription found here is held.
unfoldable pub is_held : (every : Bool) → Entry → Bool
is_held every e = not (not every && (not e.standing.paused && e.held == 0))

unfoldable pub hold_of : (body : Text) → Entry → Opened → Hold
hold_of body e o = record { queue = e.queue; journey = o.journey.journey_id; body = body }

-- One Journey judged before the rest, by the index and the entry its Subscription's name finds.
unfoldable pub hold_one :
    (every : Bool) → (body : Text) → Opened → Option ℕ → Option Entry → Holding → Holding
unfolding is_held hold_of
hold_one every body o none found rest = rest
hold_one every body o (some i) none rest = rest
hold_one every body o (some i) (some e) rest =
    if is_held every e
    then record rest {
      holds = hold_of body e o ∷ rest.holds;
      held = (i, o.subscription) ∷ rest.held;
    }
    else record rest { picked = i ∷ rest.picked }

-- `Pickup::held`.
unfoldable pub held_of : State → (every : Bool) → (body : Text) → List Opened → Holding
unfolding hold_one index entry
held_of s every body [] = record { holds = []; held = []; picked = [] }
held_of s every body (o ∷ opened) =
    hold_one every body o (index o.subscription s) (entry o.subscription s)
      (held_of s every body opened)

-- `Pickup::holding`.
unfoldable pub holding : State → (body : Text) → List Opened → Holding
unfolding held_of
holding s body opened = held_of s false body opened

unfoldable pub names : Holding → Text → Bool
names h n = any (λ (p : ℕ × Text). p.1 == n) h.held

abbrev pub lead : Opened → Journey × Subscriber
lead o = (o.journey, o.to)

-- `Holding::departing`.
unfoldable pub departing : Holding → List Opened → List (Journey × Subscriber)
unfolding names
departing h opened = map lead (keep (λ (o : Opened). not (names h o.subscription)) opened)

unfoldable pub picks : List ℕ → State → State
unfolding modify
picks [] s = s
picks (i ∷ picked) s = picks picked (modify i (λ e. record e { picked_up = add64 e.picked_up 1 }) s)

-- One more is held, which an active Subscription has to read.
unfoldable pub told : Entry → Entry
told e =
    if e.standing.paused
    then record e { held = add64 e.held 1 }
    else record e { held = add64 e.held 1; pending = true }

unfoldable pub tells : List (ℕ × Text) → State → State
unfolding told modify
tells [] s = s
tells ((i, n) ∷ held) s = tells held (modify i told s)

-- `Pickup::published`.
unfoldable pub published : Holding → State → State
unfolding picks tells
published h s = tells h.held (picks h.picked s)
