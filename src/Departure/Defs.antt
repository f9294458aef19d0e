-- ===== src/Departure/Defs.antt =====
-- src/departure.rs: one pass of a Message to its Send Port. What the policies, the Ledger, the claim
-- and the far end answer as a Location is tried is the parameter `Edge`; the wait for room in the
-- byte budget, which changes no answer, is src/budget.rs's and is left out here.
-- The level an identity was presented from is not kept.
use xmip_core_runtime.Base.{
  ℕ, zero, suc, ◌+◌, Bool, true, false, not, ◌&&◌, List, [], ◌∷◌, ◌++◌, Option, none, some, Text,
  codes, length, get_elem?, is_some, if◌then◌else◌, ltb, add32, u32_mod,
}
use xmip_core_runtime.Journey.{Attempts}
use xmip_core_runtime.Sending.Defs.{
  Subscriber, send_port, send_group, work_process, Sending, Port, tries, fails_over, Destination,
  ports, process, Sends, to,
}

pub data Departed : Type 0 where
  sent : Subscriber → (presented : Option Text) → Departed
  no_such_destination : Subscriber → Departed
  process_not_run : Subscriber → Departed
  not_permitted : Subscriber → (decision : Text) → Departed
  failed : Subscriber → (retryable : Bool) → (detail : Text) → Departed

unfoldable pub is_sent : Departed → Bool
is_sent (sent _ _) = true
is_sent _ = false

pub record Progress : Type 0 where
  pub sent : Bool
  pub location : ℕ
  pub tries : ℕ
  pub given_up : Option Text
  pub fence : ℕ

unfoldable pub of : Attempts → Progress
of a = record { sent = false; location = a.location; tries = a.tries; given_up = none; fence = 0 }

-- A Location past a `u32` is kept as the largest.
unfoldable pub attempts : Progress → Attempts
attempts p = record {
  location = if ltb p.location u32_mod then p.location else 4294967295;
  tries = p.tries;
}

unfoldable pub waiting : Progress → Bool
waiting p = not p.sent && not (is_some p.given_up)

pub record Failure : Type 0 where
  pub retryable : Bool
  pub message : Text

-- What is answered as one Location is tried, in the order it is asked.
pub record Edge : Type 0 where
  pub permitted : Bool
  pub decision : Text
  pub holds_back : Bool
  pub kept : Option Text  -- why its Publication was not kept, where it was not
  pub owned : Bool  -- as the transport is about to be called
  pub let_go : Bool  -- the claim found gone as the first byte would go
  pub answer : Option Failure
  pub presented : Option Text

-- `None` is a claim found gone: nothing was sent, and nothing more is tried.
unfoldable pub depart_one : Edge → Subscriber → Option Departed
depart_one e sub =
    if not e.permitted
    then some (not_permitted sub e.decision)
    else elim (if e.holds_back then none else e.kept) [
      | some detail ↦ some (failed sub true detail)
      | none ↦ if not e.owned then none else if e.let_go then none else elim e.answer [
        | none ↦ some (sent sub e.presented)
        | some why ↦ some (failed sub why.retryable why.message)
      ]
    ]

-- What a departure came to, in words; a Subscriber's own words are `shown`.
unfoldable pub said_one : (Subscriber → Text) → Departed → Text
said_one shown (sent sub _) = codes "sent to " ++ shown sub
said_one shown (no_such_destination sub) = codes "no Send Location for " ++ shown sub
said_one shown (process_not_run sub) = shown sub ++ codes " is run by no runtime yet"
said_one shown (not_permitted sub decision) =
    codes "not permitted to " ++ shown sub ++ codes ": " ++ decision
said_one shown (failed sub _ detail) = codes "not sent to " ++ shown sub ++ codes ": " ++ detail

unfoldable pub joined : (Subscriber → Text) → Departed → List Departed → Text
joined shown d [] = said_one shown d
joined shown d (e ∷ es) = said_one shown d ++ codes "; " ++ joined shown e es

unfoldable pub said : (Subscriber → Text) → List Departed → Text
unfolding joined said_one
said shown [] = codes "nowhere to go"
said shown (d ∷ ds) = joined shown d ds

-- One turn of `depart_port`'s loop: it returns, or goes on at the next Location.
pub data Turn : Type 0 where
  returns : Progress → List Departed → Turn
  goes_on : Progress → Departed → Turn

abbrev pub again : Departed → Bool
again (failed _ retryable _) = retryable
again _ = false

unfoldable pub after_try : (Subscriber → Text) → Port → Progress → Departed → Turn
after_try shown port standing one =
    let tried = add32 standing.tries 1 in
    if is_sent one
    then returns (record standing { sent = true; tries = tried }) (one ∷ [])
    else if again one && ltb tried (tries port)
    then returns (record standing { tries = tried }) (one ∷ [])
    else if fails_over port && ltb (standing.location + 1) (length port.locations)
    then goes_on (record standing { location = standing.location + 1; tries = 0 }) one
    else returns (record standing { tries = tried; given_up = some (said shown (one ∷ [])) })
        (one ∷ [])

-- `owned` is the claim's answer as the turn begins, `world` the answers at each Location.
unfoldable pub turn : (Subscriber → Text) → Port → Bool → (Sending → Edge) → Progress → Turn
turn shown port owned world standing =
    if not owned then returns standing [] else elim (get_elem? port.locations standing.location) [
      | none ↦
          returns
            (record standing {
              given_up = some (
                  codes "no Send Location for "
                  ++ shown (send_port port.name)
                  ++ codes " on this node");
            })
            (no_such_destination (send_port port.name) ∷ [])
      | some sending ↦ elim (depart_one (world sending) (send_port port.name)) [
        | none ↦ returns standing []
        | some one ↦ after_try shown port standing one
      ]
    ]

-- The claim's answer and the world's, by the turn they are asked in.
pub record World : Type 0 where
  pub owned : ℕ → Bool
  pub edge : ℕ → Sending → Edge

abbrev pub push : Departed → Option (Progress × List Departed) → Option (Progress × List Departed)
push one none = none
push one (some (p, ds)) = some (p, one ∷ ds)

-- The loop, from turn `i`, on fuel; `none` is fuel that ran out.
unfoldable pub depart_loop :
    (Subscriber → Text) → Port → World → ℕ → ℕ → Progress → Option (Progress × List Departed)
depart_loop shown port w zero i standing = none
depart_loop shown port w (suc fuel) i standing =
    elim (turn shown port (w.owned i) (w.edge i) standing) [
      | returns p ds ↦ some (p, ds)
      | goes_on p one ↦ push one (depart_loop shown port w fuel (i + 1) p)
    ]

-- A turn that goes on leaves a Location behind, so the Locations bound the turns.
unfoldable pub depart_port :
    (Subscriber → Text) → Port → World → Progress → Option (Progress × List Departed)
depart_port shown port w standing =
    depart_loop shown port w (suc (length port.locations)) 0 standing

unfoldable pub depart_ports :
    (Subscriber → Text)
    → Subscriber
    → Destination
    → World
    → Progress
    → Option (Progress × List Departed)
depart_ports shown (send_port n) (ports []) w standing = some (standing, [])
depart_ports shown (send_port n) (ports (p ∷ ps)) w standing = depart_port shown p w standing
depart_ports shown sub process w standing = some (standing, process_not_run sub ∷ [])
depart_ports shown sub d w standing = some (
  record standing {
    given_up = some (codes "no Send Port Group " ++ name sub ++ codes " is declared on this node");
  },
  no_such_destination sub ∷ [],
)
  where
    name : Subscriber → Text
    name (send_port n) = n
    name (send_group n) = n
    name (work_process n) = n

unfoldable pub depart_to :
    (Subscriber → Text) → Sends → World → Subscriber → Progress → Option (Progress × List Departed)
depart_to shown s w sub standing =
    if waiting standing then depart_ports shown sub (to s sub) w standing else some (standing, [])
