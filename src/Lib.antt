-- ===== src/Lib.antt =====
-- The core of xmip-core-runtime, the runtime of an Xmip node: what it receives it publishes as
-- Messages, each with a Journey, and each Message that leads to a Send Port is sent from a queue of
-- the cluster's Ledger (Xmip Storage) by whichever node claims it first.
--
-- The parts, and how they meet:
--
--   Base           shared names, lists and association maps over native numbers, words, texts.
--   Journey        the data of the crate `journey` that the runtime reads: no code of this repository.
--   Tuning         src/tuning.rs and the limits of src/pool.rs: what a node is sized by.
--   Budget         src/budget.rs. Defs has the budget; System the holds that live and the actions of
--                  threads on them, each one critical section; Node the budgets a node builds.
--   Pool           src/pool.rs: a pool's state and its owner's and its threads' critical sections.
--   Sequence       src/work_step/keys.rs (Key), src/sequence.rs (Point, Heads), the group's test of
--                  src/sequence/group.rs and the order test of a pass, src/send_step/pass.rs; Late,
--                  the places a Message takes once its Stream heads, src/sequence/late.rs.
--   Sending        src/sending.rs: Send Ports, their Locations, and where a Subscriber leads.
--   Departure      src/departure.rs: one pass of a Message to its Port (Defs, Pass), and the passes
--                  of a send one after another, each from the attempts its Journey keeps (Passes).
--   SendStep       src/send_step.rs and src/send_step/: State, Admission (the door to the Send pool),
--                  Lined (a Publication's claims), Due (retries), Renewal (claims in flight), Dispatch
--                  (what is taken up and how a pass is settled), Pass (what a pass hands on and how
--                  it ends, src/send_step/pass.rs), MessageAct (an operator's Retry or Dismiss,
--                  src/send_step/message_act.rs), Reading and Scan (a scan of a queue,
--                  src/send_step/reading.rs, scan.rs and under_claim.rs; ScanLaws, ScanUnder, ScanClaims,
--                  ScanEnds).
--                  Bound has every interleaving.
--   StreamShare    src/stream_share/one_read.rs, one read of a Stream shared by its departures
--                  (OneRead, Window), and src/stream_share.rs: a Stream's reads, which a departure
--                  joins, moves between and leaves (Shares, Taking, Others; Among, with the others at work
--                  between the steps of a take), and the bytes it reads (Lent).
--   Pickup         src/pickup.rs and src/pickup/: a node's Subscriptions (Configured, State), a standing's
--                  record (Form), pause and resume (Act), what a Publication's Journeys come to
--                  (Holding), what the node reads of what is held (Released), and src/held_work.rs, a
--                  held Message picked up (HeldWork) and a round of them (Round). Places has one
--                  queue with all that happens to it, in any order.
--   Plane          src/plane/held.rs and src/plane/handle.rs, the callers proved and held by handle
--                  (Held, Callers, Gives) and what nodes said for them (Vouches), and src/plane/fresh.rs,
--                  the nonces issued and spent (Fresh).
--   Receiving      src/receiving/pace.rs and src/receiving/drain.rs.
--   Split          src/split.rs: a Message split into a Message per record (Defs, Laws, Outcome).
--   Wire           src/wire.rs: the C header's integers for enums that cross it both ways by a match.
--   Examples       the properties at concrete inputs.
--
-- The send step admits work through Admission, sends a Departure through Departure to a Port of
-- Sending, where Sequence says it may go, reading its Stream through StreamShare and holding bytes of
-- a Budget; its threads are a Pool's. Where a Publication's Message is held by a Subscription, Pickup
-- has it, and hands it to the send step under a place that Admission gives.
--
-- How code becomes definitions: a `&mut self` operation is a function from a state to a state; the
-- critical section under a lock is one step, and a step relation or a list of actions stands for
-- the threads. A wait on a condition variable is a look that answers that it waits. An instant and
-- a duration are numbers of nanoseconds on one clock, passed in where the code reads the clock. A
-- map or a set is an association list with one place a key. Two calls that let the lock go between
-- their critical sections are one step where they meet others: a read of what is held with the
-- taking of its answer (Pickup.Places), and a take, where bytes are read (StreamShare.Lent).
-- Machine words wrap as `% 2 ^ w` where the code adds plainly, and stop at their ends where it says
-- so.
--
-- Fuel: a pass has one unit more than its Port has Locations, for each turn that goes on leaves one
-- behind; a shared read's loop has three more than the place it is asked for, for each round reads
-- on by a chunk or finds the end. A departure's own loop has two rounds where it takes as one step:
-- behind, it joins a read that reaches it; and where the others run between its steps, one for each
-- that they may outrun, and one more. The loop that reads bytes has two where no chunk is empty. A
-- late placing has three rounds: its Group's place, its own, and the look that it waits for none. A
-- reading and a scan's loop have one unit more than the entries due, for each unit reads one. A
-- draw of a handle or a nonce is from a list, `none` where it ran out: a random source that goes on
-- is a longer list.
--
-- Parameters: what Xmip Storage, the policies, the transports and the clock answer, the hash of a
-- queue's name, identifiers minted, and the words of a Subscriber. Not modelled: the foreign function
-- interface, the plane's sockets and lines, configuration and start, the Ledger's encodings,
-- arrivals, the Dead Message Queue's Replay, the turns of Work Processes, and the send step's pages of
-- failed Messages.
pub mod Base
pub mod Tuning
pub mod Budget
pub mod Journey
pub mod Sequence
pub mod Sending
pub mod Departure
pub mod SendStep
pub mod StreamShare
pub mod Receiving
pub mod Pool
pub mod Pickup
pub mod Plane
pub mod Examples
pub mod Wire
pub mod Split
