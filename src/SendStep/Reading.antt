-- ===== src/SendStep/Reading.antt =====
-- src/send_step/reading.rs: what a scan reads of a queue, a page at a time. What Xmip Storage answers a
-- page and where the page after an entry starts are parameters; `none` is Xmip Storage not answering.
use xmip_core_runtime.Base.{
  ℕ, ◌+◌, ◌-◌, Bool, List, [], ◌∷◌, ◌++◌, Option, none, some, Text, length, keep, is_some,
  if◌then◌else◌, ◌==◌, nat_eq,
}
use xmip_core_runtime.SendStep.State.{Due}
use xmip_core_runtime.SendStep.Due.{found_at}

abbrev pub page_most : ℕ
page_most = 64

-- `persist::storage::Held`.
pub record Held : Type 0 where
  pub journey : ℕ
  pub body : Text
  pub sequence : ℕ
  pub failed : Bool
  pub due_unix_nanos : Option ℕ

-- `persist::storage::DueQueue`.
pub record DueQueue : Type 0 where
  pub held : List Held
  pub retrying : ℕ
  pub next_due_in : Option ℕ
  pub due_in : Held → Option ℕ

-- `Read`.
pub record Read : Type 0 where
  pub held : Held
  pub due_in : Option ℕ
  pub asked : ℕ

abbrev pub From : Type 0
From = ℕ × ℕ

pub record Reading : Type 0 where
  pub read : List Read
  pub from : Option From
  pub retrying : ℕ
  pub due_retries : ℕ

-- `Reading::of`.
abbrev pub begun : Reading
begun = record { read = []; from = some (0, 0); retrying = 0; due_retries = 0 }

unfoldable pub due_retries : DueQueue → ℕ
due_retries p = length (keep (λ (h : Held). is_some h.due_unix_nanos) p.held)

-- `read`.
unfoldable pub entries : DueQueue → (asked : ℕ) → List Held → List Read
entries p asked [] = []
entries p asked (h ∷ hs) =
    record { held = h; due_in = p.due_in h; asked = asked } ∷ entries p asked hs

abbrev pub last : List Held → Option Held
last [] = none
last (h ∷ []) = some h
last (h ∷ k ∷ hs) = last (k ∷ hs)

-- Where the next page starts: nowhere after a page that is not full.
unfoldable pub next_from : (Held → From) → List Held → Option From
next_from after held =
    if length held == page_most
    then (elim (last held) [ none ↦ none | some h ↦ some (after h) ])
    else none

abbrev pub part_waits : (asked : ℕ) → DueQueue → Due → Due
part_waits asked p waits = elim p.next_due_in [
  | none ↦ waits
  | some left ↦ found_at (asked + left) waits
]

-- A page answered.
unfoldable pub paged : (Held → From) → (asked : ℕ) → DueQueue → Reading → Due → Reading × Due
unfolding next_from entries due_retries
paged after asked p r waits = (
  record r {
    from = next_from after p.held;
    retrying = p.retrying;
    due_retries = r.due_retries + due_retries p;
    read = r.read ++ entries p asked p.held;
  },
  part_waits asked p waits,
)

abbrev pub page_of : (Held → From) → Reading → Due → Option (ℕ × DueQueue) → Option (Reading × Due)
page_of after r waits none = none
page_of after r waits (some (asked, p)) = some (paged after asked p r waits)

abbrev pub page_from :
    (From → Option (ℕ × DueQueue))
    → (Held → From)
    → Option From
    → Reading
    → Due
    → Option (Reading × Due)
page_from read_due after none r waits = some (r, waits)
page_from read_due after (some from) r waits = page_of after r waits (read_due from)

-- `page`, where nothing read is left.
unfoldable pub filled :
    (From → Option (ℕ × DueQueue)) → (Held → From) → Reading → Due → Option (Reading × Due)
unfolding paged
filled read_due after r waits = elim r.read [
  | [] ↦ page_from read_due after r.from r waits
  | x ∷ xs ↦ some (r, waits)
]

abbrev pub popped : Option (Reading × Due) → Option (Option Read × (Reading × Due))
popped none = none
popped (some (r, waits)) = elim r.read [
  | [] ↦ some (none, (r, record waits { waiting = r.retrying - r.due_retries }))
  | x ∷ xs ↦ some (some x, (record r { read = xs }, waits))
]

-- `Reading::next`.
unfoldable pub next :
    (From → Option (ℕ × DueQueue))
    → (Held → From)
    → Reading
    → Due
    → Option (Option Read × (Reading × Due))
unfolding filled
next read_due after r waits = popped (filled read_due after r waits)
