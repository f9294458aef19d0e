-- ===== src/StreamShare/Shares.antt =====
-- src/stream_share.rs: the departures of one Stream, sharing as few reads of it as they keep up with.
-- A read is an `Arc` of the source: `reads` is the vector of them, by number, and `store` what each
-- points to. The map from a Stream to what its departures share is not kept, nor the bytes a read
-- begun late passes over, which Xmip Storage's chunk reader checks.
use xmip_core_runtime.Base.{
  ℕ, zero, suc, ◌+◌, ◌-◌, Bool, true, false, not, ◌&&◌, ◌||◌, List, [], ◌∷◌, ◌++◌, Option, none,
  some, Text, length, keep, get, insert, if◌then◌else◌, ltb, ◌==◌, nat_eq, u32_mod,
}
use xmip_core_runtime.Sending.Defs.{is_empty}
use xmip_core_runtime.StreamShare.OneRead.{
  Answer, Source, opened, reaches, join, leave, Turn, gives, ends, behind, fails, rests, again,
  chunk_loop,
}

pub record Shared : Type 0 where
  pub reads : List ℕ
  pub store : List (ℕ × Source)
  pub next : ℕ

abbrev pub readers_of : Option Source → ℕ
readers_of none = 0
readers_of (some s) = length s.readers

-- `leave` of src/stream_share/one_read.rs: a read none takes from is let go of.
unfoldable pub left : (on number : ℕ) → Shared → Shared
left on number s = elim (get on s.store) [
  | none ↦ s
  | some source ↦
      let t = leave number source in
      record s {
        store = insert on t s.store;
        reads = if is_empty t.readers then keep (λ id. not (id == on)) s.reads else s.reads;
      }
]

abbrev pub leaves : Option ℕ → ℕ → Shared → Shared
leaves none number s = s
leaves (some on) number s = left on number s

abbrev pub fits : ℕ → Option Source → Bool
fits place none = false
fits place (some source) = reaches source place

abbrev pub beats : ℕ → Option (ℕ × ℕ) → Bool
beats readers none = true
beats readers (some (n, _)) = ltb n readers

-- The read with the most departures of those that reach `place`, the first of them.
unfoldable pub best : ℕ → List (ℕ × Source) → Option (ℕ × ℕ) → List ℕ → Option (ℕ × ℕ)
best place store acc [] = acc
best place store acc (id ∷ ids) =
    let source = get id store in
    best place store
      (if fits place source && beats (readers_of source) acc
        then some (readers_of source, id)
        else acc)
      ids

unfoldable pub joins : (id number place now : ℕ) → Shared → Shared
joins id number place now s = elim (get id s.store) [
  | none ↦ s
  | some source ↦ record s { store = insert id (join number place now source) s.store }
]

-- A read of its own, its next chunk at `place`.
unfoldable pub opens : (number place now : ℕ) → Shared → Shared × ℕ
opens number place now s = (
  record {
    reads = s.reads ++ s.next ∷ [];
    store = insert s.next (join number place now (opened place)) s.store;
    next = s.next + 1;
  },
  s.next,
)

abbrev pub joins_best : (number place now : ℕ) → Shared → Option (ℕ × ℕ) → Shared × ℕ
joins_best number place now s none = opens number place now s
joins_best number place now s (some (_, id)) = (joins id number place now s, id)

-- `Shared::joined`.
unfoldable pub joined : Option ℕ → (number place now : ℕ) → Shared → Shared × ℕ
joined on number place now s =
    let t = leaves on number s in joins_best number place now t (best place t.store none t.reads)

unfoldable pub position : ℕ → List ℕ → Option ℕ
position on [] = none
position on (id ∷ ids) =
    let rest = position on ids in
    if id == on then some 0 else elim rest [ none ↦ none | some i ↦ some (suc i) ]

-- The first other read, from place `at` of the vector, that more take from and that reaches `place`;
-- one whose lock is held is passed over.
unfoldable pub better :
    (locked : ℕ → Bool) → (mine others place : ℕ) → List (ℕ × Source) → (at : ℕ) → List ℕ → Option ℕ
better locked mine others place store at [] = none
better locked mine others place store at (id ∷ ids) =
    let source = get id store in
    let n = readers_of source in
    let more = ltb others n || n == others && ltb at mine in
    let rest = better locked mine others place store (at + 1) ids in
    if not (at == mine) && not (locked id) && more && fits place source then some id else rest

abbrev pub moves_to : (on number place now : ℕ) → Shared → Option ℕ → Option (Shared × ℕ)
moves_to on number place now s none = none
moves_to on number place now s (some id) = some (left on number (joins id number place now s), id)

-- `Shared::moved`.
unfoldable pub moved :
    (locked : ℕ → Bool) → (on number place now : ℕ) → Shared → Option (Shared × ℕ)
moved locked on number place now s =
    if ltb (length s.reads) 2 then none else elim (position on s.reads) [
      | none ↦ none
      | some mine ↦
          moves_to on number place now s
            (better locked mine (readers_of (get on s.store) - 1) place s.store 0 s.reads)
    ]

-- What a read says to a departure of it.
pub data Given : Type 0 where
  chunk_of : Text → Given
  at_end : Given
  falls_behind : Given
  faulted : (why : Text) → Given
  waits : (left : ℕ) → Given
  too_far : Given
  unanswered : Given

abbrev pub put : ℕ → Shared → Source → Shared
put on s source = record s { store = insert on source s.store }

abbrev pub given : ℕ → Shared → Option Turn → Shared × Given
given on s none = (s, unanswered)
given on s (some (gives c t)) = (put on s t, chunk_of c)
given on s (some (ends t)) = (put on s t, at_end)
given on s (some (behind t)) = (put on s t, falls_behind)
given on s (some (fails why t)) = (put on s t, faulted why)
given on s (some (rests left t)) = (put on s t, waits left)
given on s (some (again t)) = (s, unanswered)

-- `OneRead::chunk` of the read `on`; its rounds are bounded by what it is asked for.
unfoldable pub asked : (ℕ → Answer) → (stall now on number place : ℕ) → Shared → Shared × Given
asked read stall now on number place s = elim (get on s.store) [
  | none ↦ (s, unanswered)
  | some source ↦ given on s (chunk_loop read (place + 3) stall number place now source)
]

pub record Lent : Type 0 where
  pub on : ℕ
  pub number : ℕ
  pub place : ℕ
  pub taken : ℕ
  pub held : Option Text
  pub at : ℕ

-- `StreamShare::reader`: departure `number` from the Stream's start.
unfoldable pub lent : (number now : ℕ) → Shared → Shared × Lent
lent number now s =
    let j = joined none number 0 now s in
    (j.0, record { on = j.1; number = number; place = 0; taken = 0; held = none; at = 0 })

pub record Take : Type 0 where
  pub shared : Shared
  pub on : ℕ
  pub given : Given

-- `Lent::take`'s loop, on fuel: behind, it joins another read, or one of its own. It runs as one step
-- here; `Among` has it with the others at work between its steps.
unfoldable pub take_loop : (ℕ → Answer) → (fuel stall now on number place : ℕ) → Shared → Take
take_loop read zero stall now on number place s = record { shared = s; on = on; given = unanswered }
take_loop read (suc fuel) stall now on number place s =
    let r = asked read stall now on number place s in
    let j = joined (some on) number place now r.0 in
    let rest = take_loop read fuel stall now j.1 number place j.0 in
    let far : Take = record { shared = r.0; on = on; given = too_far } in
    let told : Take = record { shared = r.0; on = on; given = r.1 } in
    elim r.1 [ falls_behind ↦ if ltb place u32_mod then rest else far | _ ↦ told ]

-- `Lent::take`, as one step.
unfoldable pub take :
    (ℕ → Answer) → (locked : ℕ → Bool) → (stall now on number place : ℕ) → Shared → Take
take read locked stall now on number place s = elim (moved locked on number place now s) [
  | none ↦ take_loop read 2 stall now on number place s
  | some (t, id) ↦ take_loop read 2 stall now id number place t
]
