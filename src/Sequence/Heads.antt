-- ===== src/Sequence/Heads.antt =====
-- src/sequence.rs: whether a member holds the first place of a sequence, with what the process
-- remembers of it. A page of Xmip Storage's `read_held(queue, 0, 1)` is a parameter; `none` is
-- Xmip Storage not answering.
use xmip_core_runtime.Base.{
  ℕ, Bool, true, false, ◌&&◌, ◌≡◌, ◌↔◌, List, [], ◌∷◌, Option, none, some, Eq, ◌==◌, nat_eq,
  nat_beq, length, contains, push_new, if◌then◌else◌, leb, arith,
}
use xmip_core_runtime.Journey.{Journey, Sequenced}

abbrev pub Place : Type 0
Place = ℕ × ℕ

abbrev pub place_beq : Place → Place → Bool
place_beq (p, m) (q, n) = nat_beq p q && nat_beq m n

pub place_beq_iff : (a b : Place) → (place_beq a b ≡ true) ↔ (a ≡ b)
place_beq_iff (p, m) (q, n) = (λ h. ground arith, λ h. ground arith)

instance abbrev pub place_eq : Eq Place
place_eq = record { test = place_beq; decides = place_beq_iff }

pub record Page : Type 0 where
  pub first : Option ℕ
  pub count : ℕ

abbrev pub remembered : ℕ
remembered = 65536

-- `Headed::remember`: the oldest are forgotten together.
unfoldable pub remember : Place → List Place → List Place
remember place known = push_new (if leb remembered (length known) then [] else known) place

-- `heads`, and what is remembered after it.
unfoldable pub heads : List Place → Option Page → ℕ → ℕ → Option Bool × List Place
heads known page queue member =
    if contains known (queue, member) then (some true, known) else elim page [
      | none ↦ (none, known)
      | some p ↦ elim p.first [
        | none ↦ (some (p.count == 0), known)
        | some first ↦
            if first == member
            then (some true, remember (queue, member) known)
            else (some false, known)
      ]
    ]

-- Each of `queues` asked in order, until one is not headed or not answered.
unfoldable pub all_head : (ℕ → Option Page) → ℕ → List ℕ → List Place → Option Bool × List Place
all_head pages member [] known = (some true, known)
all_head pages member (q ∷ qs) known =
    let r = heads known (pages q) q member in
    let rest = all_head pages member qs r.1 in
    elim r.0 [ some true ↦ rest | some false ↦ (some false, r.1) | none ↦ (none, r.1) ]

-- `stream_heads`.
unfoldable pub stream_heads : (ℕ → Option Page) → Journey → List Place → Option Bool × List Place
stream_heads pages j known = elim j.received [
  | none ↦ (some true, known)
  | some r ↦ all_head pages r.origin r.sequences known
]

-- `group_heads` of src/sequence/group.rs.
unfoldable pub group_heads : (ℕ → Option Page) → Journey → List Place → Option Bool × List Place
group_heads pages j known = elim j.group [
  | none ↦ (some true, known)
  | some g ↦ elim g.queue [
    | none ↦ (some true, known)
    | some queue ↦ heads known (pages queue) queue g.delivery
  ]
]

abbrev queues_of : List Sequenced → List ℕ
queues_of [] = []
queues_of (s ∷ ss) = s.queue ∷ queues_of ss

abbrev pub then_asks :
    Option Bool × List Place → (List Place → Option Bool × List Place) → Option Bool × List Place
then_asks (some true, known) f = f known
then_asks (some false, known) f = (some false, known)
then_asks (none, known) f = (none, known)

-- `heads` of src/send_step/pass.rs: a pass of a send goes on only where all its sequences are headed.
unfoldable pub pass_heads : (ℕ → Option Page) → Journey → List Place → Option Bool × List Place
unfolding stream_heads group_heads all_head
pass_heads pages j known = then_asks (stream_heads pages j known) λ known.
    then_asks (group_heads pages j known)
      λ known. all_head pages j.journey_id (queues_of j.sequences) known
