-- ===== src/Pickup/RoundLaws.antt =====
-- What a round of pickups leaves behind: src/held_work.rs.
use xmip_core_runtime.Base.{
  ℕ, ◌≡◌, ◌⊎◌, refl, sym, ◌∙◌, ap, subst, inl, inr, Bool, true, false, not, ◌||◌, List, [], ◌∷◌,
  some, Text, text_eq, text_beq_iff, all, contains, leb, ◌==◌, nat_eq, nat_beq_iff, any-append,
  arith, Bool-cases, Option-cases,
}
use xmip_core_runtime.SendStep.State.{State as SendState}
use xmip_core_runtime.SendStep.Admission.{without}
use xmip_core_runtime.Pickup.State.{Entry, State, entry, change}
use xmip_core_runtime.Pickup.StateLaws.{entry-change}
use xmip_core_runtime.Pickup.Reading.{contains-without}
use xmip_core_runtime.Pickup.Released.{
  Released, moved, passed, again, settle, settled, one_picked_up, read_again,
}
use xmip_core_runtime.Pickup.HeldWork.{
  Node, Answers, Ended, moved_on, passed_over, stalled, PickedUp, pick_up,
}
use xmip_core_runtime.Pickup.HeldWorkLaws.{PicksUp, pick_up-PicksUp}
use xmip_core_runtime.Pickup.Round.{Turn, on_ended, turn}

-- What a round does to the pickup's state at one that it picked up, and at one it did not.
abbrev pub After : (now : ℕ) → Released → State → Turn → Type 0
After now r s t =
    ((t.picked ≡ true) × ((t.state ≡ moved r s) ⊎ (t.state ≡ passed r s)))
    ⊎ ((t.picked ≡ false) × (t.state ≡ again now r s) × (contains t.stopped r.subscription ≡ true))

on_ended-After :
    (node : Node) (a : Answers) (now : ℕ) (r : Released) (stopped : List Text) (s : State)
    (send : SendState) (p : PickedUp) (ended : Ended)
    → PicksUp node a r now s send p ended
    → After now r s (on_ended now r stopped p ended)
unfolding on_ended
on_ended-After node a now r stopped s send p moved_on (claim, j, here, c, f, h, t, st, hands) =
    inl (refl, inl st)
on_ended-After node a now r stopped s send p passed_over (none_on, st, stays) = inl (refl, inr st)
on_ended-After node a now r stopped s send p stalled (st, stays) = inr (
  refl,
  ap (again now r) st,
  ground (
    arith,
    any-append (λ (t : Text). t == r.subscription) stopped (r.subscription ∷ []),
    (text_beq_iff r.subscription r.subscription).1 refl,
  ),
)

module _ (node : Node) (answers : Released → Answers) (now : ℕ) where
  pub turn-After :
      (r : Released) (stopped : List Text) (s : State) (send : SendState)
      → After now r s (turn node answers now r stopped s send)
  unfolding turn
  turn-After r stopped s send = elim (Bool-cases (contains stopped r.subscription)) [
    | inl out ↦ rw out (inr (refl, refl, out))
    | inr still ↦
        let p = pick_up node (answers r) r now s send in
        rw still (
          on_ended-After node (answers r) now r stopped s send p p.ended
            (pick_up-PicksUp node (answers r) r now s send).1)
  ]

  on_ended-stopped :
      (n : Text) (r : Released) (stopped : List Text) (p : PickedUp) (ended : Ended)
      → contains stopped n ≡ true
      → contains (on_ended now r stopped p ended).stopped n ≡ true
  unfolding on_ended
  on_ended-stopped n r stopped p moved_on c = c
  on_ended-stopped n r stopped p passed_over c = c
  on_ended-stopped n r stopped p stalled c =
      ground (arith, any-append (λ (t : Text). t == n) stopped (r.subscription ∷ []))

  pub turn-stopped :
      (n : Text) (r : Released) (stopped : List Text) (s : State) (send : SendState)
      → contains stopped n ≡ true
      → contains (turn node answers now r stopped s send).stopped n ≡ true
  unfolding turn
  turn-stopped n r stopped s send c = elim (Bool-cases (contains stopped r.subscription)) [
    | inl out ↦ rw out c
    | inr still ↦
        let p = pick_up node (answers r) r now s send in
        rw still (on_ended-stopped n r stopped p p.ended c)
  ]

  pub turn-picked :
      (n : Text) (r : Released) (stopped : List Text) (s : State) (send : SendState)
      → contains stopped n ≡ true
      → (not (r.subscription == n) || not (turn node answers now r stopped s send).picked) ≡ true
  unfolding turn
  turn-picked n r stopped s send c = elim (Bool-cases (r.subscription == n)) [
    | inl same ↦
        let out : contains stopped r.subscription ≡ true =
          subst (λ (t : Text). contains stopped t ≡ true)
            (sym ((text_beq_iff r.subscription n).0 same)) c in
        rw out (ground (arith, same))
    | inr apart ↦ ground (arith, apart)
  ]

abbrev pub Later : Text → List (Released × Bool) → Type 0
Later n log = all (λ (q : Released × Bool). not (q.0.subscription == n) || not q.1) log ≡ true

-- After one that is to be read again none of its Subscription is picked up.
abbrev pub InOrder : List (Released × Bool) → Type 0
InOrder [] = Unit {0}
InOrder ((r, picked) ∷ log) = ((picked ≡ true) ⊎ Later r.subscription log) × InOrder log

-- The entry a name finds after a change at another name's entry, or at its own.
change_inv :
    (m n : Text) (f : Entry → Entry) (s : State) (e : Entry)
    → ((x : Entry) → (f x).configured ≡ x.configured)
    → entry n (change m f s) ≡ some e
    → (x : Entry) × (entry n s ≡ some x)
      × ((((m == n) ≡ true) × (f x ≡ e)) ⊎ (((m == n) ≡ false) × (x ≡ e)))
change_inv m n f s e kept found = elim (Option-cases (entry n s)) [
  | inl missing ↦ absurd (ground (arith, entry-change m n f s kept, missing, found))
  | inr (x, there) ↦ elim (Bool-cases (m == n)) [
    | inl same ↦
        (x, there, inl (same, ground (arith, entry-change m n f s kept, there, found, same)))
    | inr apart ↦
        (x, there, inr (apart, ground (arith, entry-change m n f s kept, there, found, apart)))
  ]
]

-- A place that is not taken, and one that is to be read again.
abbrev pub Free : ℕ → Entry → Type 0
Free p e = contains e.taken p ≡ false

abbrev pub ToRead : ℕ → Entry → Type 0
ToRead p e = (leb e.cursor p ≡ true) × (e.pending ≡ true)

-- How the entry of a name came out of a turn: less is taken, and what is to be read again still is.
abbrev pub Onward : Entry → Entry → Type 0
Onward x e = ((p : ℕ) → Free p x → Free p e) × ((p : ℕ) → ToRead p x → ToRead p e)

settled_configured :
    (done : Entry → Entry) (q : ℕ) (x : Entry)
    → ((y : Entry) → (done y).configured ≡ y.configured)
    → (settled done q x).configured ≡ x.configured
unfolding settled
settled_configured done q x kept = kept (record x { taken = without q x.taken })

settled-Onward :
    (done : Entry → Entry) (q : ℕ) (x : Entry)
    → ((y : Entry)
        → ((done y).taken ≡ y.taken)
          × ((done y).cursor ≡ y.cursor)
          × ((done y).pending ≡ y.pending))
    → Free q (settled done q x) × Onward x (settled done q x)
unfolding settled
settled-Onward done q x same =
    let (t, c, n) = same (record x { taken = without q x.taken }) in
    (
      ground (arith, t, contains-without q x.taken q, nat_beq_iff q q),
      (
        λ p free. ground (arith, t, contains-without q x.taken p, free),
        λ p waits. (ground (arith, c, waits.0), n ∙ waits.1),
      ),
    )

read_again-Onward :
    (now q : ℕ) (x : Entry)
    → Free q (read_again now q x) × ToRead q (read_again now q x) × Onward x (read_again now q x)
unfolding read_again
read_again-Onward now q x = (
  ground (arith, contains-without q x.taken q, nat_beq_iff q q),
  (ground arith, refl),
  (
    λ p free. ground (arith, contains-without q x.taken p, free),
    λ p waits. (ground (arith, waits.0), refl),
  ),
)

again_configured : (now q : ℕ) (x : Entry) → (read_again now q x).configured ≡ x.configured
unfolding read_again
again_configured now q x = refl

-- A turn at one of them, seen at the entry a name finds after it.
abbrev pub Turned : (r : Released) → (n : Text) → State → (picked : Bool) → Entry → Type 0
Turned r n s picked e =
    (x : Entry) × (entry n s ≡ some x)
    × Onward x e
    × (((r.subscription == n) ≡ false)
        ⊎ (Free r.held.sequence e × ((picked ≡ true) ⊎ ToRead r.held.sequence e)))

settle-Turned :
    (done : Entry → Entry) (r : Released) (n : Text) (s : State) (e : Entry)
    → ((y : Entry)
        → ((done y).taken ≡ y.taken)
          × ((done y).cursor ≡ y.cursor)
          × ((done y).pending ≡ y.pending))
    → ((y : Entry) → (done y).configured ≡ y.configured)
    → entry n (settle done r s) ≡ some e
    → Turned r n s true e
unfolding settle
settle-Turned done r n s e same kept found = turned (
    change_inv r.subscription n (settled done r.held.sequence) s e
      (λ y. settled_configured done r.held.sequence y kept) found)
  where
    turned :
        (x : Entry) × (entry n s ≡ some x)
          × ((((r.subscription == n) ≡ true) × (settled done r.held.sequence x ≡ e))
              ⊎ (((r.subscription == n) ≡ false) × (x ≡ e)))
        → Turned r n s true e
    turned (x, there, inl (own, is)) =
        let (free, onward) = settled-Onward done r.held.sequence x same in
        subst (λ (y : Entry). Turned r n s true y) is (x, there, onward, inr (free, inl refl))
    turned (x, there, inr (other, is)) =
        subst (λ (y : Entry). Turned r n s true y) is (x, there, (λ p f. f, λ p w. w), inl other)

again-Turned :
    (now : ℕ) (r : Released) (n : Text) (s : State) (e : Entry)
    → entry n (again now r s) ≡ some e
    → Turned r n s false e
unfolding again
again-Turned now r n s e found = turned (
    change_inv r.subscription n (read_again now r.held.sequence) s e
      (λ y. again_configured now r.held.sequence y) found)
  where
    turned :
        (x : Entry) × (entry n s ≡ some x)
          × ((((r.subscription == n) ≡ true) × (read_again now r.held.sequence x ≡ e))
              ⊎ (((r.subscription == n) ≡ false) × (x ≡ e)))
        → Turned r n s false e
    turned (x, there, inl (own, is)) =
        let (free, waits, onward) = read_again-Onward now r.held.sequence x in
        subst (λ (y : Entry). Turned r n s false y) is (x, there, onward, inr (free, inr waits))
    turned (x, there, inr (other, is)) =
        subst (λ (y : Entry). Turned r n s false y) is (x, there, (λ p f. f, λ p w. w), inl other)

pub After-Turned :
    (now : ℕ) (r : Released) (n : Text) (s : State) (t : Turn) (e : Entry)
    → After now r s t
    → entry n t.state ≡ some e
    → Turned r n s t.picked e
unfolding moved passed one_picked_up
After-Turned now r n s t e (inl (picked, inl st)) found =
    subst (λ (b : Bool). Turned r n s b e) (sym picked)
      (settle-Turned one_picked_up r n s e (λ y. (refl, refl, refl)) (λ y. refl)
        (subst (λ (u : State). entry n u ≡ some e) st found))
After-Turned now r n s t e (inl (picked, inr st)) found =
    subst (λ (b : Bool). Turned r n s b e) (sym picked)
      (settle-Turned (λ y. y) r n s e (λ y. (refl, refl, refl)) (λ y. refl)
        (subst (λ (u : State). entry n u ≡ some e) st found))
After-Turned now r n s t e (inr (not_picked, st, out)) found =
    subst (λ (b : Bool). Turned r n s b e) (sym not_picked)
      (again-Turned now r n s e (subst (λ (u : State). entry n u ≡ some e) st found))
