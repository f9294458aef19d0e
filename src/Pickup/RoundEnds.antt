-- ===== src/Pickup/RoundEnds.antt =====
-- A whole round of pickups: src/held_work.rs.
use xmip_core_runtime.Base.{
  ◌≡◌, ◌⊎◌, refl, ap, inl, inr, Bool, true, false, List, [], ◌∷◌, some, Text, text_eq, map,
  contains, ◌==◌, ℕ, arith,
}
use xmip_core_runtime.SendStep.State.{State as SendState}
use xmip_core_runtime.Pickup.State.{Entry, State, entry}
use xmip_core_runtime.Pickup.Released.{Released}
use xmip_core_runtime.Pickup.HeldWork.{Node, Answers}
use xmip_core_runtime.Pickup.Round.{turn, round}
use xmip_core_runtime.Pickup.RoundLaws.{
  Free, ToRead, Onward, Later, InOrder, turn-After, turn-stopped, turn-picked, After-Turned,
}

-- Each of a Subscription's is no longer taken, and was picked up or is to be read again.
abbrev pub Left : Text → List (Released × Bool) → Entry → Type 0
Left n [] e = Unit {0}
Left n ((r, picked) ∷ log) e =
    (((r.subscription == n) ≡ false)
      ⊎ (Free r.held.sequence e × ((picked ≡ true) ⊎ ToRead r.held.sequence e)))
    × Left n log e

left_by :
    (r : Released) (n : Text) (picked : Bool) (x e : Entry)
    → Onward x e
    → ((r.subscription == n) ≡ false)
      ⊎ (Free r.held.sequence x × ((picked ≡ true) ⊎ ToRead r.held.sequence x))
    → ((r.subscription == n) ≡ false)
      ⊎ (Free r.held.sequence e × ((picked ≡ true) ⊎ ToRead r.held.sequence e))
left_by r n picked x e onward (inl other) = inl other
left_by r n picked x e (frees, waits) (inr (free, inl p)) = inr (frees r.held.sequence free, inl p)
left_by r n picked x e (frees, waits) (inr (free, inr w)) =
    inr (frees r.held.sequence free, inr (waits r.held.sequence w))

module _ (node : Node) (answers : Released → Answers) (now : ℕ) where
  round-Left :
      (n : Text) (e : Entry) (rs : List Released) (stopped : List Text) (s : State)
      (send : SendState)
      → entry n (round node answers now rs stopped s send).0 ≡ some e
      → Left n (round node answers now rs stopped s send).1 e
        × ((x : Entry) × (entry n s ≡ some x) × Onward x e)
  unfolding round
  round-Left n e [] stopped s send found = (tt, (e, found, (λ p f. f, λ p w. w)))
  round-Left n e (r ∷ rs) stopped s send found =
      let t = turn node answers now r stopped s send in
      let (left, (x, there, (frees, waits))) = round-Left n e rs t.stopped t.state t.send found in
      let (y, before, (frees', waits'), one) =
        After-Turned now r n s t x (turn-After node answers now r stopped s send) there in
      (
        (left_by r n t.picked x e (frees, waits) one, left),
        (y, before, (λ p f. frees p (frees' p f), λ p w. waits p (waits' p w))),
      )

  round-Later :
      (n : Text) (rs : List Released) (stopped : List Text) (s : State) (send : SendState)
      → contains stopped n ≡ true
      → Later n (round node answers now rs stopped s send).1
  unfolding round
  round-Later n [] stopped s send out = refl
  round-Later n (r ∷ rs) stopped s send out =
      let t = turn node answers now r stopped s send in
      ground (
        arith,
        turn-picked node answers now n r stopped s send out,
        round-Later n rs t.stopped t.state t.send
            (turn-stopped node answers now n r stopped s send out),
      )

  round-InOrder :
      (rs : List Released) (stopped : List Text) (s : State) (send : SendState)
      → InOrder (round node answers now rs stopped s send).1
  unfolding round
  round-InOrder [] stopped s send = tt
  round-InOrder (r ∷ rs) stopped s send =
      let t = turn node answers now r stopped s send in
      let rest = round-InOrder rs t.stopped t.state t.send in
      elim (turn-After node answers now r stopped s send) [
        | inl (picked, st) ↦ (inl picked, rest)
        | inr (not_picked, st, out) ↦
            (inr (round-Later r.subscription rs t.stopped t.state t.send out), rest)
      ]

  round-all :
      (rs : List Released) (stopped : List Text) (s : State) (send : SendState)
      → map (λ (q : Released × Bool). q.0) (round node answers now rs stopped s send).1 ≡ rs
  unfolding round
  round-all [] stopped s send = refl
  round-all (r ∷ rs) stopped s send =
      let t = turn node answers now r stopped s send in
      ap (λ (l : List Released). r ∷ l) (round-all rs t.stopped t.state t.send)

-- However Xmip Storage answers, a round takes each of what it was let go of once, in its order, and
-- once one of a Subscription is not picked up none of that Subscription is after it. After the round
-- none of a Subscription's is taken any more, and each that was not picked up is at the place the node
-- reads its queue from or past it, with its queue to be read.
pub round_leaves :
    (node : Node) (answers : Released → Answers) (now : ℕ) (rs : List Released) (s : State)
    (send : SendState) (n : Text) (e : Entry)
    → entry n (round node answers now rs [] s send).0 ≡ some e
    → (map (λ (q : Released × Bool). q.0) (round node answers now rs [] s send).1 ≡ rs)
      × InOrder (round node answers now rs [] s send).1
      × Left n (round node answers now rs [] s send).1 e
round_leaves node answers now rs s send n e found = (
  round-all node answers now rs [] s send,
  round-InOrder node answers now rs [] s send,
  (round-Left node answers now n e rs [] s send found).0,
)
