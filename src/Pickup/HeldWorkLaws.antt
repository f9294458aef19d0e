-- ===== src/Pickup/HeldWorkLaws.antt =====
-- What picking up a held Message comes to, however Xmip Storage answers: src/held_work.rs.
use xmip_core_runtime.Base.{
  ◌++◌, ◌∙◌, contains, contains-push_new_self, ℕ, ◌+◌, ◌-◌, ◌≤◌, max, ◌≡◌, ◌⊎◌, refl, inl, inr,
  Bool, true, false, not, ◌&&◌, [], ◌∷◌, none, some, length, ◌==◌, nat_eq, arith, Bool-cases,
}
use native.Mathlib.Decide.{dec_lt}
use xmip_core_runtime.Journey.{Journey}
use xmip_core_runtime.Sending.Defs.{Subscriber, serves, sequential}
use xmip_core_runtime.SendStep.State.{Claim, State as SendState}
use xmip_core_runtime.SendStep.Admission.{admit, room, withdraw, freed, own}
use xmip_core_runtime.SendStep.Lined.{hand, ask}
use xmip_core_runtime.Pickup.State.{State}
use xmip_core_runtime.Pickup.Released.{
  Released, Claiming, claimed, elsewhere, unclaimed, HandedOn, taken, lapsed, unanswered, HandOn,
  moved, passed, unreadable,
}
use xmip_core_runtime.Pickup.HeldWork.{
  Found, waiting, failed, finished, not_readable, not_answered, Node, Answers, Ended, moved_on,
  passed_over, stalled, PickedUp, leads_to, admitted_here, move_of, departure_of, on_handed,
  move_on, on_found, on_claiming, pick_up,
}

-- What is handed to the send step, where anything is, and otherwise the queue it is asked to read.
abbrev pub HandsTo :
    Node → Claim → Journey → Released → (asked : ℕ) → SendState → SendState → Type 0
HandsTo node claim j r asked before after =
    ((after.handed ≡ before.handed ++ departure_of node claim j r asked ∷ [])
      × (length before.owned + before.admitted + 1 ≤ max node.most 1))
    ⊎ ((after.handed ≡ before.handed)
        × (after.owned ≡ before.owned)
        × (contains after.asked (node.queue (leads_to j r)) ≡ true))

abbrev pub MovesOn : Node → Answers → Released → ℕ → State → SendState → PickedUp → Type 0
MovesOn node a r asked s send p =
    (claim : Claim) × (j : Journey) × (here : Bool) × (a.claiming ≡ claimed claim)
    × (a.found ≡ waiting j)
    × (p.handed_on ≡ some (move_of node claim j r here))
    × (a.hand_on (move_of node claim j r here) ≡ taken)
    × (p.state ≡ moved r s)
    × HandsTo node claim j r asked send p.send

abbrev pub NotHeld : Answers → PickedUp → Type 0
NotHeld a p =
    (p.given_back ≡ true)
    ⊎ (a.claiming ≡ elsewhere)
    ⊎ (a.claiming ≡ unclaimed)
    ⊎ ((h : HandOn) × (p.handed_on ≡ some h) × (a.hand_on h ≡ lapsed))

abbrev pub Stays : Answers → SendState → PickedUp → Type 0
Stays a send p = (p.send.handed ≡ send.handed) × (p.send.owned ≡ send.owned) × NotHeld a p

abbrev pub PicksUp : Node → Answers → Released → ℕ → State → SendState → PickedUp → Ended → Type 0
PicksUp node a r asked s send p ended = elim ended [
  | moved_on ↦ MovesOn node a r asked s send p
  | passed_over ↦ (p.handed_on ≡ none) × (p.state ≡ passed r s) × Stays a send p
  | stalled ↦ (p.state ≡ s) × Stays a send p
]

-- A place of the Send pool, admitted where there is room for it, or none.
abbrev Admits : Node → SendState → SendState × ℕ → Type 0
Admits node send x =
    (x.0.handed ≡ send.handed)
    × (x.0.owned ≡ send.owned)
    × ((((x.1 == 1) ≡ true)
          × (x.0.admitted ≡ send.admitted + 1)
          × (length send.owned + send.admitted + 1 ≤ max node.most 1))
        ⊎ (((x.1 == 1) ≡ false) × (x.0.admitted ≡ send.admitted)))

admit-Admits : (node : Node) (send : SendState) → Admits node send (admit node.most 1 send)
unfolding admit room
admit-Admits node send = elim (dec_lt (length send.owned + send.admitted) (max node.most 1)) [
  | yes free ↦ (refl, refl, inl (ground arith, ground arith, omega arith))
  | no full ↦ (refl, refl, inr (ground arith, ground arith))
]

admitted_here-Admits :
    (node : Node) (to : Subscriber) (send : SendState)
    → Admits node send (admitted_here node to send)
unfolding admitted_here
admitted_here-Admits node to send =
    elim (Bool-cases (serves node.sends to && not (sequential node.sends to))) [
      | inl here ↦ rw here (admit-Admits node send)
      | inr away ↦ rw away (refl, refl, inr (refl, refl))
    ]

withdraw_keeps :
    (n : ℕ) (send : SendState)
    → ((withdraw n send).handed ≡ send.handed)
      × ((withdraw n send).owned ≡ send.owned)
      × ((withdraw n send).admitted ≡ send.admitted - n)
unfolding withdraw freed
withdraw_keeps n send = (ground arith, ground arith, ground arith)

module _ (node : Node) (a : Answers) (r : Released) (asked : ℕ) (s : State) (send : SendState)
    (claim : Claim) (c : a.claiming ≡ claimed claim) where
  -- The places that stay admitted, and what the pickup ends in.
  abbrev Ends : PickedUp → Type 0
  Ends p = (p.send.admitted ≡ send.admitted) × PicksUp node a r asked s send p p.ended

  module _ (j : Journey) (f : a.found ≡ waiting j) (x : SendState) where
    handed_here :
        x.handed ≡ send.handed
        → x.owned ≡ send.owned
        → x.admitted ≡ send.admitted + 1
        → length send.owned + send.admitted + 1 ≤ max node.most 1
        → (o : HandedOn) → a.hand_on (move_of node claim j r true) ≡ o
        → Ends (on_handed node claim j r asked s x true o)
    unfolding on_handed hand own
    handed_here h o m b taken e =
        (ground (arith, m), (claim, j, true, c, f, refl, e, refl, inl (ground (arith, h), b)))
    handed_here h o m b lapsed e =
        let w = withdraw_keeps 1 x in
        (
          w.2 ∙ ground (arith, m),
          (refl, (w.0 ∙ h, w.1 ∙ o, inr (inr (inr (move_of node claim j r true, refl, e))))),
        )
    handed_here h o m b unanswered e =
        let w = withdraw_keeps 1 x in
        (w.2 ∙ ground (arith, m), (refl, (w.0 ∙ h, w.1 ∙ o, inl refl)))

    handed_away :
        x.handed ≡ send.handed
        → x.owned ≡ send.owned
        → x.admitted ≡ send.admitted
        → (o : HandedOn) → a.hand_on (move_of node claim j r false) ≡ o
        → Ends (on_handed node claim j r asked s x false o)
    unfolding on_handed ask
    handed_away h o m taken e = (
      m,
      (
        claim,
        j,
        false,
        c,
        f,
        refl,
        e,
        refl,
        inr (h, o, contains-push_new_self x.asked (node.queue (leads_to j r))),
      ),
    )
    handed_away h o m lapsed e =
        let w = withdraw_keeps 0 x in
        (
          w.2 ∙ ground (arith, m),
          (refl, (w.0 ∙ h, w.1 ∙ o, inr (inr (inr (move_of node claim j r false, refl, e))))),
        )
    handed_away h o m unanswered e =
        let w = withdraw_keeps 0 x in
        (w.2 ∙ ground (arith, m), (refl, (w.0 ∙ h, w.1 ∙ o, inl refl)))

  move_on-Ends :
      (j : Journey)
      → a.found ≡ waiting j
      → (x : SendState × ℕ) → Admits node send x
      → Ends (move_on node a.hand_on claim j r asked s x)
  unfolding move_on
  move_on-Ends j f (x, places) (h, o, inl (one, m, b)) =
      rw (move_on, one) (handed_here j f x h o m b _ refl)
  move_on-Ends j f (x, places) (h, o, inr (none_here, m)) =
      rw (move_on, none_here) (handed_away j f x h o m _ refl)

  on_found-Ends :
      (found : Found) → a.found ≡ found → Ends (on_found node a.hand_on claim r asked s send found)
  unfolding on_found unreadable
  on_found-Ends (waiting j) f =
      move_on-Ends j f (admitted_here node (leads_to j r) send)
        (admitted_here-Admits node (leads_to j r) send)
  on_found-Ends failed f = (refl, (refl, refl, (refl, refl, inl refl)))
  on_found-Ends finished f = (refl, (refl, refl, (refl, refl, inl refl)))
  on_found-Ends not_readable f = (refl, (refl, refl, (refl, refl, inl refl)))
  on_found-Ends not_answered f = (refl, (refl, (refl, refl, inl refl)))

on_claiming-PicksUp :
    (node : Node) (a : Answers) (r : Released) (asked : ℕ) (s : State) (send : SendState)
    (o : Claiming)
    → a.claiming ≡ o
    → let p = on_claiming node a r asked s send o in
      (p.send.admitted ≡ send.admitted) × PicksUp node a r asked s send p p.ended
unfolding on_claiming
on_claiming-PicksUp node a r asked s send (claimed claim) c =
    on_found-Ends node a r asked s send claim c a.found refl
on_claiming-PicksUp node a r asked s send elsewhere c = (refl, (refl, (refl, refl, inr (inl c))))
on_claiming-PicksUp node a r asked s send unclaimed c =
    (refl, (refl, (refl, refl, inr (inr (inl c)))))

pub pick_up-PicksUp :
    (node : Node) (a : Answers) (r : Released) (asked : ℕ) (s : State) (send : SendState)
    → let p = pick_up node a r asked s send in
      (p.send.admitted ≡ send.admitted) × PicksUp node a r asked s send p p.ended
unfolding pick_up
pick_up-PicksUp node a r asked s send = on_claiming-PicksUp node a r asked s send a.claiming refl
