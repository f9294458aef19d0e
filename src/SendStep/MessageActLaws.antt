-- ===== src/SendStep/MessageActLaws.antt =====
-- What an operator's act leaves behind, however Xmip Storage answers: src/send_step/message_act.rs.
use xmip_core_runtime.Base.{
  ℕ, ◌≡◌, ◌⊎◌, refl, inl, inr, Bool, true, List, Option, none, some, Text, text_eq, text_beq_iff,
  ◌==◌, ap, arith, Bool-cases, Option-cases, get,
}
use xmip_core_runtime.Journey.{Journey, JourneyState}
use xmip_core_runtime.SendStep.State.{Claim}
use xmip_core_runtime.SendStep.Pass.{Written, taken, refused, unanswered}
use xmip_core_runtime.SendStep.MessageAct.{
  Act, Kept, kept, unreadable, missing, unread, Claiming, claimed, held_elsewhere, unclaimed,
  HandOn, Storage, Said, done, already, refuses, fails, Acted, is_failed, is_dismissed, hand_on,
  taken_by, changed, written, on_change, under_claim, claims, on_port, on_kept, act,
}

-- Nothing was handed on, or Xmip Storage did not take what was.
abbrev pub NotTaken : Storage → Acted → Type 0
NotTaken s r =
    (r.handed ≡ none)
    ⊎ ((h : HandOn) × (r.handed ≡ some h)
        × ((s.hand_on h ≡ refused) ⊎ ((why : Text) × (s.hand_on h ≡ unanswered why))))

-- Nothing was taken, no queue asked, and no claim is left held.
abbrev pub NotDone : Storage → Acted → Type 0
NotDone s r =
    NotTaken s r
    × (r.asked ≡ none)
    × ((r.claim ≡ none)
        ⊎ (r.released ≡ true)
        ⊎ ((h : HandOn) × (r.handed ≡ some h) × (s.hand_on h ≡ refused)))

-- A Message that had failed, the same under the claim as before it, handed on and its queue asked.
abbrev pub Done : Storage → (queue : Text → ℕ) → Act → Acted → Type 0
Done s queue a r =
    (body : Text) × (j k : Journey) × (port : Text) × (blocks : Bool) × (claim : Claim) × (s.first
      ≡ kept body j)
    × (s.again ≡ kept body k)
    × (j.state ≡ JourneyState.failed)
    × (j.send_port ≡ some port)
    × (s.claiming ≡ claimed claim)
    × (r.handed ≡ some (hand_on a claim (queue port) blocks j))
    × (s.hand_on (hand_on a claim (queue port) blocks j) ≡ taken)
    × (r.asked ≡ some (queue port))

abbrev pub Settles : Storage → (queue : Text → ℕ) → Act → Acted → Type 0
Settles s queue a r = elim r.said [
  | done ↦ Done s queue a r
  | already ↦ NotDone s r
  | refuses ↦ NotDone s r
  | fails ↦ NotDone s r
]

written-Settles :
    (s : Storage) (queue : Text → ℕ) (a : Act) (body : Text) (j k : Journey) (port : Text)
    → (blocks : Bool) (claim : Claim) → s.first ≡ kept body j
    → s.again ≡ kept body k
    → j.state ≡ JourneyState.failed
    → j.send_port ≡ some port
    → s.claiming ≡ claimed claim
    → let h = hand_on a claim (queue port) blocks j in
      (w : Written) → s.hand_on h ≡ w → Settles s queue a (written claim h (queue port) w)
unfolding written
written-Settles s queue a body j k port blocks claim e f g p c taken w =
    (body, j, k, port, blocks, claim, e, f, g, p, c, refl, w, refl)
written-Settles s queue a body j k port blocks claim e f g p c refused w =
    let h = hand_on a claim (queue port) blocks j in
    (inr (h, refl, inl w), refl, inr (inr (h, refl, w)))
written-Settles s queue a body j k port blocks claim e f g p c (unanswered why) w =
    (inr (hand_on a claim (queue port) blocks j, refl, inr (why, w)), refl, inr (inl refl))

changed-none : (seen : Text) (o : Kept) → changed seen o ≡ none → (k : Journey) × (o ≡ kept seen k)
unfolding changed
changed-none seen (kept now k) e = elim (Bool-cases (now == seen)) [
  | inl same ↦ (k, ap (λ (b : Text). kept b k) ((text_beq_iff now seen).0 same))
  | inr other ↦ ground (arith, e, other)
]
changed-none seen unreadable e = ground (arith, e)
changed-none seen missing e = ground (arith, e)
changed-none seen unread e = ground (arith, e)

abbrev said_or : Said → Option Said → Said
said_or other none = other
said_or other (some said) = said

changed-some :
    (seen : Text) (o : Kept) (said : Said)
    → changed seen o ≡ some said
    → (refuses ≡ said) ⊎ (fails ≡ said)
unfolding changed
changed-some seen (kept now k) said e = ground (arith, e)
changed-some seen unreadable said e = inl (ap (said_or said) e)
changed-some seen missing said e = inl (ap (said_or said) e)
changed-some seen unread said e = inr (ap (said_or said) e)

on_change-Settles :
    (s : Storage) (queue : Text → ℕ) (a : Act) (body : Text) (j : Journey) (port : Text)
    → (blocks : Bool) (claim : Claim) → s.first ≡ kept body j
    → j.state ≡ JourneyState.failed
    → j.send_port ≡ some port
    → s.claiming ≡ claimed claim
    → (o : Option Said) → changed body s.again ≡ o
    → Settles s queue a (on_change s a (queue port) blocks j claim o)
unfolding on_change
on_change-Settles s queue a body j port blocks claim e g p c none f =
    let (k, again) = changed-none body s.again f in
    let h = hand_on a claim (queue port) blocks j in
    written-Settles s queue a body j k port blocks claim e again g p c (s.hand_on h) refl
on_change-Settles s queue a body j port blocks claim e g p c (some said) f =
    elim (changed-some body s.again said f) [
      | inl is_refused ↦ rw⁻¹ is_refused (inl refl, refl, inr (inl refl))
      | inr failed ↦ rw⁻¹ failed (inl refl, refl, inr (inl refl))
    ]

claims-Settles :
    (s : Storage) (queue : Text → ℕ) (a : Act) (body : Text) (j : Journey) (port : Text)
    → (blocks : Bool) → s.first ≡ kept body j
    → j.state ≡ JourneyState.failed
    → j.send_port ≡ some port
    → (o : Claiming) → s.claiming ≡ o
    → Settles s queue a (claims s a (queue port) blocks body j o)
unfolding claims under_claim
claims-Settles s queue a body j port blocks e g p (claimed claim) c =
    on_change-Settles s queue a body j port blocks claim e g p c (changed body s.again) refl
claims-Settles s queue a body j port blocks e g p held_elsewhere c = (inl refl, refl, inl refl)
claims-Settles s queue a body j port blocks e g p unclaimed c = (inl refl, refl, inl refl)

is_failed_lem : (state : JourneyState) → is_failed state ≡ true → state ≡ JourneyState.failed
is_failed_lem JourneyState.failed e = refl
is_failed_lem JourneyState.active e = cc
is_failed_lem JourneyState.waiting e = cc
is_failed_lem JourneyState.recovering e = cc
is_failed_lem JourneyState.completed e = cc
is_failed_lem JourneyState.dismissed e = cc

taken_by-port :
    (ports : List (Text × Bool)) (j : Journey) (port : Text) (blocks : Bool)
    → taken_by ports j ≡ some (port, blocks)
    → (j.state ≡ JourneyState.failed) × (j.send_port ≡ some port)
unfolding taken_by
taken_by-port ports j port blocks e = elim (Bool-cases (is_failed j.state)) [
  | inr other ↦ ground (arith, e, other)
  | inl was ↦
      let failed = is_failed_lem j.state was in
      elim (Option-cases j.send_port) [
        | inl n ↦ ground (arith, e, was, n)
        | inr (q, n) ↦ elim (Option-cases (get q ports)) [
          | inl g ↦ ground (arith, e, was, n, g)
          | inr (b, g) ↦ (failed, ground (arith, e, was, n, g))
        ]
      ]
]

on_port-Settles :
    (s : Storage) (queue : Text → ℕ) (ports : List (Text × Bool)) (a : Act) (body : Text)
    (j : Journey)
    → s.first ≡ kept body j
    → (o : Option (Text × Bool)) → taken_by ports j ≡ o
    → Settles s queue a (on_port s queue a body j o)
unfolding on_port
on_port-Settles s queue ports a body j e none t = (inl refl, refl, inl refl)
on_port-Settles s queue ports a body j e (some (port, blocks)) t =
    let (failed, leads) = taken_by-port ports j port blocks t in
    claims-Settles s queue a body j port blocks e failed leads s.claiming refl

on_kept-Settles :
    (s : Storage) (queue : Text → ℕ) (ports : List (Text × Bool)) (a : Act) (o : Kept)
    → s.first ≡ o
    → Settles s queue a (on_kept s ports queue a o)
unfolding on_kept
on_kept-Settles s queue ports a (kept body j) e = elim (Bool-cases (is_dismissed a j.state)) [
  | inl was ↦ rw (on_kept, was) (inl refl, refl, inl refl)
  | inr still ↦
      rw (on_kept, still) (on_port-Settles s queue ports a body j e (taken_by ports j) refl)
]
on_kept-Settles s queue ports a unreadable e = (inl refl, refl, inl refl)
on_kept-Settles s queue ports a missing e = (inl refl, refl, inl refl)
on_kept-Settles s queue ports a unread e = (inl refl, refl, inl refl)

-- However Xmip Storage answers, an operator's act is done only on a Message that had failed and was
-- the same under its claim as before it, and then it was handed on, taken, and its queue asked. Of an
-- act that is not done nothing was taken and no queue asked, and it leaves no claim held: it took none,
-- gave it back, or was told that it had lapsed.
pub act-Settles :
    (s : Storage) (ports : List (Text × Bool)) (queue : Text → ℕ) (a : Act)
    → Settles s queue a (act s ports queue a)
unfolding act
act-Settles s ports queue a = on_kept-Settles s queue ports a s.first refl
