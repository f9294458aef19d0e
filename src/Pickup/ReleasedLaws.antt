-- ===== src/Pickup/ReleasedLaws.antt =====
-- A pause holds what it says, and what a hold told of during a read comes to: src/pickup/released.rs.
use xmip_core_runtime.Base.{
  ℕ, ◌<◌, ◌≤◌, ◌≡◌, refl, subst, ap, ◌∙◌, inl, inr, Bool, true, false, not, ◌&&◌, ◌||◌, List, [],
  ◌∷◌, none, some, Option, Text, text_eq, text_beq_iff, map, keep, all, contains, push_new, length,
  ltb, lt→ltb, if◌then◌else◌, ◌==◌, nat_eq, nat_beq_iff, u64_mod, add64, arith, Bool-cases,
}
use xmip_core_runtime.Pickup.State.{Standing, Entry, State, entry, entry_ready}
use xmip_core_runtime.Pickup.StateLaws.{changed_entry}
use xmip_core_runtime.Pickup.Act.{
  Act, Said, paused, was_paused, was_not_paused, resumed, not_taken, not_configured, fails, act,
  Acted, standing_by, stand,
}
use xmip_core_runtime.Pickup.ActLaws.{Stood, ChangesBy, act-Changes}
use xmip_core_runtime.Pickup.Holding.{Opened, holding, lead, departing, told}
use xmip_core_runtime.Pickup.HoldingLaws.{holds_for, holds_it, holding_parts}
use xmip_core_runtime.Pickup.Released.{Held, take_each, on_answer, on_read}
use xmip_core_runtime.Pickup.Reading.{contains-push_new-eq}

reads_before :
    (m : ℕ) (held : List Held) (e : Entry)
    → m < u64_mod
    → all (λ (h : Held). ltb h.sequence m) held ≡ true
    → e.cursor ≤ m
    → contains e.taken m ≡ false
    → ((take_each held e).cursor ≤ m) × (contains (take_each held e).taken m ≡ false)
unfolding take_each
reads_before m [] e small before c t = (c, t)
reads_before m (k ∷ held) e small before c t =
    reads_before m held
      (record e { cursor = add64 k.sequence 1; taken = push_new e.taken k.sequence }) small
      (ground arith) (ground arith)
      (ground (arith, contains-push_new-eq e.taken k.sequence m, nat_beq_iff k.sequence m))

-- A hold told of between a read that came to its queue's end and the taking of its answer: the queue of
-- an active Subscription is left as one with nothing to read, though the Message is held at or past the
-- place the node reads from, and is not taken.
pub told_between :
    (e : Entry) (most now : ℕ) (read : List Held) (h : Held)
    → e.standing.paused ≡ false
    → length read < most
    → all (λ (k : Held). ltb k.sequence h.sequence) read ≡ true
    → e.cursor ≤ h.sequence
    → h.sequence < u64_mod
    → contains e.taken h.sequence ≡ false
    → ((on_read most e.cursor now (some read) (told e)).0.pending ≡ false)
      × ((on_read most e.cursor now (some read) (told e)).0.cursor ≤ h.sequence)
      × (contains (on_read most e.cursor now (some read) (told e)).0.taken h.sequence ≡ false)
unfolding on_read on_answer told
told_between e most now read h active short before from small free =
    let e' : Entry = record e { held = add64 e.held 1; pending = true; not_before = none } in
    let after = reads_before h.sequence read e' small before from free in
    rw active
      (ground (arith, after, lt→ltb (length read) most short, nat_beq_iff e.cursor e.cursor))

said_paused :
    (takes : ℕ → Standing → Bool) (now : ℕ) (n m who : Text) (s : State) (r : Acted) (said : Said)
    → ChangesBy takes now n m who s r said
    → said ≡ paused
    → (e : Entry) × Stood takes n m s r e (standing_by true who now)
said_paused takes now n m who s r paused changes e = changes
said_paused takes now n m who s r was_paused changes e = absurd (cc)
said_paused takes now n m who s r was_not_paused changes e = absurd (cc)
said_paused takes now n m who s r (resumed held) changes e = absurd (cc)
said_paused takes now n m who s r not_taken changes e = absurd (cc)
said_paused takes now n m who s r not_configured changes e = absurd (cc)
said_paused takes now n m who s r fails changes e = absurd (cc)

abbrev pub to_read : (now : ℕ) → Option Entry → Bool
to_read now none = false
to_read now (some e) = entry_ready e now

holds_after :
    (n : Text) (st : Standing) (s s' : State) (o : Opened) (e : Entry)
    → st.paused ≡ true
    → entry n s ≡ some e
    → entry o.subscription s' ≡ (
        if n == o.subscription
        then changed_entry (stand st) (entry o.subscription s)
        else entry o.subscription s)
    → not (holds_it s' false o) ≡ (not (n == o.subscription) && not (holds_it s false o))
unfolding stand
holds_after n st s s' o e on found after = elim (Bool-cases (n == o.subscription)) [
  | inl same ↦
      let there : entry o.subscription s ≡ some e =
        subst (λ (t : Text). entry t s ≡ some e) ((text_beq_iff n o.subscription).0 same) found in
      ground (arith, same, on, there, after)
  | inr apart ↦ ground (arith, apart, after)
]

quiet_after :
    (takes : ℕ → Standing → Bool) (later : ℕ) (n : Text) (s : State) (r : Acted) (st : Standing)
    → st.paused ≡ true
    → (e : Entry) × Stood takes n n s r e st
    → to_read later (entry n r.state) ≡ false
unfolding stand entry_ready
quiet_after takes later n s r st on (e, (found, written, took, after, woken, audited)) =
    ground (arith, on, found, after, (text_beq_iff n n).1 refl)

keep_alike {ℓ} :
    {A : Type ℓ} (p q : A → Bool) (xs : List A) → ((x : A) → p x ≡ q x) → keep p xs ≡ keep q xs
keep_alike p q [] h = refl
keep_alike p q (x ∷ xs) h = ground (arith, h x, keep_alike p q xs h)

not_alike : (a b c : Bool) → not a ≡ (not b && not c) → a ≡ (b || c)
not_alike a b c h = ground arith

-- An act that says a Subscription is paused leaves none of its queue for the node to read, and of each
-- Publication after it what would have departed before, less those of the paused one, each of which is
-- held with what would have been held before.
pub pause_holds :
    (allows : Act → Option Act) (takes : ℕ → Standing → Bool) (now : ℕ) (n : Text) (a : Act)
    (who : Text) (s : State) (body : Text) (opened : List Opened) (later : ℕ)
    → (act allows takes now n a who s).said ≡ paused
    → let s' = (act allows takes now n a who s).state in
      (departing (holding s' body opened) opened
        ≡ map lead
            (keep (λ (o : Opened). not (n == o.subscription) && not (holds_it s false o)) opened))
      × ((holding s' body opened).holds
          ≡ holds_for s' body
              (keep (λ (o : Opened). n == o.subscription || holds_it s false o) opened))
      × (to_read later (entry n s') ≡ false)
unfolding holding standing_by
pause_holds allows takes now n a who s body opened later said =
    let r = act allows takes now n a who s in
    let stood = λ (m : Text).
      said_paused takes now n m who s r r.said (act-Changes allows takes now n m a who s) said in
    let parts = holding_parts r.state false body opened in
    let after = λ (o : Opened).
      let (e, (found, written, took, there, woken, audited)) = stood o.subscription in
      holds_after n (standing_by true who now) s r.state o e refl found there in
    (
      parts.0
          ∙ ap (map lead) (
              keep_alike _ (λ (o : Opened). not (n == o.subscription) && not (holds_it s false o))
                opened after),
      parts.1
          ∙ ap (holds_for r.state body) (
              keep_alike _ (λ (o : Opened). n == o.subscription || holds_it s false o) opened
                (λ o.
                  not_alike (holds_it r.state false o) (n == o.subscription) (holds_it s false o)
                    (after o))),
      quiet_after takes later n s r (standing_by true who now) refl (stood n),
    )
