-- ===== src/Pickup/ActLaws.antt =====
-- What an operator's pause or resume changes: src/pickup.rs.
use xmip_core_runtime.Base.{
  ℕ, ◌≡◌, refl, Bool, true, false, not, Option, none, some, Text, text_eq, ◌==◌, arith,
  if◌then◌else◌,
}
use xmip_core_runtime.Pickup.State.{Standing, Entry, State, entry}
use xmip_core_runtime.Pickup.StateLaws.{changed_entry, entry-change}
use xmip_core_runtime.Pickup.Act.{
  Act, pause, resume, other, Said, paused, was_paused, was_not_paused, resumed, not_taken,
  not_configured, fails, Acted, standing_by, stand, said_of, on_written, on_standing, on_entry,
  on_act, act,
}

pub stand-configured : (st : Standing) (e : Entry) → (stand st e).configured ≡ e.configured
unfolding stand
stand-configured st e = ground arith

-- The standing that was written and taken, of the entry the name finds, and no other entry.
abbrev pub Stood :
    (takes : ℕ → Standing → Bool) → (n m : Text) → State → Acted → Entry → Standing → Type 0
Stood takes n m s r e st =
    (entry n s ≡ some e)
    × (r.written ≡ some (e.queue, st))
    × (takes e.queue st ≡ true)
    × (entry m r.state ≡ (if n == m then changed_entry (stand st) (entry m s) else entry m s))
    × (r.woken ≡ not st.paused)
    × (r.audited ≡ true)

abbrev pub Untouched : State → Acted → Type 0
Untouched s r = (r.state ≡ s) × (r.woken ≡ false) × (r.audited ≡ false)

abbrev pub ChangesBy :
    (takes : ℕ → Standing → Bool) → (now : ℕ) → (n m who : Text) → State → Acted → Said → Type 0
ChangesBy takes now n m who s r said = elim said [
  | paused ↦ (e : Entry) × Stood takes n m s r e (standing_by true who now)
  | resumed held ↦ (e : Entry) × Stood takes n m s r e (standing_by false who now) × (e.held ≡ held)
  | was_paused ↦ Untouched s r
  | was_not_paused ↦ Untouched s r
  | not_taken ↦ Untouched s r
  | not_configured ↦ Untouched s r
  | fails ↦ Untouched s r
]

abbrev pub Changes :
    (takes : ℕ → Standing → Bool) → (now : ℕ) → (n m who : Text) → State → Acted → Type 0
Changes takes now n m who s r = ChangesBy takes now n m who s r r.said

module _ (takes : ℕ → Standing → Bool) (now : ℕ) (n m who : Text) (s : State) where
  written-Changes :
      (pauses : Bool) (e : Entry)
      → entry n s ≡ some e
      → (took : Bool) → takes e.queue (standing_by pauses who now) ≡ took
      → Changes takes now n m who s (on_written n s e (standing_by pauses who now) took)
  unfolding on_written said_of standing_by
  written-Changes true e found true t = (
    e,
    (
      found,
      refl,
      t,
      entry-change n m (stand (standing_by true who now)) s
          (stand-configured (standing_by true who now)),
      refl,
      refl,
    ),
  )
  written-Changes false e found true t = (
    e,
    (
      found,
      refl,
      t,
      entry-change n m (stand (standing_by false who now)) s
          (stand-configured (standing_by false who now)),
      refl,
      refl,
    ),
    refl,
  )
  written-Changes pauses e found false t = (refl, refl, refl)

  standing-Changes :
      (e : Entry)
      → entry n s ≡ some e
      → (a : Act) (was : Bool) → Changes takes now n m who s (on_standing takes now n who s e a was)
  unfolding on_standing
  standing-Changes e found pause true = (refl, refl, refl)
  standing-Changes e found pause false = written-Changes true e found _ refl
  standing-Changes e found resume true = written-Changes false e found _ refl
  standing-Changes e found resume false = (refl, refl, refl)
  standing-Changes e found other was = written-Changes false e found _ refl

  entry-Changes :
      (a : Act) (o : Option Entry)
      → entry n s ≡ o
      → Changes takes now n m who s (on_entry takes now n who s a o)
  unfolding on_entry
  entry-Changes a none found = (refl, refl, refl)
  entry-Changes a (some e) found = standing-Changes e found a e.standing.paused

  on_act-Changes : (o : Option Act) → Changes takes now n m who s (on_act takes now n who s o)
  unfolding on_act
  on_act-Changes none = (refl, refl, refl)
  on_act-Changes (some a) = entry-Changes a (entry n s) refl

-- However Xmip Storage answers: an act that says it paused or resumed has had the standing written and
-- taken, of the entry its name finds, and changed that entry and no other; a resume wakes the node and
-- says how many are held. An act that says anything else has changed nothing.
pub act-Changes :
    (allows : Act → Option Act) (takes : ℕ → Standing → Bool) (now : ℕ) (n m : Text) (a : Act)
    (who : Text) (s : State)
    → Changes takes now n m who s (act allows takes now n a who s)
unfolding act
act-Changes allows takes now n m a who s = on_act-Changes takes now n m who s (allows a)
