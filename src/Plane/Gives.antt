-- ===== src/Plane/Gives.antt =====
-- What a hold answers, and how long it is held: src/plane/held.rs.
use xmip_core_runtime.Base.{
  ℕ, ◌≤◌, ◌≡◌, ◌≢◌, ◌⊎◌, true, false, Option, none, some, length, contains, get, insert, ltb,
  if◌then◌else◌, ◌==◌, nat_eq,
}
use xmip_core_runtime.Plane.Held.{Identity, Held, Holding, most, live, retain, room, proved_by}
use xmip_core_runtime.Plane.Callers.{Step, holds, holds_again, asks, releases, revokes}

-- Why one proven is not held: its time has passed, what proved it was revoked, or the most are held
-- that live.
abbrev pub Refused : (now : ℕ) → (until by : Option ℕ) → Holding → Type 0
Refused now until by s =
    ((end : ℕ) × (until ≡ some end) × (end ≤ now))
    ⊎ ((prover : ℕ) × (by ≡ some prover) × (contains s.revoked prover ≡ true))
    ⊎ (most ≤ length (retain (live now) s.callers))

-- Who a caller held until then is, at an instant.
abbrev pub one_until : (at : ℕ) → (until : Option ℕ) → Identity → Option Identity
one_until at none identity = some identity
one_until at (some end) identity = if ltb at end then some identity else none

-- What one call leaves held of `h` under handle `k`: any call before its end, but one that releases it
-- or revokes what proved it.
abbrev pub Apart : (k : ℕ) → (h : Held) → {s t : Holding} → Step s t → Type 0
Apart k h (holds now draws identity until by leaf e) = live now h ≡ true
Apart k h (holds_again now draws other p e) = live now h ≡ true
Apart k h (asks now handle) = live now h ≡ true
Apart k h (releases handle) = handle ≢ k
Apart k h (revokes by) = proved_by by h ≡ false

pub data Meanwhile (k : ℕ) (h : Held) (s : Holding) : Holding → Type 0 where
  nothing : Meanwhile k h s s
  call :
      {t u : Holding} → Meanwhile k h s t → (step : Step t u) → Apart k h step → Meanwhile k h s u

-- What `held_again` comes to.
abbrev Answers : (now : ℕ) → Held → Holding → Option (Holding × ℕ) → Type 0
Answers now h s none = Unit {0}
Answers now h s (some (t, handle)) =
    ((handle ≡ 0) × Refused now h.until h.by s × ((t ≡ s) ⊎ (t ≡ room now s)))
    ⊎ (((handle == 0) ≡ false)
        × (t.callers ≡ insert handle h (room now s).callers)
        × (get handle (room now s).callers ≡ none))
