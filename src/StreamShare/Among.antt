-- ===== src/StreamShare/Among.antt =====
-- A departure that takes its next chunk while the other departures of its Stream run between its
-- steps: `Lent::take` of src/stream_share.rs. Each of `moved`, `chunk` and `joined` is one step; `others`
-- is what the others do before its step of a number, and `now` the instant of that step.
use xmip_core_runtime.Base.{
  ℕ, zero, suc, ◌+◌, ◌*◌, ◌≤◌, ◌<◌, ◌≡◌, ◌⊎◌, refl, inl, inr, Bool, none, some, arith,
  if◌then◌else◌, ltb, nat_eq, u32_mod, Bool-cases, Option-cases,
}
use xmip_core_runtime.StreamShare.OneRead.{Answer}
use xmip_core_runtime.StreamShare.Shares.{
  Shared, joined, moved, Given, chunk_of, at_end, falls_behind, faulted, waits, too_far, unanswered,
  asked, Take, take_loop, take,
}
use xmip_core_runtime.StreamShare.SharesLaws.{AllWindows, Reads}
use xmip_core_runtime.StreamShare.Taking.{
  Says, IsThere, IsTaken, asked-Says, joined-Reads, moved-Reads,
}

-- What the loop does with what its read said, its step before this one being `n`.
abbrev after_asked : (place on : ℕ) → Shared → (rest : Take) → Given → Take
after_asked place on s rest (chunk_of c) = record { shared = s; on = on; given = chunk_of c }
after_asked place on s rest at_end = record { shared = s; on = on; given = at_end }
after_asked place on s rest falls_behind =
    if ltb place u32_mod then rest else record { shared = s; on = on; given = too_far }
after_asked place on s rest (faulted why) = record { shared = s; on = on; given = faulted why }
after_asked place on s rest (waits left) = record { shared = s; on = on; given = waits left }
after_asked place on s rest too_far = record { shared = s; on = on; given = too_far }
after_asked place on s rest unanswered = record { shared = s; on = on; given = unanswered }

module _ (read : ℕ → Answer) (others : ℕ → Shared → Shared) (now : ℕ → ℕ)
    (stall number place : ℕ) where
  -- `Lent::take`'s loop, on fuel for a round each, its first step numbered `n`.
  unfoldable pub loop_among : (fuel n on : ℕ) → Shared → Take
  loop_among zero n on s = record { shared = s; on = on; given = unanswered }
  loop_among (suc fuel) n on s =
      let r = asked read stall (now n) on number place (others n s) in
      let j = joined (some on) number place (now (n + 1)) (others (n + 1) r.0) in
      after_asked place on r.0 (loop_among fuel (n + 2) j.1 j.0) r.1

  -- `Lent::take`.
  unfoldable pub take_among : (locked : ℕ → Bool) → (fuel on : ℕ) → Shared → Take
  unfolding loop_among
  take_among locked fuel on s =
      let t = others 0 s in
      elim (moved locked on number place (now 0) t) [
        | none ↦ loop_among fuel 1 on t
        | some (u, id) ↦ loop_among fuel 1 id u
      ]

-- The others keep every read a window of the Stream, and every read in being.
pub record KeepReads (read : ℕ → Answer) (others : ℕ → Shared → Shared) : Type 0 where
  pub windows : (n : ℕ) (s : Shared) → AllWindows read s → AllWindows read (others n s)
  pub there : (n on : ℕ) (s : Shared) → IsThere on s → IsThere on (others n s)

-- The others do not outrun a read between the joining of it and the next step, numbered `n`.
abbrev pub LeavesBe : (others : ℕ → Shared → Shared) → (place n : ℕ) → Type 0
LeavesBe others place n = (on : ℕ) (s : Shared) → Reads on place s → Reads on place (others n s)

module _ (read : ℕ → Answer) (others : ℕ → Shared → Shared) (now : ℕ → ℕ) (stall number place : ℕ)
    (keep : KeepReads read others) where
  abbrev loop : (fuel n on : ℕ) → Shared → Take
  loop = loop_among read others now stall number place

  -- Either its read reaches its place, or what is left of the loop comes to an answer.
  after_asked-IsTaken :
      (on : ℕ) (s t : Shared) (rest : Take) (g : Given)
      → AllWindows read t × Says read place on s g × IsThere on t
      → IsThere on s
      → (Reads on place s) ⊎ (IsTaken read place rest)
      → IsTaken read place (after_asked place on t rest g)
  after_asked-IsTaken on s t rest (chunk_of c) (a, says, there) was next = (a, says, there)
  after_asked-IsTaken on s t rest at_end (a, says, there) was next = (a, says, there)
  after_asked-IsTaken on s t rest (faulted why) (a, says, there) was next = (a, tt, there)
  after_asked-IsTaken on s t rest (waits left) (a, says, there) was next = (a, tt, there)
  after_asked-IsTaken on s t rest too_far (a, says, there) was next = absurd says
  after_asked-IsTaken on s t rest unanswered (a, says, there) (source, g) next = cc
  after_asked-IsTaken on s t rest falls_behind (a, (source, g, b), there) was (inl (other, h, k)) =
      absurd (ground (arith, g, h, b, k))
  after_asked-IsTaken on s t rest falls_behind (a, says, there) was (inr next) =
      elim (Bool-cases (ltb place u32_mod)) [
        | inl near ↦ rw near next
        | inr far ↦ rw far (a, ground arith, there)
      ]

  -- What it knows of its read `k` rounds before the one that nothing outruns.
  abbrev Ready : (k on : ℕ) → Shared → Type 0
  Ready zero on s = Reads on place s
  Ready (suc k) on s = IsThere on s

  Ready-IsThere : (k on : ℕ) (s : Shared) → Ready k on s → IsThere on s
  Ready-IsThere zero on s (source, e, h) = (source, e)
  Ready-IsThere (suc k) on s r = r

  Reads-Ready : (k on : ℕ) (s : Shared) → Reads on place s → Ready k on s
  Reads-Ready zero on s r = r
  Reads-Ready (suc k) on s (source, e, h) = (source, e)

  loop-IsTaken :
      (fuel k n m on : ℕ) (s : Shared)
      → k ≤ fuel
      → n + 2 * k ≡ m
      → LeavesBe others place m
      → AllWindows read s
      → Ready k on s
      → IsTaken read place (loop (suc fuel) n on s)
  unfolding loop_among
  loop-IsTaken fuel zero n m on s h e be a r =
      let same : n ≡ m = omega (arith, e) in
      let t = others n s in
      let reads : Reads on place t = rw same (be on s r) in
      let there = keep.there n on s (Ready-IsThere 0 on s r) in
      after_asked-IsTaken on t (asked read stall (now n) on number place t).0 _
        (asked read stall (now n) on number place t).1
        (asked-Says read stall (now n) on number place t (keep.windows n s a) there) there
        (inl reads)
  loop-IsTaken zero (suc k) n m on s h e be a r = absurd (omega (arith, h))
  loop-IsTaken (suc fuel) (suc k) n m on s h e be a r =
      let t = others n s in
      let there = keep.there n on s r in
      let said = asked read stall (now n) on number place t in
      let says = asked-Says read stall (now n) on number place t (keep.windows n s a) there in
      let u = others (n + 1) said.0 in
      let j =
        joined-Reads read (some on) number place (now (n + 1)) u
          (keep.windows (n + 1) said.0 says.0) in
      let next = joined (some on) number place (now (n + 1)) u in
      after_asked-IsTaken on t said.0 (loop (suc fuel) (n + 2) next.1 next.0) said.1 says there (
        inr (
          loop-IsTaken fuel k (n + 2) m next.1 next.0 (omega (arith, h)) (omega (arith, e)) be j.0
            (Reads-Ready k next.1 next.0 j.1)))

  -- However the other departures of a Stream join, read, move and leave between its steps, a departure
  -- that takes its next chunk comes to an answer at the latest in the first round, after the one it began
  -- with, in which they do not outrun the read it joined before it asks it: the chunk of the Stream at its
  -- place, the Stream's end where it ended by then, a fault, or a wait; it is refused only past 2 ^ 32
  -- chunks. Every read stays a window of the Stream; for others that keep every read a window and in
  -- being, and with each moving, joining and asking one step.
  pub take_among-IsTaken :
      (locked : ℕ → Bool) (fuel k on : ℕ) (s : Shared)
      → k < fuel
      → LeavesBe others place (2 * k + 3)
      → AllWindows read s
      → IsThere on s
      → IsTaken read place (take_among read others now stall number place locked (suc fuel) on s)
  unfolding take_among
  take_among-IsTaken locked fuel k on s h be a there =
      let t = others 0 s in
      let w = keep.windows 0 s a in
      let begins = λ (id : ℕ) (v : Shared) (x : AllWindows read v) (y : IsThere id v).
        loop-IsTaken fuel (suc k) 1 (2 * k + 3) id v (omega (arith, h)) (omega arith) be x y in
      elim (Option-cases (moved locked on number place (now 0) t)) [
        | inl e ↦ rw (take_among, e) (begins on t w (keep.there 0 on s there))
        | inr ((v, id), e) ↦
            let m = moved-Reads read locked on number place (now 0) t v id e w in
            rw (take_among, e) (begins id v m.0 (Ready-IsThere 0 id v m.1))
      ]

module _ (read : ℕ → Answer) (now stall number place : ℕ) where
  abbrev idle : (fuel n on : ℕ) → Shared → Take
  idle = loop_among read (λ n s. s) (λ n. now) stall number place

  idle_on :
      (fuel n on : ℕ) (s : Shared) (g : Given)
      → (asked read stall now on number place s).1 ≡ g
      → ((id : ℕ) (t : Shared)
          → idle fuel (n + 2) id t ≡ take_loop read fuel stall now id number place t)
      → idle (suc fuel) n on s ≡ take_loop read (suc fuel) stall now on number place s
  unfolding loop_among take_loop
  idle_on fuel n on s (chunk_of c) e ih = rw (loop_among, take_loop, e, e) refl
  idle_on fuel n on s at_end e ih = rw (loop_among, take_loop, e, e) refl
  idle_on fuel n on s falls_behind e ih =
      let t = (asked read stall now on number place s).0 in
      let j = joined (some on) number place now t in
      rw (loop_among, take_loop, e) (rw (ih j.1 j.0) refl)
  idle_on fuel n on s (faulted why) e ih = rw (loop_among, take_loop, e, e) refl
  idle_on fuel n on s (waits left) e ih = rw (loop_among, take_loop, e, e) refl
  idle_on fuel n on s too_far e ih = rw (loop_among, take_loop, e, e) refl
  idle_on fuel n on s unanswered e ih = rw (loop_among, take_loop, e, e) refl

  idle_lem :
      (fuel n on : ℕ) (s : Shared)
      → idle fuel n on s ≡ take_loop read fuel stall now on number place s
  unfolding loop_among take_loop
  idle_lem zero n on s = refl
  idle_lem (suc fuel) n on s =
      idle_on fuel n on s (asked read stall now on number place s).1 refl
        (λ id t. idle_lem fuel (n + 2) id t)

  -- With the others idle and the clock still, a take among them is the take as one step.
  pub take_among-idle :
      (locked : ℕ → Bool) (on : ℕ) (s : Shared)
      → take_among read (λ n s. s) (λ n. now) stall number place locked 2 on s
        ≡ take read locked stall now on number place s
  unfolding take_among take
  take_among-idle locked on s = elim (Option-cases (moved locked on number place now s)) [
    | inl e ↦ rw (take_among, take, e) (idle_lem 2 1 on s)
    | inr ((t, id), e) ↦ rw (take_among, take, e) (idle_lem 2 1 id t)
  ]
