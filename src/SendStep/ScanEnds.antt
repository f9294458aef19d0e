-- ===== src/SendStep/ScanEnds.antt =====
-- A scan ends, and what it saw: src/send_step/scan.rs.
use xmip_core_runtime.Base.{
  ℕ, zero, suc, ◌+◌, ◌<◌, ◌≡◌, ◌⊎◌, refl, ap, subst, ◌∙◌, inl, inr, Bool, true, false, List, [],
  ◌∷◌, ◌++◌, Option, none, some, arith, length, contains, contains-push_new, contains-push_new_self,
  push_new, ◌==◌, nat_eq, Bool-cases, Option-cases,
}
use xmip_core_runtime.Sending.Defs.{Subscriber}
use xmip_core_runtime.Sequence.Heads.{Place, place_eq}
use xmip_core_runtime.SendStep.State.{State, Due}
use xmip_core_runtime.SendStep.Admission.{admit, starve}
use xmip_core_runtime.SendStep.Reading.{
  Held, From, Read, Reading, begun, due_retries, entries, next_from, part_waits, paged, filled,
  popped, next,
}
use xmip_core_runtime.SendStep.ReadingLaws.{
  Serves, helds, rest_at, Done, helds-entries, whole_page, paged-Done,
}
use xmip_core_runtime.SendStep.Scan as Scans
use xmip_core_runtime.SendStep.Scan.{
  World, Scan, Ready, Stop, all_read, pool_full, no_answer, fuel_out, with_ready, is_known, visit,
  if_on, then_scan, scan_loop,
}

abbrev pub place_of : Held → Place
place_of h = (h.journey, h.sequence)

-- Every entry of `hs` is among the places seen.
abbrev pub Sees : List Place → List Held → Type 0
Sees present [] = Unit {0}
Sees present (h ∷ hs) = (contains present (place_of h) ≡ true) × Sees present hs

Sees-none : (present : List Place) (hs : List Held) → hs ≡ [] → Sees present hs
Sees-none present [] e = tt
Sees-none present (h ∷ hs) e = absurd (omega (arith, ap length e))

with_ready_present : (r : Scan) (x : State × Option Ready) → (with_ready r x).present ≡ r.present
with_ready_present r (s, none) = refl
with_ready_present r (s, some ready) = refl

module _ (w : World) (to : Subscriber) (queue : ℕ) (sequenced : Bool) where
  -- The pool full, the queue is starved.
  abbrev Stops : Bool × Scan → Type 0
  Stops (true, r) = Unit {0}
  Stops (false, r) = contains r.state.starved queue ≡ true

  admits-Stops :
      (place : Place) (r : Scan)
      → let x = Scans.admits w to queue sequenced place r in (x.1.present ≡ r.present) × Stops x
  unfolding Scans.admits starve
  admits-Stops place r =
      let a = admit w.most 1 r.state in
      elim (Bool-cases (a.1 == 0)) [
        | inl full ↦ rw (Stops, Scans.admits, full) (refl, contains-push_new_self a.0.starved queue)
        | inr one ↦
            rw (Stops, Scans.admits, one)
              (with_ready_present r (Scans.takes w to queue sequenced place a.0), tt)
      ]

  visit-Stops :
      (one : Read) (r : Scan)
      → let x = visit w to queue sequenced one r in
        (x.1.present ≡ push_new r.present (place_of one.held)) × Stops x
  unfolding visit
  visit-Stops one r =
      let place = place_of one.held in
      let seen : Scan = record r { present = push_new r.present place } in
      elim (Bool-cases one.held.failed) [
        | inl was ↦ rw (Stops, visit, was) (refl, tt)
        | inr live ↦ elim (Option-cases one.due_in) [
          | inr (left, e) ↦ rw (Stops, visit, live, e) (refl, tt)
          | inl due ↦ elim (Bool-cases (is_known queue place r.state)) [
            | inl known ↦ rw (Stops, visit, live, due, known) (refl, tt)
            | inr fresh ↦ rw (visit, live, due, fresh) (admits-Stops place seen)
          ]
        ]
      ]

  -- What a reading of `hs` ends with.
  abbrev Ends : Scan → List Held → Scan × Stop → Type 0
  Ends r hs x =
      ((x.1 ≡ pool_full) × (contains x.0.state.starved queue ≡ true))
      ⊎ ((x.1 ≡ all_read)
          × Sees x.0.present hs
          × ((p : Place) → contains r.present p ≡ true → contains x.0.present p ≡ true))

  if_on-Ends :
      (h : Held) (hs : List Held) (r : Scan) (v : Bool × Scan) (f : Scan → Scan × Stop)
      → v.1.present ≡ push_new r.present (place_of h)
      → Stops v
      → ((u : Scan) → Ends u hs (f u))
      → Ends r (h ∷ hs) (if_on v f)
  if_on-Ends h hs r (false, u) f e s ih = inl (refl, s)
  if_on-Ends h hs r (true, u) f e s ih = elim (ih u) [
    | inl full ↦ inl full
    | inr (whole, sees, keeps) ↦ inr (
      whole,
      (
        keeps (place_of h) (
            ap (λ (l : List Place). contains l (place_of h)) e
            ∙ contains-push_new_self r.present (place_of h)),
        sees,
      ),
      λ p c.
          keeps p (
            ap (λ (l : List Place). contains l p) e ∙ contains-push_new r.present (place_of h) p c),
    )
  ]

  module _ (rest : From → List Held) (serves : Serves w.read_due w.after rest) where
    popped-Ends :
        (fuel : ℕ) (rs : List Read) (f : Option From) (a d : ℕ) (waits : Due) (r : Scan)
        → Done w.read_due w.after rest serves rs f
        → length (helds rs ++ rest_at rest f) < suc fuel
        → ((xs : List Read) (u : Scan)
            → length (helds xs ++ rest_at rest f) < fuel
            → Ends u (helds xs ++ rest_at rest f) (
                scan_loop w to queue sequenced fuel
                  (record { read = xs; from = f; retrying = a; due_retries = d })
                  u))
        → Ends r (helds rs ++ rest_at rest f) (
            then_scan w to queue sequenced (scan_loop w to queue sequenced fuel) r (
              popped (some (record { read = rs; from = f; retrying = a; due_retries = d }, waits))))
    popped-Ends fuel [] f a d waits r done n ih =
        inr (refl, Sees-none r.present (rest_at rest f) done, λ p c. c)
    popped-Ends fuel (x ∷ xs) f a d waits r done n ih =
        let v = visit-Stops x (record r { waits = waits }) in
        if_on-Ends x.held (helds xs ++ rest_at rest f) r _ _ v.0 v.1
          (λ u. ih xs u (omega (arith, n)))

    same_Ends :
        (r : Scan) (xs ys : List Held) (x : Scan × Stop) → xs ≡ ys → Ends r xs x → Ends r ys x
    same_Ends r xs ys x e h = subst (λ hs. Ends r hs x) e h

    loop-Ends :
        (fuel : ℕ) (rs : List Read) (f : Option From) (a d : ℕ) (r : Scan)
        → length (helds rs ++ rest_at rest f) < fuel
        → Ends r (helds rs ++ rest_at rest f) (
            scan_loop w to queue sequenced fuel
              (record { read = rs; from = f; retrying = a; due_retries = d })
              r)
    unfolding scan_loop next filled paged
    loop-Ends zero rs f a d r n = absurd (omega (arith, n))
    loop-Ends (suc fuel) (x ∷ xs) f a d r n =
        popped-Ends fuel (x ∷ xs) f a d r.waits r tt n (λ ys u m. loop-Ends fuel ys f a d u m)
    loop-Ends (suc fuel) [] none a d r n = inr (refl, tt, λ p c. c)
    loop-Ends (suc fuel) [] (some from) a d r n =
        let (asked, p, e, h) = serves.page from in
        let g = next_from w.after p.held in
        let whole : helds (entries p asked p.held) ++ rest_at rest g ≡ rest from =
          ap (λ hs. hs ++ rest_at rest g) (helds-entries p asked p.held)
          ∙ whole_page w.read_due w.after rest serves from p.held h in
        let q : Reading = record {
          read = entries p asked p.held;
          from = g;
          retrying = p.retrying;
          due_retries = d + due_retries p;
        } in
        let scanned =
          then_scan w to queue sequenced (scan_loop w to queue sequenced fuel) r
            (popped (some (q, part_waits asked p r.waits))) in
        rw (scan_loop, e)
          (same_Ends r _ _ scanned whole (
            popped-Ends fuel (entries p asked p.held) g p.retrying (d + due_retries p)
              (part_waits asked p r.waits) r
              (paged-Done w.read_due w.after rest serves p asked p.held)
              (omega (arith, ap length whole, n))
              (λ ys u m. loop-Ends fuel ys g p.retrying (d + due_retries p) u m)))

-- A scan's reading ends, for Xmip Storage that serves what is due, on fuel for one entry more than is
-- due: it saw every entry that is due, or the Send pool was full and the queue starved, to be asked
-- again as a place frees.
pub scan_ends :
    (w : World) (to : Subscriber) (queue : ℕ) (sequenced : Bool) (rest : From → List Held)
    → (fuel : ℕ) (r : Scan) → Serves w.read_due w.after rest
    → length (rest (0, 0)) < fuel
    → let x = scan_loop w to queue sequenced fuel begun r in
      ((x.1 ≡ pool_full) × (contains x.0.state.starved queue ≡ true))
      ⊎ ((x.1 ≡ all_read) × Sees x.0.present (rest (0, 0)))
scan_ends w to queue sequenced rest fuel r serves n =
    elim (loop-Ends w to queue sequenced rest serves fuel [] (some (0, 0)) 0 0 r n) [
      | inl full ↦ inl full
      | inr (whole, sees, keeps) ↦ inr (whole, sees)
    ]
