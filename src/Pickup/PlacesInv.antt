-- ===== src/Pickup/PlacesInv.antt =====
-- What holds of a Subscription's queue, and that each happening but a read keeps it.
use xmip_core_runtime.Base.{
  ℕ, ◌+◌, ◌≤◌, ◌≡◌, refl, sym, subst, true, false, not, ◌||◌, List, [], ◌∷◌, ◌++◌, none, some, map,
  all, contains, length, ltb, leb, if◌then◌else◌, ◌==◌, nat_eq, nat_beq_iff, arith, any-append,
}
use xmip_core_runtime.SendStep.Admission.{without}
use xmip_core_runtime.Pickup.State.{Standing, Entry, entry_ready}
use xmip_core_runtime.Pickup.Act.{again_after, stand}
use xmip_core_runtime.Pickup.Holding.{told}
use xmip_core_runtime.Pickup.Released.{
  Held, Released, release, take_each, let_go, on_answer, on_read, if_ended, settled, one_picked_up,
  read_again,
}
use xmip_core_runtime.Pickup.Places.{
  first, places, places_let_go, from_place, Queue, keeps, misses, moves, passes, rereads, stands,
  happens, read_from, MayHappen, count,
}
use xmip_core_runtime.Pickup.Reading.{
  contains-without, contains-others_than, Ascending, Ascending-keep, Ascending-snoc, all-keep,
  all-below, all-below-snoc, contains-places-snoc,
}

pub count-append : (p : ℕ) (xs ys : List ℕ) → count p (xs ++ ys) ≡ count p xs + count p ys
count-append p [] ys = omega arith
count-append p (x ∷ xs) ys = omega (arith, count-append p xs ys)

-- A place held is where the node reads on or past it, or is taken, or was passed over.
abbrev pub Covered : ℕ → Queue → Type 0
Covered p q =
    contains (places q.stored) p ≡ true
    → (leb q.entry.cursor p || (contains q.entry.taken p || contains q.passed_over p)) ≡ true

-- Where an active Subscription is not to be read, what it holds has been read.
abbrev pub Awake : ℕ → Queue → Type 0
Awake p q =
    q.entry.standing.paused ≡ false
    → q.entry.pending ≡ false
    → contains (places q.stored) p ≡ true
    → ltb p q.entry.cursor ≡ true

abbrev pub Counted : ℕ → Queue → Type 0
Counted p q = count p q.lets ≡ count p q.dones + (if contains q.entry.taken p then 1 else 0)

pub places-let_go :
    (e : Entry) (held : List Held) → places_let_go (map (release e) held) ≡ places held
unfolding release
places-let_go e [] = refl
places-let_go e (h ∷ held) = ground (arith, places-let_go e held)

-- The places a read answers with, as the code takes them.
abbrev pub answer : ℕ → Queue → List Held
answer most q = first most (from_place q.entry.cursor q.stored)

abbrev pub fresh : Entry → Entry
fresh e = record e { not_before = none }

pub ready-parts :
    (e : Entry) (now : ℕ)
    → entry_ready e now ≡ true
    → (e.pending ≡ true) × (e.standing.paused ≡ false)
unfolding entry_ready
ready-parts e now r = ground arith

pub on_read_ready :
    (most now : ℕ) (q : Queue)
    → entry_ready q.entry now ≡ true
    → on_read most q.entry.cursor now (some (answer most q)) q.entry ≡ (
      if_ended (ltb (length (answer most q)) most) (take_each (answer most q) (fresh q.entry)),
      map (release q.entry) (let_go (answer most q) q.entry.taken),
    )
unfolding on_read on_answer
on_read_ready most now q r =
    ground (arith, ready-parts q.entry now r, nat_beq_iff q.entry.cursor q.entry.cursor)

pub record Inv (p : ℕ) (q : Queue) : Type 0 where
  pub ascending : Ascending q.stored
  pub numbered : all (λ (h : Held). ltb h.sequence q.numbered) q.stored ≡ true
  pub ahead : q.entry.cursor ≤ q.numbered
  pub covered : Covered p q
  pub awake : Awake p q
  pub counted : Counted p q

module _ (p : ℕ) (q : Queue) (inv : Inv p q) where
  pub keeps-Inv : (h : Held) → MayHappen (keeps h) q → Inv p (happens (keeps h) q)
  unfolding happens told
  keeps-Inv h (past, small) = record {
    ascending =
        Ascending-snoc q.stored h (all-below q.numbered h.sequence q.stored inv.numbered past) small
          inv.ascending;
    numbered =
        all-below-snoc (h.sequence + 1) q.stored h
          (all-below q.numbered (h.sequence + 1) q.stored inv.numbered (omega arith)) (omega arith);
    ahead = ground (arith, inv.ahead);
    covered = λ c. ground (
      arith,
      contains-places-snoc p q.stored h,
      inv.covered,
      inv.ahead,
      nat_beq_iff h.sequence p,
      c,
    );
    awake = λ a b c. ground (arith, a, b);
    counted = ground (arith, inv.counted);
  }

  -- What the node says of a place it has, counted.
  pub done_counted :
      (s : ℕ)
      → contains q.entry.taken s ≡ true
      → count p q.lets
        ≡ count p (q.dones ++ s ∷ []) + (if contains (without s q.entry.taken) p then 1 else 0)
  done_counted s has = ground (
    arith,
    inv.counted,
    count-append p q.dones (s ∷ []),
    contains-without s q.entry.taken p,
    nat_beq_iff s p,
    nat_beq_iff p s,
    has,
  )

  pub moves-Inv : (s : ℕ) → MayHappen (moves s) q → Inv p (happens (moves s) q)
  unfolding happens settled one_picked_up
  moves-Inv s has = record {
    ascending = Ascending-keep (λ (h : Held). not (h.sequence == s)) q.stored inv.ascending;
    numbered = all-keep _ (λ (h : Held). not (h.sequence == s)) q.stored inv.numbered;
    ahead = inv.ahead;
    covered = λ c. ground (
      arith,
      contains-others_than s p q.stored,
      contains-without s q.entry.taken p,
      inv.covered,
      c,
    );
    awake = λ a b c. ground (arith, contains-others_than s p q.stored, inv.awake a b, c);
    counted = done_counted s has;
  }

  pub passes-Inv : (s : ℕ) → MayHappen (passes s) q → Inv p (happens (passes s) q)
  unfolding happens settled
  passes-Inv s has = record {
    ascending = inv.ascending;
    numbered = inv.numbered;
    ahead = inv.ahead;
    covered = λ c. ground (
      arith,
      contains-without s q.entry.taken p,
      inv.covered c,
      any-append (λ (x : ℕ). x == p) q.passed_over (s ∷ []),
      nat_beq_iff s p,
      nat_beq_iff p s,
    );
    awake = inv.awake;
    counted = done_counted s has;
  }

  pub rereads-Inv : (now s : ℕ) → MayHappen (rereads now s) q → Inv p (happens (rereads now s) q)
  unfolding happens read_again
  rereads-Inv now s has = record {
    ascending = inv.ascending;
    numbered = inv.numbered;
    ahead = ground (arith, inv.ahead);
    covered =
        λ c. ground (arith, contains-without s q.entry.taken p, inv.covered c, nat_beq_iff p s);
    awake = λ a b c. ground (arith, b);
    counted = done_counted s has;
  }

  pub misses-Inv :
      (most now : ℕ) → MayHappen (misses most now) q → Inv p (happens (misses most now) q)
  unfolding happens on_read on_answer
  misses-Inv most now may =
      let missed : on_read most q.entry.cursor now none q.entry
          ≡ (record q.entry { not_before = some (now + again_after) }, []) =
        ground (arith, ready-parts q.entry now may, nat_beq_iff q.entry.cursor q.entry.cursor) in
      subst (λ (r : Entry × List Released). Inv p (read_from q r)) (sym missed)
        (record {
          ascending = inv.ascending;
          numbered = inv.numbered;
          ahead = inv.ahead;
          covered = inv.covered;
          awake = inv.awake;
          counted = ground (arith, inv.counted, count-append p q.lets []);
        })

  pub stands-Inv : (st : Standing) → Inv p (happens (stands st) q)
  unfolding happens stand
  stands-Inv st = record {
    ascending = inv.ascending;
    numbered = inv.numbered;
    ahead = ground (arith, inv.ahead);
    covered = λ c. ground (arith, inv.covered c);
    awake = λ a b c. ground (arith, a, b);
    counted = ground (arith, inv.counted);
  }
