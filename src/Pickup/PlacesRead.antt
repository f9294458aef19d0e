-- ===== src/Pickup/PlacesRead.antt =====
-- That a read of a Subscription's queue keeps what holds of it.
use xmip_core_runtime.Base.{
  ℕ, ◌+◌, ◌<◌, ◌≤◌, ◌≡◌, refl, sym, subst, ap, Bool, true, false, ◌||◌, List, ◌++◌, map, contains,
  length, ltb, leb, if◌then◌else◌, nat_eq, arith, ltb→lt,
}
use xmip_core_runtime.Pickup.State.{Entry}
use xmip_core_runtime.Pickup.Released.{Held, Released, release, take_each, let_go, if_ended}
use xmip_core_runtime.Pickup.Places.{
  first, places, places_let_go, from_place, Queue, reads, happens, read_from, MayHappen, count,
}
use xmip_core_runtime.Pickup.Reading.{
  contains-from_place, Ascending, Ascending-keep, all-keep, cursor-le-numbered, all-from_place,
  take_each-pending, take_each-taken, count-let_go, cursor-le, read_or_ahead, read_to_end,
}
use xmip_core_runtime.Pickup.PlacesInv.{
  count-append, places-let_go, fresh, ready-parts, on_read_ready, Inv,
}

module _ (p : ℕ) (q : Queue) (inv : Inv p q) (most now : ℕ) where
  abbrev there : List Held
  there = from_place q.entry.cursor q.stored

  abbrev read_on : Entry
  read_on = take_each (first most there) (fresh q.entry)

  pub there-Ascending : Ascending there
  there-Ascending =
      Ascending-keep (λ (h : Held). leb q.entry.cursor h.sequence) q.stored inv.ascending

  pub on_from : q.entry.cursor ≤ read_on.cursor
  on_from =
      cursor-le most there (fresh q.entry) there-Ascending (all-from_place q.entry.cursor q.stored)

  pub on_to : read_on.cursor ≤ q.numbered
  on_to =
      cursor-le-numbered most q.numbered there (fresh q.entry)
        (all-keep _ (λ (h : Held). leb q.entry.cursor h.sequence) q.stored inv.numbered) inv.ahead

  pub read_covered :
      contains (places q.stored) p ≡ true
      → (leb read_on.cursor p || (contains read_on.taken p || contains q.passed_over p)) ≡ true
  read_covered c = ground (
    arith,
    inv.covered c,
    contains-from_place q.entry.cursor p q.stored,
    take_each-taken p (first most there) (fresh q.entry),
    read_or_ahead p most there (fresh q.entry) there-Ascending
        (all-from_place q.entry.cursor q.stored),
  )

  pub read_awake :
      length (first most there) < most
      → contains (places q.stored) p ≡ true
      → ltb p read_on.cursor ≡ true
  read_awake short c = ground (
    arith,
    on_from,
    contains-from_place q.entry.cursor p q.stored,
    read_to_end p most there (fresh q.entry) there-Ascending short,
  )

  pub read_counted :
      count p
        (q.lets ++ places_let_go (map (release q.entry) (let_go (first most there) q.entry.taken)))
      ≡ count p q.dones + (if contains read_on.taken p then 1 else 0)
  read_counted = ground (
    arith,
    inv.counted,
    count-append p q.lets
        (places_let_go (map (release q.entry) (let_go (first most there) q.entry.taken))),
    ap (count p) (places-let_go q.entry (let_go (first most there) q.entry.taken)),
    count-let_go p (first most there) (fresh q.entry),
  )

  pub read-Inv :
      (ended : Bool)
      → ltb (length (first most there)) most ≡ ended
      → q.entry.pending ≡ true
      → Inv p (
          read_from q (
            if_ended ended read_on,
            map (release q.entry) (let_go (first most there) q.entry.taken),
          ))
  read-Inv true short pending = record {
    ascending = inv.ascending;
    numbered = inv.numbered;
    ahead = on_to;
    covered = read_covered;
    awake = λ a b c. read_awake (ltb→lt _ _ short) c;
    counted = read_counted;
  }
  read-Inv false full pending = record {
    ascending = inv.ascending;
    numbered = inv.numbered;
    ahead = on_to;
    covered = read_covered;
    awake = λ a b c.
        absurd (ground (arith, b, pending, take_each-pending (first most there) (fresh q.entry)));
    counted = read_counted;
  }

  pub reads-Inv : MayHappen (reads most now) q → Inv p (happens (reads most now) q)
  unfolding happens
  reads-Inv may =
      subst (λ (r : Entry × List Released). Inv p (read_from q r))
        (sym (on_read_ready most now q may))
        (read-Inv (ltb (length (first most there)) most) refl (ready-parts q.entry now may).0)
