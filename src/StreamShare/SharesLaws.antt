-- ===== src/StreamShare/SharesLaws.antt =====
-- Every read that departures of a Stream share is a window of it, however they join, move and leave:
-- src/stream_share.rs.
use xmip_core_runtime.Base.{
  ℕ, ◌+◌, ◌≤◌, ◌≡◌, refl, subst, ◌⊎◌, inl, inr, Bool, true, not, ◌&&◌, ◌||◌, List, [], ◌∷◌, Option,
  none, some, arith, get, insert, get-insert, get-insert_self, if◌then◌else◌, ltb, ◌==◌, nat_eq,
  nat_beq_iff, Bool-cases, Option-cases,
}
use xmip_core_runtime.StreamShare.OneRead.{Answer, Source, opened, reaches, join, leave}
use xmip_core_runtime.StreamShare.Window.{IsWindow}
use xmip_core_runtime.StreamShare.Shares.{
  Shared, left, leaves, fits, beats, readers_of, best, joins, opens, better,
}

-- Every read of the Stream is a window of it.
pub record AllWindows (read : ℕ → Answer) (s : Shared) : Type 0 where
  pub window : (id : ℕ) (source : Source) → get id s.store ≡ some source → IsWindow read source

get_inserted :
    (k j : ℕ) (v w : Source) (m : List (ℕ × Source))
    → get j (insert k v m) ≡ some w
    → (v ≡ w) ⊎ (get j m ≡ some w)
get_inserted k j v w m e = elim (Bool-cases (k == j)) [
  | inl same ↦ inl (ground (arith, get-insert k j v m))
  | inr other ↦ inr (ground (arith, get-insert k j v m))
]

-- One read changed for another window.
pub kept-AllWindows :
    (read : ℕ → Answer) (s t : Shared) (id : ℕ) (source : Source)
    → t.store ≡ insert id source s.store
    → IsWindow read source
    → AllWindows read s
    → AllWindows read t
kept-AllWindows read s t id source e w a = record {
  window = λ j other g. elim (get_inserted id j source other s.store (rw e at g)) [
    | inl same ↦ subst (λ (x : Source). IsWindow read x) same w
    | inr old ↦ a.window j other old
  ];
}

leave-IsWindow :
    (read : ℕ → Answer) (number : ℕ) (s : Source) → IsWindow read s → IsWindow read (leave number s)
unfolding leave
leave-IsWindow read number s w = record {
  segment = w.segment;
  next_place = w.next_place;
  at_end = w.at_end;
}

join-IsWindow :
    (read : ℕ → Answer) (number place now : ℕ) (s : Source)
    → IsWindow read s
    → IsWindow read (join number place now s)
unfolding join
join-IsWindow read number place now s w = record {
  segment = w.segment;
  next_place = w.next_place;
  at_end = w.at_end;
}

opened-IsWindow : (read : ℕ → Answer) (place : ℕ) → IsWindow read (opened place)
unfolding opened
opened-IsWindow read place = record { segment = tt; next_place = ground arith; at_end = λ e. cc }

pub left-AllWindows :
    (read : ℕ → Answer) (on number : ℕ) (s : Shared)
    → AllWindows read s
    → AllWindows read (left on number s)
unfolding left
left-AllWindows read on number s a = elim (Option-cases (get on s.store)) [
  | inl e ↦ rw (left, e) a
  | inr (source, e) ↦
      kept-AllWindows read s (left on number s) on (leave number source) (rw (left, e) refl)
        (leave-IsWindow read number source (a.window on source e)) a
]

pub leaves-AllWindows :
    (read : ℕ → Answer) (on : Option ℕ) (number : ℕ) (s : Shared)
    → AllWindows read s
    → AllWindows read (leaves on number s)
leaves-AllWindows read none number s a = a
leaves-AllWindows read (some on) number s a = left-AllWindows read on number s a

pub joins-AllWindows :
    (read : ℕ → Answer) (id number place now : ℕ) (s : Shared)
    → AllWindows read s
    → AllWindows read (joins id number place now s)
unfolding joins
joins-AllWindows read id number place now s a = elim (Option-cases (get id s.store)) [
  | inl e ↦ rw (joins, e) a
  | inr (source, e) ↦
      kept-AllWindows read s (joins id number place now s) id (join number place now source)
        (rw (joins, e) refl) (join-IsWindow read number place now source (a.window id source e)) a
]

pub opens-AllWindows :
    (read : ℕ → Answer) (number place now : ℕ) (s : Shared)
    → AllWindows read s
    → AllWindows read (opens number place now s).0
unfolding opens
opens-AllWindows read number place now s a =
    kept-AllWindows read s (opens number place now s).0 s.next
      (join number place now (opened place)) refl
      (join-IsWindow read number place now (opened place) (opened-IsWindow read place)) a

-- A read that a departure at `place` may take from: one that let go of nothing it needs.
abbrev pub Reads : ℕ → ℕ → Shared → Type 0
Reads id place s = (source : Source) × (get id s.store ≡ some source) × (source.first ≤ place)

pub fits-Reads : (id place : ℕ) (s : Shared) → fits place (get id s.store) ≡ true → Reads id place s
unfolding reaches
fits-Reads id place s e = elim (Option-cases (get id s.store)) [
  | inl g ↦ ground arith
  | inr (source, g) ↦ (source, g, ground arith)
]

pub joins-Reads :
    (id number place now : ℕ) (s : Shared)
    → Reads id place s
    → Reads id place (joins id number place now s)
unfolding join joins
joins-Reads id number place now s (source, g, h) =
    let t = join number place now source in (t, rw (joins, g) (get-insert_self id t s.store), h)

pub left-Reads :
    (on number id place : ℕ) (s : Shared) → Reads id place s → Reads id place (left on number s)
unfolding leave left
left-Reads on number id place s (source, g, h) = elim (Option-cases (get on s.store)) [
  | inl e ↦ rw (left, e) (source, g, h)
  | inr (other, e) ↦ elim (Bool-cases (on == id)) [
    | inl same ↦
        let t = leave number other in
        (
          t,
          rw (left, e) (ground (arith, get-insert on id t s.store, same)),
          ground (arith, nat_beq_iff on id, same, g, e, h),
        )
    | inr distinct ↦ (
      source,
      rw (left, e) (ground (arith, get-insert on id (leave number other) s.store, distinct, g)),
      h,
    )
  ]
]

pub opens-Reads :
    (number place now : ℕ) (s : Shared) → let r = opens number place now s in Reads r.1 place r.0
unfolding opens join opened
opens-Reads number place now s =
    let t = join number place now (opened place) in
    (t, get-insert_self s.next t s.store, ground arith)

pub best-fits :
    (place : ℕ) (store : List (ℕ × Source)) (acc : Option (ℕ × ℕ)) (ids : List ℕ) (n id : ℕ)
    → best place store acc ids ≡ some (n, id)
    → (acc ≡ some (n, id)) ⊎ (fits place (get id store) ≡ true)
unfolding best
best-fits place store acc [] n id e = inl e
best-fits place store acc (j ∷ ids) n id e =
    let source = get j store in
    let test = fits place source && beats (readers_of source) acc in
    elim (best-fits place store (if test then some (readers_of source, j) else acc) ids n id e) [
      | inr f ↦ inr f
      | inl f ↦ elim (Bool-cases test) [
        | inl chosen ↦
            let here : some (readers_of source, j) ≡ some (n, id) = rw chosen at f in
            let fit : fits place source ≡ true = ground (arith, chosen) in
            inr (ground (arith, here, fit))
        | inr passed ↦ inl (rw passed at f)
      ]
    ]

pub better-fits :
    (locked : ℕ → Bool) (mine others place : ℕ) (store : List (ℕ × Source)) (at : ℕ) (ids : List ℕ)
    → (id : ℕ) → better locked mine others place store at ids ≡ some id
    → fits place (get id store) ≡ true
unfolding better
better-fits locked mine others place store at [] id e = cc
better-fits locked mine others place store at (j ∷ ids) id e =
    let source = get j store in
    let n = readers_of source in
    let more = ltb others n || n == others && ltb at mine in
    elim (Bool-cases (not (at == mine) && not (locked j) && more && fits place source)) [
      | inl chosen ↦
          let here : some j ≡ some id = rw chosen at e in
          let fit : fits place source ≡ true = ground (arith, chosen) in ground (arith, here, fit)
      | inr passed ↦ better-fits locked mine others place store (at + 1) ids id (rw passed at e)
    ]
