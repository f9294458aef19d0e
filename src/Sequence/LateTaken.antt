-- ===== src/Sequence/LateTaken.antt =====
-- What a late taking leaves of a Message that waited: src/sequence/late.rs.
use xmip_core_runtime.Base.{
  ℕ, ◌≡◌, ◌⊎◌, ◌∙◌, refl, ap, inl, inr, Bool, true, false, ◌&&◌, List, [], ◌∷◌, ◌++◌, Option, none,
  some, Text, text_eq, arith, is_some, Bool-cases, Option-cases,
}
use xmip_core_runtime.Journey.{Journey, Sequenced, GroupDelivery}
use xmip_core_runtime.Sequence.Point.{Point, Hold, place}
use xmip_core_runtime.Sending.Defs.{Subscriber, Sends, is_empty}
use xmip_core_runtime.Sequence.Late.{
  point, points_of, waits_in, waits_for_group, waits_for_places, Promoted, skips, told_queue,
  at_point, in_group, then_placed, group_placed, placed, late_places, Taken, taken, lapsed, unable,
  handed_on, Round, take_late,
}

holds_one :
    (b : Bool) (xs : List Sequenced) (s : Sequenced) → (b && is_empty (xs ++ s ∷ [])) ≡ false
holds_one b [] s = ground arith
holds_one b (x ∷ xs) s = ground arith

module _ (named : Text → ℕ) (cluster : Text) (sends : Sends) (to : Subscriber) where
  -- A delivery's place taken, it waits for none in its Group.
  abbrev AfterGroup : Journey → Option (Option Hold × Journey) → Type 0
  AfterGroup j none = Unit {0}
  AfterGroup j (some (some hold, told)) =
      (waits_for_group sends told ≡ false) × (waits_for_group sends j ≡ true)
  AfterGroup j (some (none, told)) = (told ≡ j) × (waits_for_group sends j ≡ false)

  told_queue-AfterGroup :
      (j : Journey) (g : GroupDelivery) (o : Option Hold)
      → waits_for_group sends j ≡ true
      → AfterGroup j (told_queue j g o)
  unfolding waits_for_group
  told_queue-AfterGroup j g none w = tt
  told_queue-AfterGroup j g (some hold) w = (refl, w)

  at_point-AfterGroup :
      (j : Journey) (promoted : Promoted) (g : GroupDelivery) (o : Option Point)
      → j.group ≡ some g
      → point sends g.name ≡ o
      → is_some g.queue ≡ false
      → AfterGroup j (at_point named cluster j promoted g o)
  unfolding waits_for_group
  at_point-AfterGroup j promoted g none e p q = (refl, ground (arith, e, p))
  at_point-AfterGroup j promoted g (some p) e o q =
      told_queue-AfterGroup j g (place named p cluster g.delivery j promoted)
        (ground (arith, e, o, q))

  in_group-AfterGroup :
      (j : Journey) (promoted : Promoted) (o : Option GroupDelivery)
      → j.group ≡ o
      → AfterGroup j (in_group named cluster sends j promoted o)
  unfolding waits_for_group
  in_group-AfterGroup j promoted none e = (refl, ground (arith, e))
  in_group-AfterGroup j promoted (some g) e = elim (Bool-cases (is_some g.queue)) [
    | inl has ↦ rw has (refl, ground (arith, e, has))
    | inr waits ↦ rw waits (at_point-AfterGroup j promoted g (point sends g.name) e refl waits)
  ]

  abbrev Placed : Bool → Option GroupDelivery → Option (List Hold × Journey) → Type 0
  Placed none_held g none = Unit {0}
  Placed none_held g (some (holds, told)) = (is_empty told.sequences ≡ none_held) × (told.group ≡ g)

  placed-Placed :
      (points : List Point) (j : Journey) (promoted : Promoted) (holds : List Hold)
      → Placed
          (is_empty points && is_empty j.sequences)
          j.group
          (placed named cluster points j promoted holds)
  unfolding placed
  placed-Placed [] j promoted holds = (refl, refl)
  placed-Placed (p ∷ ps) j promoted holds =
      elim (Option-cases (place named p cluster j.journey_id j promoted)) [
        | inl e ↦ rw (placed, e) tt
        | inr (hold, e) ↦
            let s : Sequenced = record { queue = hold.queue; skips = skips p.on_failure } in
            let after : Journey = record j { sequences = j.sequences ++ s ∷ [] } in
            rw (placed, e)
              (rw (holds_one (is_empty ps) j.sequences s) at
                (placed-Placed ps after promoted (holds ++ hold ∷ [])))
      ]

  -- What a late taking leaves of a Message that waited.
  abbrev After : Journey → Option (List Hold × Journey) → Type 0
  After j none = Unit {0}
  After j (some (holds, told)) =
      (waits_for_group sends told ≡ false)
      × ((waits_for_group sends j ≡ true) ⊎ (waits_for_places sends told to ≡ false))

  waits_seen :
      (j : Journey)
      → waits_for_places sends j to ≡ true
      → waits_for_group sends j ≡ false
      → (is_empty (points_of sends to) ≡ false) × (is_empty j.sequences ≡ true)
  unfolding waits_for_places
  waits_seen j w g = ground (arith, w, g)

  waits_no_more :
      (told : Journey)
      → waits_for_group sends told ≡ false
      → is_empty told.sequences ≡ false
      → waits_for_places sends told to ≡ false
  unfolding waits_for_places
  waits_no_more told g s = ground (arith, g, s)

  Placed-After :
      (j told : Journey) (r : Option (List Hold × Journey))
      → told ≡ j
      → waits_for_places sends j to ≡ true
      → waits_for_group sends j ≡ false
      → Placed (is_empty (points_of sends to) && is_empty told.sequences) told.group r
      → After j r
  unfolding waits_for_group
  Placed-After j told none same w g p = tt
  Placed-After j told (some (holds, after)) same w g p =
      let (some_points, none_held) = waits_seen j w g in
      let alone : waits_for_group sends after ≡ false =
        ap (waits_in sends) (p.1 ∙ ap (λ (x : Journey). x.group) same) ∙ g in
      (alone, inr (waits_no_more after alone (p.0 ∙ ground (arith, some_points))))

  then_placed-After :
      (j : Journey) (promoted : Promoted) (o : Option (Option Hold × Journey))
      → waits_for_places sends j to ≡ true
      → AfterGroup j o
      → After j (then_placed named cluster (points_of sends to) promoted o)
  unfolding then_placed
  then_placed-After j promoted none w a = tt
  then_placed-After j promoted (some (some hold, told)) w a = (a.0, inl a.1)
  then_placed-After j promoted (some (none, told)) w a =
      Placed-After j told _ a.0 w a.1 (placed-Placed (points_of sends to) told promoted [])

  abbrev pub AfterTaken : Journey → Taken → Type 0
  AfterTaken j unable = Unit {0}
  AfterTaken j lapsed = Unit {0}
  AfterTaken j (taken told) =
      (waits_for_group sends told ≡ false)
      × ((waits_for_group sends j ≡ true) ⊎ (waits_for_places sends told to ≡ false))

  handed_on-AfterTaken :
      (j : Journey) (hand_on : List Hold → Journey → Option Bool) (o : Option (List Hold × Journey))
      → After j o
      → AfterTaken j (handed_on hand_on o)
  handed_on-AfterTaken j hand_on none a = tt
  handed_on-AfterTaken j hand_on (some (holds, told)) a = elim (Option-cases (hand_on holds told)) [
    | inl e ↦ rw (AfterTaken, e) tt
    | inr (true, e) ↦ rw (AfterTaken, e) a
    | inr (false, e) ↦ rw (AfterTaken, e) tt
  ]

  pub take_late-AfterTaken :
      (r : Round) (j : Journey)
      → waits_for_places sends j to ≡ true
      → AfterTaken j (take_late named cluster sends to r j)
  unfolding take_late late_places group_placed
  take_late-AfterTaken r j w = elim (Option-cases r.promoted) [
    | inl e ↦ rw (take_late, w, e) tt
    | inr (promoted, e) ↦
        rw (take_late, w, e)
          (handed_on-AfterTaken j r.hand_on (late_places named cluster sends j to promoted) (
            then_placed-After j promoted (group_placed named cluster sends j promoted) w
              (in_group-AfterGroup j promoted j.group refl)))
  ]
