-- ===== src/Split/Laws.antt =====
-- A split is all or nothing, in the order of its records: src/split.rs.
use xmip_core_runtime.Base.{
  ℕ, ◌+◌, ◌≡◌, refl, sym, ap, ◌∙◌, inl, inr, Bool, true, false, ◌&&◌, List, [], ◌∷◌, ◌++◌, Text,
  arith, length, Bool-cases,
}
use xmip_core_runtime.Split.Defs.{
  Result, ok, err, and_then, Record, part, refused, Split, Outcomes, Splitting, Read, Messages, got,
  unread, new, write, feed, ended, end, feeds, sections, parts, whole,
}

-- What `xcore::Outcomes` promises: an item that failed stays failed, and the items are counted.
pub record IsOutcomes {O : Type 0} (outcomes : Outcomes O) : Type 0 where
  pub none_yet : outcomes.is_empty outcomes.new ≡ true
  pub none_took : outcomes.took outcomes.new ≡ 0
  pub succeeded : (n : ℕ) (o : O) → outcomes.is_empty (outcomes.succeed n o) ≡ outcomes.is_empty o
  pub succeeded_took : (n : ℕ) (o : O) → outcomes.took (outcomes.succeed n o) ≡ outcomes.took o + 1
  pub failed_one : (why : Text) (n : ℕ) (o : O) → outcomes.is_empty (outcomes.fail why n o) ≡ false
  pub failed_took :
      (why : Text) (n : ℕ) (o : O) → outcomes.took (outcomes.fail why n o) ≡ outcomes.took o + 1

abbrev pub readable_section : List Read → Bool
readable_section [] = true
readable_section (got bytes ∷ reads) = readable_section reads
readable_section (unread why ∷ reads) = false

abbrev pub readable : List (List Read) → Bool
readable [] = true
readable (one ∷ rest) = readable_section one && readable rest

abbrev pub all_parts : List Record → Bool
all_parts [] = true
all_parts (part bytes ∷ records) = all_parts records
all_parts (refused reason ∷ records) = false

-- What one splitting of the unit answers of a Section's bytes.
unfoldable pub answers_section : {U : Type 0} → Split U → List Read → U → U × List Record
answers_section split [] u = (u, [])
answers_section split (got [] ∷ reads) u = (u, [])
answers_section split (got (b ∷ bs) ∷ reads) u =
    let r = split.feed u (b ∷ bs) in
    let rest = answers_section split reads r.0 in (rest.0, r.1 ++ rest.1)
answers_section split (unread why ∷ reads) u = (u, [])

unfoldable pub answers_sections : {U : Type 0} → Split U → List (List Read) → U → U × List Record
answers_sections split [] u = (u, [])
answers_sections split (one ∷ rest) u =
    let r = answers_section split one u in
    let more = answers_sections split rest r.0 in (more.0, r.1 ++ more.1)

-- Every record of a Message, in their order: those its bytes complete, then what remains.
abbrev pub records_of : {U : Type 0} → Split U → List (List Read) → U → List Record
records_of split from u = let r = answers_sections split from u in r.1 ++ split.end r.0

-- The outcomes of `records` told one after another, the first at place `n`.
unfoldable pub told : {O : Type 0} → Outcomes O → (n : ℕ) → List Record → O → O
told outcomes n [] o = o
told outcomes n (part bytes ∷ records) o = told outcomes (n + 1) records (outcomes.succeed n o)
told outcomes n (refused reason ∷ records) o =
    told outcomes (n + 1) records (outcomes.fail reason n o)

and_then_ok {ℓ} : {A : Type ℓ} (r : Result A) → and_then r (λ a. ok a) ≡ r
unfolding and_then
and_then_ok (ok a) = refl
and_then_ok (err why) = refl

and_then_then {ℓ} :
    {A B C : Type ℓ} (r : Result A) (f : A → Result B) (g : B → Result C)
    → and_then (and_then r f) g ≡ and_then r (λ a. and_then (f a) g)
unfolding and_then
and_then_then (ok a) f g = refl
and_then_then (err why) f g = refl

and_then_cong {ℓ} :
    {A B : Type ℓ} (r : Result A) (f g : A → Result B)
    → ((a : A) → f a ≡ g a)
    → and_then r f ≡ and_then r g
unfolding and_then
and_then_cong (ok a) f g e = e a
and_then_cong (err why) f g e = refl

module _ {O S : Type 0} (outcomes : Outcomes O) (section : ℕ → Text → Result S) where
  write-append :
      (xs ys : List Record) (s : Splitting O S)
      → write outcomes section (xs ++ ys) s
        ≡ and_then (write outcomes section xs s) (λ t. write outcomes section ys t)
  unfolding write and_then
  write-append [] ys s = refl
  write-append (part bytes ∷ xs) ys s = elim (Bool-cases (outcomes.is_empty s.failures)) [
    | inl e ↦
        rw (write, e)
          (and_then_cong (section (length s.written) bytes) _ _ (λ one. write-append xs ys _)
            ∙ sym (and_then_then (section (length s.written) bytes) _ _))
    | inr e ↦ rw (write, e) (write-append xs ys _)
  ]
  write-append (refused reason ∷ xs) ys s = write-append xs ys _

module _ {U O S : Type 0} (split : Split U) (outcomes : Outcomes O)
    (section : ℕ → Text → Result S) where
  -- Two writes with the unit between them are one.
  joins_once :
      (xs ys : List Record) (u : U) (s : Splitting O S)
      → (f : Splitting O S → Result (U × Splitting O S))
      → ((t : Splitting O S) → f t ≡ and_then (write outcomes section ys t) (λ v. ok (u, v)))
      → {r : Result (U × Splitting O S)} → r ≡ and_then (write outcomes section xs s) f
      → r ≡ and_then (write outcomes section (xs ++ ys) s) (λ t. ok (u, t))
  joins_once xs ys u s f h e =
      e
      ∙ and_then_cong (write outcomes section xs s) _ _ h
      ∙ sym (and_then_then (write outcomes section xs s) _ _)
      ∙ ap (λ x. and_then x (λ t. ok (u, t))) (sym (write-append outcomes section xs ys s))

  feeds_once :
      (reads : List Read) (u : U) (s : Splitting O S)
      → readable_section reads ≡ true
      → let r = answers_section split reads u in
        feeds split outcomes section reads (u, s)
        ≡ and_then (write outcomes section r.1 s) (λ t. ok (r.0, t))
  unfolding feeds feed answers_section write and_then
  feeds_once [] u s h = refl
  feeds_once (got [] ∷ reads) u s h = refl
  feeds_once (got (b ∷ bs) ∷ reads) u s h =
      let r = split.feed u (b ∷ bs) in
      let rest = answers_section split reads r.0 in
      joins_once r.1 rest.1 rest.0 s _ (λ t. feeds_once reads r.0 t h)
        (and_then_then (write outcomes section r.1 s) _ _)
  feeds_once (unread why ∷ reads) u s h = cc

  sections_once :
      (from : List (List Read)) (u : U) (s : Splitting O S)
      → readable from ≡ true
      → let r = answers_sections split from u in
        sections split outcomes section from (u, s)
        ≡ and_then (write outcomes section r.1 s) (λ t. ok (r.0, t))
  unfolding sections answers_sections and_then write
  sections_once [] u s h = refl
  sections_once (one ∷ rest) u s h =
      let r = answers_section split one u in
      let more = answers_sections split rest r.0 in
      joins_once r.1 more.1 more.0 s (λ t. sections split outcomes section rest (r.0, t))
        (λ t. sections_once rest r.0 t (ground (arith, h)))
        (ap (λ x. and_then x (λ t. sections split outcomes section rest t))
            (feeds_once one u s (ground (arith, h)))
          ∙ and_then_then (write outcomes section r.1 s) _ _)

module _ {U M O S C : Type 0} (split : Split U) (outcomes : Outcomes O)
    (section : ℕ → Text → Result S) (of : Messages M S C) (ids : ℕ → ℕ) where
  -- However its bytes are read, in chunks of whatever sizes, a Message whose Sections are read whole is
  -- split as its records written at once: those that its bytes complete, in order, then what remains.
  pub whole_once :
      (from : M) (reads : List (List Read)) (u : U)
      → readable reads ≡ true
      → whole split outcomes section of ids from reads u
        ≡ and_then
            (write outcomes section (records_of split reads u) (new outcomes))
            (λ t. ok (parts of ids from (ended outcomes t)))
  unfolding whole end and_then
  whole_once from reads u h =
      let r = answers_sections split reads u in
      let s = new outcomes in
      ap
        (λ x.
          and_then x (λ s. and_then (end split outcomes section s) λ e. ok (parts of ids from e)))
        (sections_once split outcomes section reads u s h)
      ∙ and_then_then (write outcomes section r.1 s) _ _
      ∙ and_then_cong (write outcomes section r.1 s) _ _
          (λ t. and_then_then (write outcomes section (split.end r.0) t) _ _)
      ∙ sym (and_then_then (write outcomes section r.1 s) _ _)
      ∙ ap (λ x. and_then x (λ t. ok (parts of ids from (ended outcomes t))))
          (sym (write-append outcomes section r.1 (split.end r.0) s))
