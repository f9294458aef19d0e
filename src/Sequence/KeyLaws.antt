-- ===== src/Sequence/KeyLaws.antt =====
-- A key's text tells two tuples of values apart: `ResolvedSet::text` of src/work_step/keys.rs.
use xmip_core_runtime.Base.{
  ℕ, ◌≡◌, ◌↔◌, refl, sym, ap, ◌∙◌, List, [], ◌∷◌, ◌++◌, Option, none, some, arith, Text, length,
  decimal, decimal-injective, decimal-Without, cut_unique, append_unique,
}
use xmip_core_runtime.Journey.{Journey}
use xmip_core_runtime.Sequence.Key.{KeyWord, map_option, part, text, values}

encode : List Text → Text
encode [] = []
encode (v ∷ vs) = part v (encode vs)

part-injective : (v w : Text) (us vs : Text) → part v us ≡ part w vs → (v ≡ w) × (us ≡ vs)
unfolding part
part-injective v w us vs e =
    let digits =
      cut_unique b':' (decimal (length v)) (decimal (length w))
        (decimal-Without b':' (length v) (omega arith))
        (decimal-Without b':' (length w) (omega arith)) e in
    let body = append_unique v w (decimal-injective (length v) (length w) digits.0) digits.1 in
    (body.0, cc (body.1))

append-not-nil : (x : ℕ) (xs ys : Text) → xs ++ x ∷ ys ≡ [] → ⊥
append-not-nil x [] ys e = cc
append-not-nil x (y ∷ xs) ys e = cc

part-not-nil : (v us : Text) → part v us ≡ [] → ⊥
unfolding part
part-not-nil v us e = append-not-nil b':' (decimal (length v)) (v ++ b';' ∷ us) e

encode-injective : (vs ws : List Text) → encode vs ≡ encode ws → vs ≡ ws
unfolding encode
encode-injective [] [] e = refl
encode-injective [] (w ∷ ws) e = absurd (part-not-nil w (encode ws) (sym e))
encode-injective (v ∷ vs) [] e = absurd (part-not-nil v (encode vs) e)
encode-injective (v ∷ vs) (w ∷ ws) e =
    let r = part-injective v w (encode vs) (encode ws) e in rw (r.0, encode-injective vs ws r.1)

text-encode :
    (j : Journey) (promoted : Text → Option Text) (at : Text) (ks : List KeyWord)
    → text j promoted at ks ≡ map_option encode (values j promoted at ks)
unfolding text values encode
text-encode j promoted at [] = refl
text-encode j promoted at (k ∷ ks) = ground (arith, text-encode j promoted at ks)

encoded-eq_iff :
    (us vs : Option (List Text)) {s t : Text}
    → map_option encode us ≡ some s
    → map_option encode vs ≡ some t
    → (s ≡ t) ↔ (us ≡ vs)
encoded-eq_iff none vs hs ht = (λ e. cc, λ e. cc)
encoded-eq_iff (some us) none hs ht = (λ e. cc, λ e. cc)
encoded-eq_iff (some us) (some vs) {s} {t} hs ht =
    (λ e. let same : encode us ≡ encode vs = cc in ap some (encode-injective us vs same), λ e. cc)

-- Two Messages that both have a key in a Correlation have the same key text exactly when every
-- value the key words read is the same, whatever bytes the values hold.
pub text_eq_iff_values :
    (j k : Journey) (p q : Text → Option Text) (at bt : Text) (keys : List KeyWord)
    → {s t : Text} → text j p at keys ≡ some s
    → text k q bt keys ≡ some t
    → (s ≡ t) ↔ (values j p at keys ≡ values k q bt keys)
text_eq_iff_values j k p q at bt keys {s} {t} hs ht =
    encoded-eq_iff (values j p at keys) (values k q bt keys) (sym (text-encode j p at keys) ∙ hs)
      (sym (text-encode k q bt keys) ∙ ht)
