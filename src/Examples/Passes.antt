-- ===== src/Examples/Passes.antt =====
-- The properties of a departure and of a key at concrete inputs.
use xmip_core_runtime.Base.{
  ℕ, ◌+◌, ◌⊎◌, false, none, ◌*◌, ◌≤◌, ◌≡◌, ◌↔◌, refl, sym, subst, List, [], ◌∷◌, Option, some, Text,
  codes, arith, length, decimal, u32_mod,
}
use xmip_core_runtime.Sending.Defs as Sending
use xmip_core_runtime.Sending.Defs.{Subscriber, Port, tries}
use xmip_core_runtime.Departure.Defs.{Departed, Progress, depart_port, waiting}
use xmip_core_runtime.Departure.Pass.{Fits, Passed, used, depart_port-Passed}
use xmip_core_runtime.Departure.Passes.{passes, passes_bound}
use xmip_core_runtime.Sequence.Key.{
  KeyWord, receive_location, context, text, values, key_value, part,
}
use xmip_core_runtime.Sequence.KeyLaws.{text_eq_iff_values}
use xmip_core_runtime.SendStep.Dispatch.{Ended}
use xmip_core_runtime.SendStep.Pass.{HandOn, Written, concluded}
use xmip_core_runtime.SendStep.PassLaws.{Told, pass_concludes}
use xmip_core_runtime.Examples.Data.{journey_at, departure_at, out_port, sends, refusing, fresh}

abbrev shown : Subscriber → Text
shown sub = codes "out"

fresh-Fits : Fits out_port fresh
unfolding tries waiting
fresh-Fits = record {
  open_location = ground arith;
  open_try = ground arith;
  small = ground arith;
  is_waiting = refl;
}

depart_port-Passed_example :
    (q : Progress) × (ds : List Departed) × (depart_port shown out_port refusing fresh
      ≡ some (q, ds))
    × Passed out_port fresh q ds
depart_port-Passed_example = depart_port-Passed shown out_port refusing fresh fresh-Fits

passes_bound_example :
    (q : Progress) × (ds : List Departed) × (passes shown out_port (refusing ∷ refusing ∷ []) fresh
      ≡ some (q, ds))
    × (length ds + used out_port fresh ≤ 2 * tries out_port)
passes_bound_example =
    passes_bound shown out_port (refusing ∷ refusing ∷ []) fresh (ground arith) fresh-Fits

abbrev in_words : ℕ → Text
in_words duration = codes "1s"

abbrev storage : HandOn → Written
storage h = Written.taken

abbrev second : Text → Option ℕ
second words = some 1000

abbrev out : Text
out = codes "out"

sends_out : Sending.port sends out ≡ out_port
unfolding Sending.port
sends_out = refl

sends-Fits : Fits (Sending.port sends out) (departure_at 1).progress
sends-Fits = subst (λ (p : Port). Fits p fresh) (sym sends_out) fresh-Fits

sends_small : length (Sending.port sends out).locations ≤ u32_mod
sends_small = rw sends_out (ground arith)

pass_concludes_example :
    let port = Sending.port sends out in
    (q : Progress) × (ds : List Departed) × (depart_port shown port refusing fresh ≡ some (q, ds))
    × (let r =
          concluded shown in_words storage second sends false
            (record (departure_at 1) { progress = q })
            ds in
        ((ds ≡ []) × (r ≡ (none, Ended.untried)))
        ⊎ ((h : HandOn) × (r.0 ≡ some h)
            × Told shown port (Sending.backoff second port) (departure_at 1) ds h))
pass_concludes_example =
    pass_concludes shown in_words storage second sends out refusing (departure_at 1) refl
      sends_small sends-Fits

-- A context value that holds the key's own separators.
abbrev promoted : Text → Option Text
promoted name = some (codes "1:a;")

abbrev keys : List KeyWord
keys = receive_location ∷ context (codes "customer") ∷ []

text_eq_iff_values_example :
    (codes "2:in;4:1:a;;" ≡ codes "2:in;4:1:a;;")
    ↔ (values (journey_at 1) promoted [] keys ≡ values (journey_at 2) promoted [] keys)
unfolding text key_value part decimal
text_eq_iff_values_example =
    text_eq_iff_values (journey_at 1) (journey_at 2) promoted promoted [] [] keys refl refl
