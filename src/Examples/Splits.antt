-- ===== src/Examples/Splits.antt =====
-- A Message split at a concrete input.
use xmip_core_runtime.Base.{ℕ, ◌+◌, refl, Bool, true, false, List, [], ◌∷◌, Text, codes, length}
use xmip_core_runtime.Split.Defs.{
  Result, ok, part, refused, Split, Outcomes, Read, got, ScalarValue, Messages, whole,
}
use xmip_core_runtime.Split.Laws.{IsOutcomes, records_of}
use xmip_core_runtime.Split.Outcome.{Ends, whole_outcome}

-- How many were told, and whether none failed.
abbrev counted : Outcomes (ℕ × Bool)
counted = record {
  new = (0, true);
  took = λ o. o.0;
  is_empty = λ o. o.1;
  succeed = λ n o. (o.0 + 1, o.1);
  fail = λ why n o. (o.0 + 1, false);
}

counted-IsOutcomes : IsOutcomes counted
counted-IsOutcomes = record {
  none_yet = refl;
  none_took = refl;
  succeeded = λ n o. refl;
  succeeded_took = λ n o. refl;
  failed_one = λ why n o. refl;
  failed_took = λ why n o. refl;
}

-- A record a chunk, and a last one refused.
abbrev by_chunk : Split ℕ
by_chunk = record {
  feed = λ n chunk. (n + 1, part chunk ∷ []);
  end = λ n. refused (codes "incomplete") ∷ [];
}

abbrev message : List (List Read)
message = (got (codes "ab") ∷ got (codes "c") ∷ got [] ∷ []) ∷ []

abbrev kept : ℕ → Text → Result ℕ
kept n bytes = ok (length bytes)

-- A Message by its generation, identifier and Sections, and its context by the values it holds.
pub record Made : Type 0 where
  pub generation : ℕ
  pub id : ℕ
  pub sections : List ℕ
  pub context : List (Text × ScalarValue)

abbrev made : Messages Made ℕ (List (Text × ScalarValue))
made = record {
  message_id = λ m. codes "m";
  context = λ m. m.context;
  with_value = λ name value c. (name, value) ∷ c;
  debatched =
      λ m id ss c. record { generation = m.generation + 1; id = id; sections = ss; context = c };
}

abbrev origin : Made
origin = record { generation = 0; id = 9; sections = 1 ∷ []; context = [] }

abbrev minted : ℕ → ℕ
minted n = n + 100

whole_outcome_example :
    Ends made minted origin kept counted
      (records_of by_chunk message 0)
      (whole by_chunk counted kept made minted origin message 0)
whole_outcome_example =
    whole_outcome counted counted-IsOutcomes kept made minted by_chunk origin message 0 refl
