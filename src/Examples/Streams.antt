-- ===== src/Examples/Streams.antt =====
-- The shared read of a Stream at a concrete input.
use xmip_core_runtime.Base.{ℕ, zero, suc, refl, [], ◌∷◌}
use xmip_core_runtime.StreamShare.OneRead.{Answer, chunk, end, Source, opened, join, chunk_loop}
use xmip_core_runtime.StreamShare.Window.{IsWindow, Answered, chunk_answers}

-- A Stream of two chunks.
abbrev read : ℕ → Answer
read zero = chunk (1 ∷ [])
read (suc zero) = chunk (2 ∷ [])
read (suc (suc n)) = end

abbrev joined : Source
joined = join 1 0 0 (opened 0)

joined-IsWindow : IsWindow read joined
unfolding join opened
joined-IsWindow = record { segment = tt; next_place = refl; at_end = λ e. cc }

chunk_answers_example : Answered read 1 joined (chunk_loop read 4 100 1 1 0 joined)
chunk_answers_example = chunk_answers read 100 1 1 0 joined joined-IsWindow
