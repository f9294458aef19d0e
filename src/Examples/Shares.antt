-- ===== src/Examples/Shares.antt =====
-- A Stream's shared reads, and an operator's act, at concrete inputs.
use xmip_core_runtime.Base.{
  ℕ, zero, suc, ◌++◌, ◌≡◌, ◌<◌, refl, Bool, true, false, [], ◌∷◌, none, Text, codes, arith, length,
  get, insert,
}
use xmip_core_runtime.Journey.{Journey, JourneyState}
use xmip_core_runtime.StreamShare.OneRead.{Answer, chunk, end, opened, join}
use xmip_core_runtime.StreamShare.Shares.{joined, Shared, opens, Lent}
use xmip_core_runtime.StreamShare.SharesLaws.{AllWindows, opens-AllWindows}
use xmip_core_runtime.StreamShare.Taking.{IsTaken, IsThere, joined-Reads}
use xmip_core_runtime.StreamShare.Among.{take_among, take_among-IsTaken}
use xmip_core_runtime.StreamShare.Others.{joined-IsThere}
use xmip_core_runtime.StreamShare.Lent.{read_bytes}
use xmip_core_runtime.StreamShare.LentLaws.{before, unread, Call, reads, Keeps, reads_refine}
use xmip_core_runtime.StreamShare.LentAnswers.{is_answer, read_bytes_answers}
use xmip_core_runtime.SendStep.Pass.{taken}
use xmip_core_runtime.SendStep.MessageAct.{retry, kept, claimed, Storage, act}
use xmip_core_runtime.SendStep.MessageActLaws.{Settles, act-Settles}
use xmip_core_runtime.Examples.Data.{journey_at, claim_at}

-- A Stream of two chunks.
abbrev read : ℕ → Answer
read zero = chunk (1 ∷ 2 ∷ [])
read (suc zero) = chunk (3 ∷ [])
read (suc (suc n)) = end

abbrev none_read : Shared
none_read = record { reads = []; store = []; next = 0 }

abbrev shared : Shared
shared = (opens 0 0 0 none_read).0

abbrev lent_first : Lent
lent_first = record { on = 0; number = 0; place = 0; taken = 0; held = none; at = 0 }

none_read-AllWindows : AllWindows read none_read
unfolding get
none_read-AllWindows = record { window = λ id source e. absurd (ground (arith, e)) }

shared-AllWindows : AllWindows read shared
shared-AllWindows = opens-AllWindows read 0 0 0 none_read none_read-AllWindows

shared-IsThere : IsThere 0 shared
unfolding opens get insert
shared-IsThere = (join 0 0 0 (opened 0), refl)

abbrev no_lock : ℕ → Bool
no_lock id = false

-- Another departure joins before each read.
abbrev call : Call
call = record {
  others = λ s. (joined none 1 0 0 s).0;
  locked = no_lock;
  fuel = 2;
  now = 0;
  size = 1;
}

joins-AllWindows : (s : Shared) → AllWindows read s → AllWindows read (joined none 1 0 0 s).0
joins-AllWindows s a = (joined-Reads read none 1 0 0 s a).0

joins-IsThere : (on : ℕ) (s : Shared) → IsThere on s → IsThere on (joined none 1 0 0 s).0
joins-IsThere on s i = joined-IsThere on none 1 0 0 s i

-- Another departure joins before the take's first step.
abbrev others : ℕ → Shared → Shared
others zero s = (joined none 1 0 0 s).0
others (suc n) s = s

others-AllWindows : (n : ℕ) (s : Shared) → AllWindows read s → AllWindows read (others n s)
others-AllWindows zero s a = joins-AllWindows s a
others-AllWindows (suc n) s a = a

others-IsThere : (n on : ℕ) (s : Shared) → IsThere on s → IsThere on (others n s)
others-IsThere zero on s i = joins-IsThere on s i
others-IsThere (suc n) on s i = i

take_among-IsTaken_example :
    IsTaken read 0 (take_among read others (λ n. n) 100 0 0 no_lock 2 0 shared)
take_among-IsTaken_example =
    take_among-IsTaken read others (λ n. n) 100 0 0
      (record { windows = others-AllWindows; there = others-IsThere }) no_lock 1 0 0 shared
      (omega arith) (λ on s r. r) shared-AllWindows shared-IsThere

call-Keeps : Keeps read (call ∷ call ∷ call ∷ [])
call-Keeps = (
  joins-AllWindows,
  joins-IsThere,
  (joins-AllWindows, joins-IsThere, (joins-AllWindows, joins-IsThere, tt)),
)

reads_refine_example :
    let r = reads read 100 (call ∷ call ∷ call ∷ []) [] lent_first shared in
    r.0 ++ unread r.1.lent ≡ before read r.1.lent.place
reads_refine_example =
    reads_refine read 100 (call ∷ call ∷ call ∷ []) [] lent_first shared call-Keeps
      shared-AllWindows shared-IsThere refl

first_full : (c : Text) → read 0 ≡ chunk c → 0 < length c
first_full c e = ground arith

read_bytes_answers_example :
    is_answer (read_bytes read no_lock 2 100 0 1 lent_first shared).said ≡ true
read_bytes_answers_example =
    read_bytes_answers read no_lock 0 100 0 1 lent_first shared shared-AllWindows shared-IsThere
      first_full

abbrev failed_journey : Journey
failed_journey = record (journey_at 1) { state = JourneyState.failed }

abbrev storage : Storage
storage = record {
  first = kept (codes "body") failed_journey;
  claiming = claimed (claim_at 1);
  again = kept (codes "body") failed_journey;
  hand_on = λ h. taken;
}

act-Settles_example :
    Settles storage (λ port. 7) retry (act storage ((codes "out", true) ∷ []) (λ port. 7) retry)
act-Settles_example = act-Settles storage ((codes "out", true) ∷ []) (λ port. 7) retry
