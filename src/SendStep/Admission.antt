-- ===== src/SendStep/Admission.antt =====
-- src/send_step/admission.rs: the one door to the Send pool. `most` is the pool's most threads.
use xmip_core_runtime.Base.{
  ℕ, ◌+◌, ◌-◌, min, max, List, [], length, contains, push_new, push_all, insert, keep, not,
  if◌then◌else◌, ◌==◌, nat_eq,
}
use xmip_core_runtime.Sending.Defs.{Subscriber, send_port, send_group, work_process}
use xmip_core_runtime.SendStep.State.{State, Owned, Departure, confirmed_until}
use xmip_core_runtime.Base.{Text}

-- `Subscriber::name`.
unfoldable pub name_of : Subscriber → Text
name_of (send_port n) = n
name_of (send_group n) = n
name_of (work_process n) = n

unfoldable pub owned_of : Departure → Owned
unfolding name_of
owned_of d = record { claim = d.claim; port = name_of d.to; standing = confirmed_until d.until }

unfoldable pub room : ℕ → State → ℕ
room most s = max most 1 - (length s.owned + s.admitted)

unfoldable pub admit : ℕ → ℕ → State → State × ℕ
unfolding room
admit most wanted s =
    let admitted = min wanted (room most s) in
    (record s { admitted = s.admitted + admitted }, admitted)

unfoldable pub freed : State → State
freed s = record s { starved = []; asked = push_all s.asked s.starved }

unfoldable pub withdraw : ℕ → State → State
unfolding freed
withdraw places s = if places == 0 then s else freed (record s { admitted = s.admitted - places })

abbrev pub without : ℕ → List ℕ → List ℕ
without id = keep (λ x. not (x == id))

unfoldable pub own : ℕ → Owned → State → State
own id o s = record s {
  admitted = s.admitted - 1;
  taking = without id s.taking;
  owned = insert id o s.owned;
}

unfoldable pub untake : ℕ → State → State
unfolding freed
untake id s = freed (
    if contains s.taking id
    then record s { taking = without id s.taking; admitted = s.admitted - 1 }
    else s)

unfoldable pub starve : ℕ → State → State
starve queue s = record s { starved = push_new s.starved queue }
