-- ===== src/Lock/Server/Steps.antt =====
-- The steps of lock_server_cache.cc: its handlers, the turns of its threads and the ends of its jobs,
-- in any order.
use y_f_s.Base.{ℕ, Bool, false, Option, none, some, List, [], ◌∷◌, if◌then◌else◌, ◌==◌}
use y_f_s.Lock.Server.{
  Job, retryer_rpc, revoker_rpc, State, acquire, release, retryer, revoker, retryer_rpc_end,
  revoker_rpc_end,
}

pub data Event : Type 0 where
  acquires releases : (lid : ℕ) (id : List ℕ) → Event
  retryer_turns revoker_turns : (accepted : Bool) → Event
  retry_ends revoke_ends : (answered : Bool) (lid : ℕ) → Event

abbrev pub same_job : Job → Job → Bool
same_job (retryer_rpc a) (retryer_rpc b) = a == b
same_job (revoker_rpc a) (revoker_rpc b) = a == b
same_job (retryer_rpc a) (revoker_rpc b) = false
same_job (revoker_rpc a) (retryer_rpc b) = false

-- The jobs without one that is `j`
unfoldable pub take_job : Job → List Job → Option (List Job)
take_job j [] = none
take_job j (i ∷ jobs) =
    let rest = take_job j jobs in
    if same_job i j then some jobs else elim rest [ none ↦ none | some js ↦ some (i ∷ js) ]

abbrev pub with_job : (State → Option State) → State → Option (List Job) → Option State
with_job f s none = none
with_job f s (some js) = f (record s { jobs = js })

unfoldable pub step : Event → State → Option State
step (acquires lid id) s = some (acquire lid id s).1
step (releases lid id) s = some (release lid id s).1
step (retryer_turns accepted) s = retryer accepted s
step (revoker_turns accepted) s = revoker accepted s
step (retry_ends answered lid) s =
    with_job (retryer_rpc_end answered lid) s (take_job (retryer_rpc lid) s.jobs)
step (revoke_ends answered lid) s =
    with_job (revoker_rpc_end answered lid) s (take_job (revoker_rpc lid) s.jobs)

abbrev pub and_then {ℓ} : {A B : Type ℓ} → (A → Option B) → Option A → Option B
and_then f none = none
and_then f (some a) = f a

unfoldable pub run : List Event → State → Option State
run [] s = some s
run (e ∷ es) s = and_then (run es) (step e s)

-- What holds of the state that is left, if any.
abbrev pub Leaves {ℓ} : {A : Type ℓ} → (A → Type 0) → Option A → Type 0
Leaves P none = Unit
Leaves P (some s) = P s
