-- ===== src/Lock/Server/Wakeups.antt =====
-- The queue of the retryer of lock_server_cache.cc, over any steps.
use mathlib.Core.Path.{subst}
use y_f_s.Base.{
  ℕ, ◌≡◌, ap, ◌≢◌, inl, inr, true, false, Option, none, some, List, [], ◌∷◌, is_empty, elem, lookup,
  lookup-empty, arith, List-cases,
}
use y_f_s.Lock.Server.{Lock, Job, State, new_server, retryer_rpc_end, revoker_rpc_end}
use y_f_s.Lock.Server.Steps.{
  Event, acquires, releases, retryer_turns, revoker_turns, retry_ends, revoke_ends, with_job, step,
  run, Leaves, and_then,
}
use y_f_s.Lock.Server.Served.{AllServed, acquire-AllServed, release-AllServed}
use y_f_s.Lock.Server.Served.Turns.{
  retryer-AllServed, revoker-AllServed, retryer_rpc_end-AllServed, revoker_rpc_end-AllServed,
}

with_job-AllServed :
    (f : State → Option State) (s : State) (jobs : Option (List Job))
    → ((t : State) → AllServed t → Leaves AllServed (f t))
    → AllServed s
    → Leaves AllServed (with_job f s jobs)
with_job-AllServed f s none keeps h = tt
with_job-AllServed f s (some js) keeps h = keeps (record s { jobs = js }) h

-- The client of the event has a name.
abbrev pub Named : Event → Type 0
Named (acquires lid id) = is_empty id ≡ false
Named _ = Unit

step-AllServed : (e : Event) (s : State) → Named e → AllServed s → Leaves AllServed (step e s)
unfolding step
step-AllServed (acquires lid id) s n h = acquire-AllServed lid id s n h
step-AllServed (releases lid id) s n h = release-AllServed lid id s h
step-AllServed (retryer_turns accepted) s n h = retryer-AllServed accepted s h
step-AllServed (revoker_turns accepted) s n h = revoker-AllServed accepted s h
step-AllServed (retry_ends answered lid) s n h =
    with_job-AllServed (retryer_rpc_end answered lid) s _ (retryer_rpc_end-AllServed answered lid) h
step-AllServed (revoke_ends answered lid) s n h =
    with_job-AllServed (revoker_rpc_end answered lid) s _ (revoker_rpc_end-AllServed answered lid) h

abbrev pub NamedEvents : List Event → Type 0
NamedEvents [] = Unit
NamedEvents (e ∷ es) = Named e × NamedEvents es

run-AllServed :
    (es : List Event) (s : State) → NamedEvents es → AllServed s → Leaves AllServed (run es s)
unfolding run
run-AllServed [] s n h = h
run-AllServed (e ∷ es) s n h =
    go (step e s) (step-AllServed e s n.0 h) (λ t k. run-AllServed es t n.1 k)
  where
    go :
        (o : Option State)
        → Leaves AllServed o
        → ((t : State) → AllServed t → Leaves AllServed (run es t))
        → Leaves AllServed (and_then (run es) o)
    go none h keeps = tt
    go (some t) h keeps = keeps t h

-- After any steps from the start, by clients with names, each lock that is free while a client waits
-- for it stands in the retryer's queue.
pub free_lock_is_retried :
    (nacquire : ℕ) (es : List Event) (s : State) (lid : ℕ) (l : Lock)
    → NamedEvents es
    → run es (new_server nacquire) ≡ some s
    → lookup lid s.lock_table ≡ some l
    → l.owner_cl ≡ []
    → l.waiting_cls ≢ []
    → elem lid s.retryer_queue ≡ true
unfolding new_server
free_lock_is_retried nacquire es s lid l n r f free waits =
    let empty : AllServed (new_server nacquire) = (
      λ j k e. absurd (ground (arith, lookup-empty {V = Lock} j, e)),
      λ j e. absurd (ground (arith, e)),
    ) in
    let kept : AllServed s =
      subst (Leaves AllServed) r (run-AllServed es (new_server nacquire) n empty) in
    (kept.0 lid l f).2 (ap is_empty free) (elim (List-cases l.waiting_cls) [
      | inl e ↦ absurd (waits e)
      | inr (c, cs, e) ↦ ap is_empty e
    ])
