-- ===== src/Lock/Client/Steps.antt =====
-- lock_client_cache.cc: the operations on the table of locks, and the steps of all threads.
use y_f_s.Base.{
  ℕ, Bool, true, false, Option, none, some, List, [], ◌∷◌, ◌++◌, if◌then◌else◌, lookup, insert,
}
use y_f_s.Lock.Client.{
  CacheLock, Client, Signal, queue_cond, releaser_cond, Acquire, acquired, waiting, calling,
  new_lock, retry_wait, enter, called, release_lock, revoke_at, retry_at, Releaser, failed, waits,
  calls, releaser_begin_at, releaser_wake_at, timed_out, releaser_end_at,
}

-- What a step ends with for its thread: a lock, or not yet; a lock given back; a call to the server;
-- an error code; `broken` is a failed VERIFY, or a step of a lock that is not in the table.
pub data Outcome : Type 0 where
  granted sleeps in_call freed done refused broken : Outcome

pub record Effect : Type 0 where
  pub outcome : Outcome
  pub client : Client
  pub signals : List Signal

abbrev pub put : ℕ → CacheLock → Client → Client
put lid l c = record c { cachelock_table = insert lid l c.cachelock_table }

abbrev pub stay : Outcome → Client → Effect
stay o c = record { outcome = o; client = c; signals = [] }

abbrev pub acquire_outcome : Acquire → Outcome
acquire_outcome acquired = granted
acquire_outcome waiting = sleeps
acquire_outcome calling = in_call

abbrev pub acquire_effect : ℕ → Client → Acquire × CacheLock → Effect
acquire_effect lid c (a, l) = record {
  outcome = acquire_outcome a;
  client = put lid l c;
  signals = [];
}

-- `cachelock_table[lid]`, set up where there is none.
abbrev pub entry : Option CacheLock → CacheLock
entry none = new_lock
entry (some l) = l

abbrev pub release_effect : ℕ → Client → Option (CacheLock × Signal) → Effect
release_effect lid c none = stay refused c
release_effect lid c (some (l, signal)) = record {
  outcome = freed;
  client = put lid l c;
  signals = signal ∷ [];
}

abbrev pub revoke_effect : ℕ → Client → Bool × CacheLock → Effect
revoke_effect lid c (false, l) = stay sleeps (put lid l c)
revoke_effect lid c (true, l) = record {
  outcome = done;
  client = record (put lid l c) { releaser_queue = c.releaser_queue ++ lid ∷ [] };
  signals = releaser_cond lid ∷ [];
}

abbrev pub retry_effect : ℕ → Client → Option CacheLock → Effect
retry_effect lid c none = stay refused c
retry_effect lid c (some l) = record {
  outcome = done;
  client = put lid l c;
  signals = queue_cond lid ∷ [];
}

abbrev pub releaser_effect : ℕ → Client → Releaser × CacheLock × List Signal → Effect
releaser_effect lid c (failed, l, signals) = record {
  outcome = broken;
  client = c;
  signals = signals;
}
releaser_effect lid c (waits, l, signals) = record {
  outcome = sleeps;
  client = put lid l c;
  signals = signals;
}
releaser_effect lid c (calls, l, signals) = record {
  outcome = in_call;
  client = put lid l c;
  signals = signals;
}

abbrev pub end_effect : ℕ → Client → Option (CacheLock × Bool × List Signal) → Effect
end_effect lid c none = stay broken c
end_effect lid c (some (l, again, signals)) = record {
  outcome = done;
  client = record (put lid l c) {
    releaser_queue = if again then c.releaser_queue ++ lid ∷ [] else c.releaser_queue;
  };
  signals = signals;
}

-- One turn of `releaser`: the job is added to the pool, or dropped. The job is the step `begin`.
unfoldable pub releaser_turn : List ℕ → Client → Effect
releaser_turn [] c = stay sleeps c
releaser_turn (lid ∷ rest) c = stay done (record c { releaser_queue = rest })

-- A thread enters `acquire`, wakes in it, or has its call answered, RETRY or not; `release`; the
-- server's `revoke`, and a wake in it; its `retry`; a turn of `releaser`; a `releaser_rpc` begins,
-- wakes, or has its call answered, OK or not.
pub data Event : Type 0 where
  acquire : ℕ → ℕ → Event
  wake : ℕ → ℕ → Event
  answer : Bool → ℕ → ℕ → Event
  release : ℕ → ℕ → Event
  revoke : ℕ → Event
  revoke_wake : ℕ → Event
  retry : ℕ → Event
  turn : Event
  begin : ℕ → Event
  tick : ℕ → Event
  answer_release : Bool → ℕ → Event

abbrev pub with_lock : Option CacheLock → Client → Outcome → (CacheLock → Effect) → Effect
with_lock none c o f = stay o c
with_lock (some l) c o f = f l

unfoldable pub step : Event → Client → Effect
unfolding releaser_turn
step (acquire t lid) c = acquire_effect lid c (enter t (entry (lookup lid c.cachelock_table)))
step (wake t lid) c =
    with_lock (lookup lid c.cachelock_table) c broken (λ l. acquire_effect lid c (retry_wait t l))
step (answer again t lid) c =
    with_lock (lookup lid c.cachelock_table) c broken (λ l. acquire_effect lid c (called again t l))
step (release t lid) c =
    with_lock (lookup lid c.cachelock_table) c refused
      (λ l. release_effect lid c (release_lock t lid l))
step (revoke lid) c =
    with_lock (lookup lid c.cachelock_table) c refused
      (λ l. revoke_effect lid c (revoke_at l.state (record l { ifrevoke = true })))
step (revoke_wake lid) c =
    with_lock (lookup lid c.cachelock_table) c broken
      (λ l. revoke_effect lid c (revoke_at l.state l))
step (retry lid) c =
    with_lock (lookup lid c.cachelock_table) c refused
      (λ l. retry_effect lid c (retry_at l.state l))
step turn c = releaser_turn c.releaser_queue c
step (begin lid) c =
    with_lock (lookup lid c.cachelock_table) c broken
      (λ l. releaser_effect lid c (releaser_begin_at l.state l))
step (tick lid) c =
    with_lock (lookup lid c.cachelock_table) c broken
      (λ l. releaser_effect lid c (releaser_wake_at l.state (timed_out l)))
step (answer_release ok lid) c =
    with_lock (lookup lid c.cachelock_table) c broken
      (λ l. end_effect lid c (releaser_end_at l.state ok lid l))

abbrev pub new_client : Client
new_client = record { cachelock_table = []; releaser_queue = [] }

unfoldable pub run : List Event → Client → Client
run [] c = c
run (e ∷ es) c = run es (step e c).client
