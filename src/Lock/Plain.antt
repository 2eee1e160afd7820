-- ===== src/Lock/Plain.antt =====
-- lock_server.cc and lock_server.h: the lock server without caching, in which a call of `acquire`
-- waits until it has the lock. `acquire` holds the mutex from its test to its wait, and
-- `pthread_cond_wait` opens it; `release` does not take it, so its two writes are steps of their own
-- that can come between the test and the wait. Threads have no names: for each lock it is counted
-- how many sleep in `pthread_cond_wait`, how many were woken but have not run, and how many are in
-- `release` before its signal.
pub mod Exclusive
pub mod Awake
mod Tests
use y_f_s.Base.{
  ℕ, zero, suc, ◌+◌, ◌-◌, Bool, true, false, Option, none, some, List, [], ◌∷◌, ltb, ◌==◌,
  if◌then◌else◌, Table, lookup, insert,
}

-- `lock_server::lockstate`
pub data LockState : Type 0 where
  free locked : LockState

-- `between` is the lock of the thread that holds the mutex after a test that failed, if there is one.
pub record State : Type 0 where
  pub nacquire : ℕ
  pub lockstate_table : Table LockState
  pub between : Option ℕ
  pub asleep : ℕ → ℕ
  pub woken : ℕ → ℕ
  pub signalling : ℕ → ℕ

pub new_server : State
new_server = record {
  nacquire = 0;
  lockstate_table = [];
  between = none;
  asleep = λ lid. 0;
  woken = λ lid. 0;
  signalling = λ lid. 0;
}

abbrev pub set_count : ℕ → ℕ → (ℕ → ℕ) → ℕ → ℕ
set_count lid n f j = if lid == j then n else f j

-- `lockstate_table[lid] != FREE`
abbrev pub is_locked : Option LockState → Bool
is_locked (some locked) = true
is_locked (some free) = false
is_locked none = false

-- The test of the loop in `acquire`: the thread is about to sleep, or the lock is taken.
pub try_lock : ℕ → State → Bool × State
try_lock lid s =
    if is_locked (lookup lid s.lockstate_table)
    then (false, record s { between = some lid })
    else (true, record s { lockstate_table = insert lid locked s.lockstate_table })

-- A call of `acquire` up to its first wait, with whether it returns; `none` while the mutex is held.
pub enter : ℕ → State → Bool × State
unfolding try_lock
enter lid s = elim (lookup lid s.lockstate_table) [
  | none ↦ try_lock lid (record s { lockstate_table = insert lid free s.lockstate_table })
  | some k ↦ try_lock lid s
]

pub acquire_at : Option ℕ → ℕ → State → Option (Bool × State)
unfolding enter
acquire_at none lid s = some (enter lid s)
acquire_at (some other) lid s = none

pub acquire : ℕ → State → Option (Bool × State)
unfolding acquire_at
acquire lid s = acquire_at s.between lid s

-- The wait begins, which opens the mutex.
pub sleep_for : Option ℕ → State → Option State
sleep_for none s = none
sleep_for (some lid) s =
    some (record s { between = none; asleep = set_count lid (s.asleep lid + 1) s.asleep })

pub sleep : State → Option State
unfolding sleep_for
sleep s = sleep_for s.between s

-- A woken thread has the mutex again: it tests again.
pub run_again : ℕ → State → Option (Bool × State)
unfolding try_lock
run_again lid s =
    if ltb 0 (s.woken lid)
    then some (try_lock lid (record s { woken = set_count lid (s.woken lid - 1) s.woken }))
    else none

pub again_at : Option ℕ → ℕ → State → Option (Bool × State)
unfolding run_again
again_at none lid s = run_again lid s
again_at (some other) lid s = none

pub acquire_again : ℕ → State → Option (Bool × State)
unfolding again_at
acquire_again lid s = again_at s.between lid s

-- A sleeping thread is woken: by a signal, or for no reason.
pub wake : ℕ → State → State
wake lid s =
    if ltb 0 (s.asleep lid)
    then record s {
      asleep = set_count lid (s.asleep lid - 1) s.asleep;
      woken = set_count lid (s.woken lid + 1) s.woken;
    }
    else s

-- `release` up to its write, and its signal.
pub release : ℕ → State → State
release lid s = elim (lookup lid s.lockstate_table) [
  | none ↦ s
  | some k ↦ record s {
    lockstate_table = insert lid free s.lockstate_table;
    signalling = set_count lid (s.signalling lid + 1) s.signalling;
  }
]

pub release_signal : ℕ → State → Option State
unfolding wake
release_signal lid s =
    if ltb 0 (s.signalling lid)
    then some
        (wake lid (record s { signalling = set_count lid (s.signalling lid - 1) s.signalling }))
    else none

pub stat : State → ℕ
stat s = s.nacquire

pub data Event : Type 0 where
  acquires runs wakes releases signals : (lid : ℕ) → Event
  sleeps : Event

-- A step, with the lock that it grants, if any. What cannot be done now changes nothing.
abbrev pub grant_if : ℕ → Bool × State → Option ℕ × State
grant_if lid (true, s) = (some lid, s)
grant_if lid (false, s) = (none, s)

abbrev pub grant_if? : ℕ → Option (Bool × State) → State → Option ℕ × State
grant_if? lid none s = (none, s)
grant_if? lid (some r) s = grant_if lid r

abbrev pub or_same : Option State → State → State
or_same none s = s
or_same (some t) s = t

unfoldable pub step : Event → State → Option ℕ × State
step (acquires lid) s = grant_if? lid (acquire lid s) s
step (runs lid) s = grant_if? lid (acquire_again lid s) s
step sleeps s = (none, or_same (sleep s) s)
step (wakes lid) s = (none, wake lid s)
step (releases lid) s = (none, release lid s)
step (signals lid) s = (none, or_same (release_signal lid s) s)
