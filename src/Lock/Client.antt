-- ===== src/Lock/Client.antt =====
-- lock_client_cache.cc and lock_client_cache.h: the lock client that keeps locks until the server
-- revokes them. Every piece of code between a lock and an unlock of its mutex, or between two waits
-- on a condition variable, is one function. The signals that it gives are listed; a thread that
-- waits may wake at any time, as POSIX allows. Threads are numbers.
pub mod Steps
pub mod Agrees
pub mod Exclusive
pub mod Races
mod Tests
use y_f_s.Base.{
  ℕ, ◌+◌, ◌-◌, Bool, true, false, not, ◌&&◌, ◌||◌, Option, none, some, List, [], ◌∷◌, ◌++◌,
  if◌then◌else◌, ◌==◌, Table, lookup, insert,
}

-- `lockstate_t`
pub data LockState : Type 0 where
  none_held free locked acquiring releasing : LockState

-- `struct cache_lock`, without its condition variables and the unused `q`.
pub record CacheLock : Type 0 where
  pub state : LockState
  pub owner : ℕ
  pub ifrevoke : Bool
  pub iftimout : Bool
  pub ifrlsreq : Bool
  pub wait_threads : ℕ

pub record Client : Type 0 where
  pub cachelock_table : Table CacheLock
  pub releaser_queue : List ℕ

pub data Signal : Type 0 where
  queue_cond revoke_cond tmout_cond releaser_cond : (lid : ℕ) → Signal

-- The calling thread has the lock, sleeps on `queue_cond`, or calls the server with the mutex open.
pub data Acquire : Type 0 where
  acquired waiting calling : Acquire

abbrev pub new_lock : CacheLock
new_lock = record {
  state = none_held;
  owner = 0;
  ifrevoke = false;
  iftimout = false;
  ifrlsreq = false;
  wait_threads = 0;
}

-- The end of `acquire`: every call that is not answered RETRY counts as a success.
pub got : ℕ → CacheLock → Acquire × CacheLock
got t l = (acquired, record l { state = locked; owner = t; wait_threads = l.wait_threads - 1 })

abbrev pub call_server : CacheLock → Acquire × CacheLock
call_server l = (calling, record l { state = acquiring })

-- The loop at RETRY_WAIT and what follows it, from one test of the state on.
pub retry_wait_at : LockState → ℕ → CacheLock → Acquire × CacheLock
unfolding got
retry_wait_at free t l = got t l
retry_wait_at none_held t l = call_server l
retry_wait_at locked t l = (waiting, l)
retry_wait_at acquiring t l = (waiting, l)
retry_wait_at releasing t l = (waiting, l)

pub retry_wait : ℕ → CacheLock → Acquire × CacheLock
unfolding retry_wait_at
retry_wait t l = retry_wait_at l.state t l

-- The `switch` of `acquire`.
pub enter_at : LockState → ℕ → CacheLock → Acquire × CacheLock
unfolding retry_wait got
enter_at locked t l = if l.owner == t then got t l else retry_wait t l
enter_at acquiring t l = retry_wait t l
enter_at releasing t l = retry_wait t l
enter_at none_held t l = call_server l
enter_at free t l = got t l

pub enter : ℕ → CacheLock → Acquire × CacheLock
unfolding enter_at
enter t l = enter_at l.state t (record l { wait_threads = l.wait_threads + 1 })

-- After the call: `retry` is whether it returned RETRY.
pub called : Bool → ℕ → CacheLock → Acquire × CacheLock
unfolding retry_wait got
called retry t l = if retry then retry_wait t l else got t l

-- `release`: `some` is OK, with the lock and the signal; `none` is NOENT.
abbrev pub released_signal : ℕ → CacheLock → Signal
released_signal lid l =
    if l.iftimout || (l.ifrlsreq && (l.wait_threads == 0))
    then tmout_cond lid
    else if l.ifrevoke
    then revoke_cond lid
    else queue_cond lid

pub release_at : LockState → ℕ → ℕ → CacheLock → Option (CacheLock × Signal)
release_at locked t lid l =
    if l.owner == t then some (record l { state = free }, released_signal lid l) else none
release_at free t lid l = none
release_at none_held t lid l = none
release_at acquiring t lid l = none
release_at releasing t lid l = none

pub release_lock : ℕ → ℕ → CacheLock → Option (CacheLock × Signal)
unfolding release_at
release_lock t lid l = release_at l.state t lid l

-- `revoke_handler` at a test of the state: whether it ends, with the lock.
pub revoke_at : LockState → CacheLock → Bool × CacheLock
revoke_at free l = (true, record l { ifrevoke = false; state = releasing })
revoke_at none_held l = (false, l)
revoke_at locked l = (false, l)
revoke_at acquiring l = (false, l)
revoke_at releasing l = (false, l)

-- `retry_handler`: `none` is RPCERR.
pub retry_at : LockState → CacheLock → Option CacheLock
retry_at acquiring l = some (record l { state = free })
retry_at none_held l = none
retry_at free l = none
retry_at locked l = none
retry_at releasing l = none

-- `releaser_rpc`, up to its first wait or its call, with the signals that it gives; `failed` is the
-- VERIFY.
pub data Releaser : Type 0 where
  failed waits calls : Releaser

pub release_call : CacheLock → Releaser × CacheLock × List Signal
release_call l = (calls, record l { iftimout = false; ifrlsreq = false; state = releasing }, [])

pub releaser_begin_at : LockState → CacheLock → Releaser × CacheLock × List Signal
unfolding release_call
releaser_begin_at releasing l =
    if l.wait_threads == 0
    then release_call l
    else (waits, record l { state = free; ifrlsreq = true }, [])
releaser_begin_at none_held l = (failed, l, [])
releaser_begin_at free l = (failed, l, [])
releaser_begin_at locked l = (failed, l, [])
releaser_begin_at acquiring l = (failed, l, [])

-- After each timed wait, whether it was signalled or timed out.
pub releaser_wake_at : LockState → CacheLock → Releaser × CacheLock × List Signal
unfolding release_call
releaser_wake_at free l = release_call l
releaser_wake_at none_held l = (waits, l, [])
releaser_wake_at locked l = (waits, l, [])
releaser_wake_at acquiring l = (waits, l, [])
releaser_wake_at releasing l = (waits, l, [])

abbrev pub timed_out : CacheLock → CacheLock
timed_out l = record l { iftimout = true }

-- After the call of `release`: `ok` is whether it returned OK. The result is the lock, whether it
-- is pushed again, and the signals; `none` is the VERIFY.
pub releaser_end_at : LockState → Bool → ℕ → CacheLock → Option (CacheLock × Bool × List Signal)
releaser_end_at releasing ok lid l =
    if ok
    then some (
      record l { owner = 0; state = none_held },
      false,
      if l.wait_threads == 0 then [] else queue_cond lid ∷ [],
    )
    else some (l, true, [])
releaser_end_at none_held ok lid l = none
releaser_end_at free ok lid l = none
releaser_end_at locked ok lid l = none
releaser_end_at acquiring ok lid l = none
