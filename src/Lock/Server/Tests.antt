-- ===== src/Lock/Server/Tests.antt =====
-- Runs of the lock server, and the theorems on it at concrete inputs.
use y_f_s.Base.{
  ℕ, ◌≡◌, refl, true, false, some, List, [], ◌∷◌, ◌++◌, elem, lookup, insert, lookup-insert, arith,
}
use y_f_s.Lock.Server.{
  ok, Lock, retryer_rpc, State, new_server, acquire, release, entry, revoker, revoker_turn,
  revoker_rpc_end, retryer,
}
use y_f_s.Lock.Server.Steps.{
  Event, acquires, releases, revoker_turns, revoke_ends, run, step, take_job,
}
use y_f_s.Lock.Server.Wakeups.{free_lock_is_retried}
use y_f_s.Lock.Server.Turns.{waits}
use y_f_s.Lock.Server.Fifo.{all_late, all_granted, AllAnswered, waits_are_fifo}
use y_f_s.Lock.Server.Races.{owner_of, grant_overwritten}

abbrev a : List ℕ
a = 97 ∷ []

abbrev b : List ℕ
b = 98 ∷ []

abbrev c : List ℕ
c = 99 ∷ []

-- The lock 5 was released by its owner while `b` waits.
abbrev released_lock : Lock
released_lock = record { id = 5; owner_cl = []; waiting_cls = b ∷ [] }

abbrev released : State
released = record {
  nacquire = 0;
  lock_table = insert 5 released_lock [];
  retryer_queue = 5 ∷ [];
  revoker_queue = [];
  retryer_asleep = false;
  revoker_asleep = false;
  jobs = [];
}

found : lookup 5 released.lock_table ≡ some released_lock
found = ground (arith, lookup-insert 5 5 released_lock [])

grant_overwritten_example :
    ((acquire 5 c released).0 ≡ ok)
    × (owner_of 5 (acquire 5 c released).1 ≡ c)
    × ((t : State) × (retryer true (acquire 5 c released).1 ≡ some t)
        × (owner_of 5 t ≡ b)
        × (t.jobs ≡ retryer_rpc 5 ∷ []))
grant_overwritten_example =
    grant_overwritten 5 c b [] [] released released_lock found refl refl refl refl

abbrev sleeping : State
sleeping = record released { retryer_asleep = true; retryer_queue = [] }

-- Two clients, and the second waits until the first releases the lock.
abbrev history : List Event
history = acquires 5 a ∷ acquires 5 b ∷ revoker_turns true ∷ revoke_ends true 5 ∷ releases 5 a ∷ []

abbrev history_end : State
history_end = record {
  nacquire = 0;
  lock_table = (5, released_lock) ∷ [];
  retryer_queue = 5 ∷ [];
  revoker_queue = [];
  retryer_asleep = false;
  revoker_asleep = false;
  jobs = [];
}

run-history : run history (new_server 0) ≡ some history_end
unfolding run step acquire release revoker revoker_turn revoker_rpc_end entry take_job lookup insert
    new_server
run-history = refl

history_found : lookup 5 history_end.lock_table ≡ some released_lock
unfolding lookup
history_found = refl

free_lock_is_retried_example : elem 5 history_end.retryer_queue ≡ true
free_lock_is_retried_example =
    free_lock_is_retried 0 history history_end 5 released_lock (refl, (refl, (tt, (tt, (tt, tt)))))
      run-history history_found refl (λ e. absurd (ground (arith, e)))

waits_are_fifo_example :
    AllAnswered history (new_server 0)
    × (waits 5 (new_server 0) ++ all_late 5 history (new_server 0)
        ≡ all_granted 5 history (new_server 0) ++ waits 5 history_end)
waits_are_fifo_example = waits_are_fifo 5 history (new_server 0) history_end run-history
