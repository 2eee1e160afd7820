-- ===== src/Lock/Plain/Tests.antt =====
-- Runs of the lock server without caching, and the theorems on it at concrete histories.
use y_f_s.Base.{◌≤◌, ◌≡◌, refl, true, false, List, [], ◌∷◌, lookup, insert}
use y_f_s.Lock.Plain.{
  locked, State, new_server, try_lock, enter, acquire, acquire_at, sleep, sleep_for, acquire_again,
  again_at, run_again, wake, release, release_signal, Event, acquires, runs, sleeps, releases,
  signals, step,
}
use y_f_s.Lock.Plain.Exclusive.{held, run, exclusive_holder}
use y_f_s.Lock.Plain.Awake.{
  steps, AllInTime, waits_for, will_wake, sleepers_will_wake, signal_before_wait_lost,
}

-- Two callers of lock 4: the second waits for the release and then has it.
abbrev history : List Event
history = acquires 4 ∷ acquires 4 ∷ sleeps ∷ releases 4 ∷ signals 4 ∷ runs 4 ∷ []

second_has_it : (run 4 history (0, new_server)).0 ≡ 1
unfolding run step new_server acquire enter try_lock sleep sleep_for release release_signal wake
    acquire_at acquire_again again_at run_again lookup insert
second_has_it = refl

exclusive_holder_example :
    let r = run 4 history (0, new_server) in (r.0 ≤ 1) × (r.0 ≡ 1 → held 4 r.1 ≡ true)
exclusive_holder_example = exclusive_holder 4 history

abbrev waiting : List Event
waiting = acquires 4 ∷ acquires 4 ∷ sleeps ∷ releases 4 ∷ []

waiting-AllInTime : AllInTime waiting new_server
waiting-AllInTime = (tt, (tt, (tt, (tt, tt))))

waiting-waits_for : waits_for 4 (steps waiting new_server) ≡ true
unfolding steps step new_server acquire acquire_at enter try_lock sleep sleep_for release lookup
    insert
waiting-waits_for = refl

sleepers_will_wake_example : will_wake 4 (steps waiting new_server) ≡ true
sleepers_will_wake_example = sleepers_will_wake 4 waiting waiting-AllInTime waiting-waits_for

abbrev taken : State
taken = record new_server { lockstate_table = (4, locked) ∷ [] }

signal_before_wait_lost_example :
    let t = steps (acquires 4 ∷ releases 4 ∷ signals 4 ∷ sleeps ∷ []) taken in
    (t.asleep 4 ≡ 1) × (will_wake 4 t ≡ false)
unfolding new_server lookup
signal_before_wait_lost_example = signal_before_wait_lost 4 taken refl refl refl refl refl
