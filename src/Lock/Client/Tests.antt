-- ===== src/Lock/Client/Tests.antt =====
-- Runs of the caching lock client, and the theorems on it at concrete inputs.
use y_f_s.Base.{◌≤◌, ◌≡◌, refl, false, some, List, [], ◌∷◌, length, lookup, insert, arith}
use y_f_s.Lock.Client.{
  acquiring, CacheLock, Client, new_lock, enter, enter_at, called, got, retry_wait, retry_wait_at,
  release_lock, release_at, revoke_at,
}
use y_f_s.Lock.Client.Steps.{
  Event, acquire, wake, answer, release, revoke, retry, step, run, new_client,
}
use y_f_s.Lock.Client.Agrees.{recorded}
use y_f_s.Lock.Client.Exclusive.{holders, AllInTime, one_holder}
use y_f_s.Lock.Client.Races.{late_answer_doubles}

-- Two threads take turns with the lock 7, which the server gives to the client at once.
abbrev turns : List Event
turns =
    acquire 1 7 ∷ acquire 2 7 ∷ answer false 1 7 ∷ wake 2 7 ∷ release 1 7 ∷ wake 2 7 ∷ revoke 7 ∷ []

holders-turns : holders 7 turns new_client [] ≡ 2 ∷ []
unfolding holders step enter enter_at called got retry_wait retry_wait_at release_lock release_at
    revoke_at lookup insert
holders-turns = refl

turns-AllInTime : AllInTime turns new_client
unfolding step enter enter_at called got retry_wait retry_wait_at release_lock release_at revoke_at
    lookup insert
turns-AllInTime = (tt, (tt, (refl, (tt, (tt, (tt, (tt, tt)))))))

one_holder_example :
    (length (holders 7 turns new_client []) ≤ 1)
    × (holders 7 turns new_client [] ≡ recorded (lookup 7 (run turns new_client).cachelock_table))
one_holder_example = one_holder 7 turns turns-AllInTime

abbrev asked : CacheLock
asked = record new_lock { state = acquiring; wait_threads = 1 }

abbrev asking : Client
asking = record { cachelock_table = (7, asked) ∷ []; releaser_queue = [] }

lookup-asking : lookup 7 asking.cachelock_table ≡ some asked
unfolding lookup
lookup-asking = refl

late_answer_doubles_example :
    holders 7 (retry 7 ∷ acquire 2 7 ∷ answer false 1 7 ∷ []) asking [] ≡ 1 ∷ 2 ∷ []
late_answer_doubles_example =
    late_answer_doubles 7 1 2 asked asking (omega arith) lookup-asking refl
