-- ===== src/Rpc/Client/Waiters/Tests.antt =====
-- Cancellations of a client with one call, and the theorems on them at concrete inputs.
use y_f_s.Base.{◌≤◌, ◌≡◌, refl, true, false, List, [], ◌∷◌, is_empty, erase, arith}
use y_f_s.Rpc.Unmarshall.{Unmarshall}
use y_f_s.Rpc.Client.{Caller, Client, new_client, end_call, cancel, cancel_all}
use y_f_s.Rpc.Client.Calls.{leave, cancel_calls}
use y_f_s.Rpc.Client.Waiters.{
  idle, wake, test, begin_cancel, leave_call, act, Move, acts, runs, move, moves,
}
use y_f_s.Rpc.Client.Waiters.Ends.{cancel_returns}
use y_f_s.Rpc.Client.Waiters.Twice.{two_cancels, second_cancel_sleeps}

abbrev empty : Unmarshall
empty = record { buf = []; sz = 0; ind = 0; good = false }

abbrev call : Caller
call = record { un = empty; ret = 0; done = false }

abbrev client : Client
client = record (new_client true 11 0) { calls = (3, call) ∷ [] }

-- One cancellation, and the call ends.
abbrev one_cancel : List Move
one_cancel = acts cancel_calls ∷ acts (leave 3) ∷ []

table_is_empty : is_empty (moves one_cancel (idle client)).client.calls ≡ true
unfolding new_client moves move act begin_cancel leave_call test wake end_call cancel cancel_all
    erase
table_is_empty = refl

cancel_returns_example :
    ((moves one_cancel (idle client)).asleep ≡ 0)
    × ((move runs (moves one_cancel (idle client))).returned ≡ 1)
cancel_returns_example = cancel_returns client one_cancel (omega arith) table_is_empty

second_cancel_sleeps_example :
    let w = moves (two_cancels 3) (idle client) in
    (is_empty w.client.calls ≡ true)
    × (w.returned ≡ 1)
    × (1 ≤ (moves (acts cancel_calls ∷ runs ∷ []) w).asleep)
second_cancel_sleeps_example =
    second_cancel_sleeps (new_client true 11 0) 3 call (acts cancel_calls ∷ runs ∷ []) (tt, tt)
