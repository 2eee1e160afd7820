-- ===== src/Rpc/Client/Tests.antt =====
-- Calls of a client, and the theorems on it at concrete inputs.
use y_f_s.Base.{
  ℕ, ◌+◌, ◌≡◌, refl, true, false, none, some, List, [], ◌∷◌, ◌++◌, ◌==◌, if◌then◌else◌, lookup,
  insert, inr, arith,
}
use mathlib.Core.Option
use y_f_s.Rpc.Marshall.{ReqHeader, rpc_header_sz}
use y_f_s.Rpc.Marshall.Header.{reply_bytes}
use y_f_s.Rpc.Unmarshall.{Unmarshall, of_buffer, take_in, unpack_reply_header}
use y_f_s.Rpc.Unmarshall.Header.{unpack_reply_header-message}
use y_f_s.Rpc.XidWindow.Compress.{update_xid_rep-first}
use y_f_s.Rpc.Client.{
  Caller, Client, new_client, bind_proc, begin_call, call_header, call_result, cancelled, sent,
  got_pdu, got_reply, deliver,
}
use y_f_s.Rpc.Client.Calls.{Event, start, pdu, leave, cancel_calls, step, run, entered}
use y_f_s.Rpc.Server.References.{gained, lost}
use y_f_s.Rpc.Client.Channel.{Meeting, call_channel, held_by, times, call_gives_back}
use y_f_s.Rpc.Client.Outcome.{hear_all, answer_result, call_outcome}
use y_f_s.Rpc.Client.Acknowledged.{Honest, acknowledged_calls_are_done}
use y_f_s.Rpc.Client.Cancel.{Refused, left, cancel_ends_calls}

abbrev empty : Unmarshall
empty = record { buf = []; sz = 0; ind = 0; good = false }

-- A bound client, one call of which is in the table.
abbrev client : Client
client = record (new_client true 11 0) { bind_done = true; xid = 3 }

abbrev header : ReqHeader
header = call_header 7001 client

abbrev reply : List ℕ
reply = (0 ∷ 0 ∷ 0 ∷ 0 ∷ []) ++ (reply_bytes (record { xid = 3; ret = 5 }) ++ [])

-- The reply comes twice, and the calls are cancelled.
abbrev events : List Event
events = pdu reply 12 ∷ pdu reply 12 ∷ cancel_calls ∷ []

client-sent : begin_call 7001 0 empty client ≡ sent header (entered 0 empty client)
unfolding begin_call new_client
client-sent = refl

call_outcome_example :
    let a = hear_all 3 events (record { ret = none; un = empty }) in
    (ca : Caller) × (lookup 3 (run events (entered 0 empty client)).calls ≡ some ca)
    × (call_result ca ≡ answer_result a.ret)
    × (ca.un ≡ a.un)
call_outcome_example =
    call_outcome 7001 0 empty client (entered 0 empty client) header events client-sent
      (omega arith) tt

cancel_ends_calls_example :
    let c' = run (leave 3 ∷ []) (step cancel_calls (entered 0 empty client)) in
    ((proc junk : ℕ) (un : Unmarshall) → Refused (begin_call proc junk un c'))
    × ((x : ℕ)
        → lookup x c'.calls ≡ (
            if left x (leave 3 ∷ [])
            then none
            else Option.map cancelled (lookup x (entered 0 empty client).calls)))
unfolding new_client insert
cancel_ends_calls_example = cancel_ends_calls (entered 0 empty client) (leave 3 ∷ []) refl

-- A new client's first call is `bind`, and its reply has come.
abbrev bind_reply : List ℕ
bind_reply = (0 ∷ 0 ∷ 0 ∷ 0 ∷ []) ++ (reply_bytes (record { xid = 1; ret = 5 }) ++ [])

abbrev binding : List Event
binding = start bind_proc 0 empty ∷ pdu bind_reply 12 ∷ []

bind_reply-read :
    unpack_reply_header (of_buffer bind_reply 12)
    ≡ (record { xid = 1; ret = 5 }, record (of_buffer bind_reply 12) { ind = rpc_header_sz })
bind_reply-read =
    unpack_reply_header-message (record { xid = 1; ret = 5 }) (0 ∷ 0 ∷ 0 ∷ 0 ∷ []) [] (omega arith)
      (omega arith) refl

binding-Honest : Honest binding (new_client false 0 0)
unfolding new_client begin_call step
binding-Honest = (rw bind_reply-read (inr (omega arith)), tt)

abbrev answered : Caller
answered = record {
  un = take_in (record (of_buffer bind_reply 12) { ind = rpc_header_sz });
  ret = 5;
  done = true;
}

abbrev bound : Client
bound = record (entered 0 empty (new_client false 0 0)) {
  xid_rep_window = 1 ∷ [];
  calls = (1, answered) ∷ [];
}

run-binding : run binding (new_client false 0 0) ≡ bound
unfolding new_client begin_call got_pdu got_reply deliver insert lookup of_buffer run step
run-binding = rw bind_reply-read (rw update_xid_rep-first refl)

acknowledged_calls_are_done_example : answered.done ≡ true
unfolding new_client begin_call lookup
acknowledged_calls_are_done_example =
    acknowledged_calls_are_done false 0 0 binding bind_proc 0 empty (call_header bind_proc bound)
      (entered 0 empty bound) 1 answered binding-Honest (omega arith) (rw run-binding refl)
      (omega arith) (rw run-binding refl)

-- The first connection dies, and the call is sent again on a second one.
abbrev meetings : List Meeting
meetings =
    record { dead = λ c. false; connected = some 4 }
    ∷ record { dead = λ c. c == 4; connected = some 5 }
    ∷ []

call_gives_back_example :
    let g = call_channel meetings none none in
    0 + gained 4 g.refs + times 4 g.made ≡ lost 4 g.refs + held_by 4 g.chan
call_gives_back_example = call_gives_back 4 meetings none
