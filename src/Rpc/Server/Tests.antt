-- ===== src/Rpc/Server/Tests.antt =====
-- Requests to a server, and the theorems on it at concrete inputs.
use y_f_s.Base.{
  ℕ, ◌+◌, ◌≡◌, ◌^◌, ◌<◌, refl, Bool, false, ◌&&◌, List, [], ◌∷◌, ◌++◌, lookup, ltb, if◌then◌else◌,
  arith,
}
use y_f_s.Rpc.Marshall.{ReqHeader, new_marshall, rpc_header_sz}
use y_f_s.Rpc.Marshall.Header.{req_bytes}
use y_f_s.Rpc.Unmarshall.Header.{unpack_req_header-message}
use y_f_s.Rpc.Unmarshall.{of_buffer, unpack_req_header}
use y_f_s.Rpc.ReplyWindow.{new_reply}
use y_f_s.Rpc.ReplyWindow.AtMostOnce.{Ascending}
use y_f_s.Rpc.Server.{Server, new_server, Message, pack_message, replied}
use y_f_s.Rpc.Server.Dispatch.{arrive, arrive_header, reply_conn, finish}
use y_f_s.Rpc.Server.AtMostOnce.{
  Event, request, returned, executed, InOrder, xid_of, server_at_most_once,
}
use y_f_s.Rpc.Server.References.{one, held, gained, lost, owed, is_old, arrive_balanced}
use y_f_s.Rpc.Server.Replies.{duplicate_gets_reply}

abbrev zeros : ℕ → ℕ
zeros i = 0

-- The connection with the higher number is the later one.
abbrev later : ℕ → ℕ → Bool
later a b = ltb a b

abbrev header : ℕ → ReqHeader
header xid = record { xid = xid; proc = 1; clt_nonce = 11; srv_nonce = 0; xid_rep = 0 }

abbrev message : ℕ → List ℕ
message xid = (0 ∷ 0 ∷ 0 ∷ 0 ∷ []) ++ (req_bytes (header xid) ++ (0 ∷ 0 ∷ 0 ∷ 0 ∷ []))

-- The first request twice, the second on another connection, and a return between them.
abbrev events : List Event
events =
    request 3 (message 1) 28
    ∷ request 3 (message 1) 28
    ∷ returned (header 1) 0 (new_marshall zeros) false 3
    ∷ request 4 (message 2) 28
    ∷ []

message_read :
    (xid : ℕ)
    → xid < 2 ^ 32
    → unpack_req_header (of_buffer (message xid) 28)
      ≡ (header xid, record (of_buffer (message xid) 28) { ind = rpc_header_sz })
message_read xid b =
    unpack_req_header-message (header xid) (0 ∷ 0 ∷ 0 ∷ 0 ∷ []) (0 ∷ 0 ∷ 0 ∷ 0 ∷ [])
      (record {
        xid = b;
        proc = omega arith;
        clt_nonce = omega arith;
        srv_nonce = omega arith;
        xid_rep = omega arith;
      })
      refl

abbrev server : Server
server = new_server 0 99 500

events-InOrder : InOrder server 11 0 events
unfolding new_server lookup of_buffer
events-InOrder =
    rw (xid_of, message_read 1 (omega arith), message_read 2 (omega arith))
      ((omega arith, omega arith), ((omega arith, omega arith), ((omega arith, omega arith), tt)))

server_at_most_once_example : Ascending 1 (executed zeros later 11 events server)
unfolding new_server lookup
server_at_most_once_example =
    server_at_most_once zeros later 11 server events (omega arith) refl events-InOrder

arrive_balanced_example :
    let (h, req) = unpack_req_header (of_buffer (message 1) 28) in
    let a = arrive zeros later 3 (message 1) 28 server in
    one 3 3 + held 3 server.conns + gained 3 a.refs
    ≡ lost 3 a.refs
      + held 3 a.server.conns
      + (if req.good && is_old server h then one 3 3 else owed 3 3 a.arrival)
arrive_balanced_example = arrive_balanced 3 zeros later 3 28 (message 1) server

-- The client's second call runs.
abbrev serving : Server
serving = record server { reply_window = (11, new_reply 1 ∷ new_reply 2 ∷ []) ∷ [] }

abbrev answer : Message
answer = pack_message 2 0 (new_marshall zeros)

duplicate_gets_reply_example :
    (arrive_header zeros later
      (header 2)
      4
      (finish (header 2) 0 (new_marshall zeros) false 3 serving).server).arrival
    ≡ replied answer
unfolding lookup finish reply_conn new_server
duplicate_gets_reply_example =
    duplicate_gets_reply zeros later (header 2) 0 (new_marshall zeros) false 3 3 4 2 answer
      (new_reply 1) (new_reply 2) [] serving refl refl (omega arith) (omega arith) (omega arith)
      (omega arith) refl refl
