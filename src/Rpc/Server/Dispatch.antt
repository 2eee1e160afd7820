-- ===== src/Rpc/Server/Dispatch.antt =====
-- rpc/rpc.cc, `rpcs::got_pdu` and `rpcs::dispatch`: the first half of `dispatch`, up to the call of
-- the handler, and the second half, from its return on.
use y_f_s.Base.{
  ℕ, Bool, true, false, not, ◌&&◌, Option, none, some, List, [], ◌∷◌, ◌==◌, if◌then◌else◌, int_ltb,
  lookup, insert,
}
use y_f_s.Rpc.Marshall.{Marshall, ReqHeader, new_marshall}
use y_f_s.Rpc.Unmarshall.{of_buffer, unpack_req_header}
use y_f_s.Rpc.ReplyWindow.{new, checkduplicate, add_reply}
use y_f_s.Rpc.Server.{
  Server, incref, decref, Refs, Message, pack_message, window, save_conn, ignored, replied, runs,
  Arrived, stat_of, after_check, oldsrv_failure, unmarshal_args_failure,
}

-- `got_pdu`: `added` is what `addObjJob` returns, and `reachable` the flag as it is read again after
-- it. The result is the return value.
unfoldable pub got_pdu : Bool → Bool → ℕ → Server → Bool × Refs
got_pdu added reachable c s =
    if s.reachable
    then (added, if added && reachable then incref c ∷ [] else incref c ∷ decref c ∷ [])
    else (true, [])

-- Where the procedure is registered, with the handler `f`.
unfoldable pub arrive_known : (ℕ → ℕ) → (ℕ → ℕ → Bool) → ReqHeader → ℕ → ℕ → Server → Arrived
unfolding save_conn after_check
arrive_known junk later h f c s =
    if h.clt_nonce == 0
    then record { arrival = runs f; server = stat_of new h.proc s; refs = [] }
    else (let (conns, refs) = save_conn later h.clt_nonce c s.conns in
        after_check junk h f c refs (record s { conns = conns })
          (checkduplicate h.xid (window h.clt_nonce s)))

unfoldable pub arrive_header : (ℕ → ℕ) → (ℕ → ℕ → Bool) → ReqHeader → ℕ → Server → Arrived
unfolding arrive_known
arrive_header junk later h c s =
    if not (h.srv_nonce == 0) && not (h.srv_nonce == s.nonce)
    then record {
      arrival = replied (pack_message h.xid oldsrv_failure (new_marshall junk));
      server = s;
      refs = [];
    }
    else elim (lookup h.proc s.procs) [
      | none ↦ record { arrival = ignored; server = s; refs = decref c ∷ [] }
      | some f ↦ arrive_known junk later h f c s
    ]

-- The first half, on a message of `sz` bytes from the connection `c`.
unfoldable pub arrive : (ℕ → ℕ) → (ℕ → ℕ → Bool) → ℕ → List ℕ → ℕ → Server → Arrived
unfolding arrive_header
arrive junk later c b sz s =
    let (h, req) = unpack_req_header (of_buffer b sz) in
    if req.good
    then arrive_header junk later h c s
    else record { arrival = ignored; server = s; refs = decref c ∷ [] }

-- `add_reply`, on the client's window.
unfoldable pub record_reply : ℕ → ℕ → Message → Server → Server
record_reply clt xid b s = record s {
  reply_window = insert clt (add_reply xid b.0 b.1 (window clt s)) s.reply_window;
}

-- What the second half ends with: a message for a connection, or a failed VERIFY or a call through
-- a null pointer.
pub data Finish : Type 0 where
  broken : Finish
  sent : ℕ → Message → Finish

pub record Finished : Type 0 where
  pub finish : Finish
  pub server : Server
  pub refs : Refs

-- The connection for the reply, if `c` is `dead`; `conns_[clt_nonce]` is null if it was not set.
unfoldable pub reply_conn : Bool → ℕ → Message → Option ℕ → Server → Finished
reply_conn false c b latest s = record { finish = sent c b; server = s; refs = decref c ∷ [] }
reply_conn true c b none s = record { finish = broken; server = s; refs = decref c ∷ [] }
reply_conn true c b (some c') s =
    if c == c'
    then record { finish = sent c b; server = s; refs = decref c ∷ [] }
    else record { finish = sent c' b; server = s; refs = decref c ∷ incref c' ∷ decref c' ∷ [] }

-- The second half: the handler has returned `ret` and left its result in `m`.
unfoldable pub finish : ReqHeader → ℕ → Marshall → Bool → ℕ → Server → Finished
unfolding record_reply reply_conn
finish h ret m dead c s =
    if int_ltb ret 0 && not (ret == unmarshal_args_failure)
    then record { finish = broken; server = s; refs = [] }
    else (let b = pack_message h.xid ret m in
        let s' = if h.clt_nonce == 0 then s else record_reply h.clt_nonce h.xid b s in
        reply_conn dead c b (lookup h.clt_nonce s'.conns) s')
