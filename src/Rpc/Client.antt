-- ===== src/Rpc/Client.antt =====
-- rpc/rpc.h and rpc/rpc.cc, `class rpcc`: the client's calls. Each function is a part of a method
-- that holds the mutex `m_`. An `int` and an `unsigned int` are bit patterns below 2 ^ 32.
--
-- A caller stands on the stack of the thread in `call1` and is reached by the others only through
-- `calls_`, so the table holds it.
pub mod Calls
pub mod Outcome
pub mod Acknowledged
pub mod Cancel
pub mod Waiters
pub mod Wait
pub mod Channel
mod Tests
use y_f_s.Base.{
  ℕ, ◌+◌, ◌-◌, ◌%◌, ◌^◌, Bool, true, false, not, ◌&&◌, ◌||◌, Option, none, some, List, [], ◌∷◌, ltb,
  ◌==◌, if◌then◌else◌, is_empty, Table, lookup, insert, erase, minus, int_ltb,
}
use y_f_s.Rpc.Marshall.{ReqHeader, ReplyHeader}
use y_f_s.Rpc.Unmarshall.{Unmarshall, of_buffer, take_in, unpack_reply_header}
use y_f_s.Rpc.XidWindow.{front, new_window, u32, update_xid_rep}

abbrev pub bind_proc : ℕ
bind_proc = 1

abbrev pub timeout_failure : ℕ
timeout_failure = minus 1

abbrev pub unmarshal_reply_failure : ℕ
unmarshal_reply_failure = minus 3

abbrev pub bind_failure : ℕ
bind_failure = minus 6

abbrev pub cancel_failure : ℕ
cancel_failure = minus 7

pub record Caller : Type 0 where
  pub un : Unmarshall
  pub ret : ℕ  -- `intret`
  pub done : Bool

-- `intret` is not set by the constructor: `junk` is what the stack holds.
abbrev pub new_caller : ℕ → Unmarshall → Caller
new_caller junk un = record { un = un; ret = junk; done = false }

-- `struct request`
pub record Request : Type 0 where
  pub buf : List ℕ
  pub xid : ℕ

abbrev pub cleared : Request
cleared = record { buf = []; xid = minus 1 }

abbrev pub isvalid : Request → Bool
isvalid r = not (r.xid == minus 1)

pub record Client : Type 0 where
  pub clt_nonce : ℕ
  pub srv_nonce : ℕ
  pub bind_done : Bool
  pub xid : ℕ
  pub lossytest : ℕ
  pub retrans : Bool
  pub reachable : Bool
  pub destroy_wait : Bool
  pub calls : Table Caller
  pub xid_rep_window : List ℕ
  pub dup_req : Request
  pub xid_rep_done : ℕ

-- The constructor; `random` is what `random()` returns, and `lossy` the number in RPC_LOSSY, or 0.
pub new_client : Bool → ℕ → ℕ → Client
new_client retrans random lossy = record {
  clt_nonce = if retrans then random else 0;
  srv_nonce = 0;
  bind_done = false;
  xid = 1;
  lossytest = lossy;
  retrans = retrans;
  reachable = true;
  destroy_wait = false;
  calls = [];
  xid_rep_window = new_window;
  dup_req = cleared;
  xid_rep_done = minus 1;
}

-- The first part of `call1`: an early return, or the header that is packed, with the new state.
pub data Begun : Type 0 where
  refused : ℕ → Begun
  sent : ReqHeader → Client → Begun

abbrev pub call_header : ℕ → Client → ReqHeader
call_header proc c = record {
  xid = c.xid;
  proc = proc;
  clt_nonce = c.clt_nonce;
  srv_nonce = c.srv_nonce;
  xid_rep = front c.xid_rep_window;
}

pub begin_call : ℕ → ℕ → Unmarshall → Client → Begun
begin_call proc junk un c =
    if (not (proc == bind_proc) && not c.bind_done) || (proc == bind_proc && c.bind_done)
    then refused bind_failure
    else if c.destroy_wait
    then refused cancel_failure
    else sent (call_header proc c)
        (record c { xid = u32 (c.xid + 1); calls = insert c.xid (new_caller junk un) c.calls })

-- A transmission, where there is a channel: an old request that the server is made to see again, if
-- the reply to it is known to be dropped there, and the request. The result is what `send` gets.
pub take_forgotten : Client → Request × Client
take_forgotten c =
    if isvalid c.dup_req && int_ltb c.dup_req.xid c.xid_rep_done
    then (c.dup_req, record c { dup_req = cleared })
    else (cleared, c)

pub transmit : List ℕ → Client → List (List ℕ) × Client
unfolding take_forgotten
transmit req c =
    if c.reachable
    then (let (forgot, c') = take_forgotten c in
        (if isvalid forgot then forgot.buf ∷ req ∷ [] else req ∷ [], c'))
    else ([], c)

-- The body of `got_pdu` for the caller: the first reply counts.
pub deliver : Unmarshall → ReplyHeader → Caller → Caller
deliver rep h ca = if ca.done then ca else record ca { un = take_in rep; ret = h.ret; done = true }

abbrev pub deliver_to : Unmarshall → ReplyHeader → Option Caller → Table Caller → Table Caller
deliver_to rep h none calls = calls
deliver_to rep h (some ca) calls = insert h.xid (deliver rep h ca) calls

pub got_reply : Unmarshall → ReplyHeader → Client → Client
unfolding deliver
got_reply rep h c = record c {
  xid_rep_window = update_xid_rep h.xid c.xid_rep_window;
  calls = deliver_to rep h (lookup h.xid c.calls) c.calls;
}

-- `got_pdu`, on a message of `sz` bytes.
pub got_pdu : List ℕ → ℕ → Client → Client
got_pdu b sz c =
    let (h, rep) = unpack_reply_header (of_buffer b sz) in if rep.good then got_reply rep h c else c

-- The end of `call1`: the call leaves the table, and the first result is whether `destroy_wait_c_`
-- is signalled. A second part, under `m_` again, remembers the request for a lossy test; `xid_rep` is what the request's header said.
pub end_call : ℕ → Client → Bool × Client
end_call xid c = (
  c.destroy_wait,
  record c { calls = erase xid c.calls; xid_rep_window = update_xid_rep xid c.xid_rep_window },
)

pub remember : ℕ → ℕ → List ℕ → Caller → Client → Client
remember xid xid_rep req ca c =
    if ca.done && not (c.lossytest == 0)
    then (let c' =
          if isvalid c.dup_req then c else record c { dup_req = record { buf = req; xid = xid } } in
        if int_ltb c'.xid_rep_done xid_rep then record c' { xid_rep_done = xid_rep } else c')
    else c

-- What `call1` returns.
pub call_result : Caller → ℕ
call_result ca = if ca.done then ca.ret else timeout_failure

-- `cancel`, up to its wait. It waits until `calls_` is empty, and sets `destroy_wait_` again each
-- time that it wakes.
pub cancelled : Caller → Caller
cancelled ca = record ca { ret = cancel_failure; done = true }

pub cancel_all : Table Caller → Table Caller
unfolding cancelled
cancel_all [] = []
cancel_all ((xid, ca) ∷ others) = (xid, cancelled ca) ∷ cancel_all others

abbrev pub cancel_waits : Client → Bool
cancel_waits c = not (is_empty c.calls)

pub cancel : Client → Client
unfolding cancel_all
cancel c =
    let c' = record c { calls = cancel_all c.calls } in
    record c' { destroy_wait = c.destroy_wait || cancel_waits c' }

-- `bind`, after its call: `ret` is the call's result, and `r` the server's answer.
pub bind_end : ℕ → ℕ → Client → Client
bind_end ret r c = if ret == 0 then record c { bind_done = true; srv_nonce = r } else c

-- `call_m`, after `call1`, which left the reply in `u`; `get` is `>>` at the type of the result,
-- and `none` a read behind the buffer. The result comes with what `r` is then.
pub call_m_end {ℓ} :
    {R : Type ℓ} → (R → Unmarshall → Option (R × Unmarshall)) → ℕ → R → Unmarshall → Option (ℕ × R)
call_m_end get intret r u = if int_ltb intret 0 then some (intret, r) else elim (get r u) [
  | none ↦ none
  | some (r', u') ↦
      some (if u'.good && (u'.ind == u'.sz) then intret else unmarshal_reply_failure, r')
]
