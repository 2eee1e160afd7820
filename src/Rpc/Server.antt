-- ===== src/Rpc/Server.antt =====
-- rpc/rpc.h and rpc/rpc.cc, `class rpcs`: the server's dispatch of requests. A handler is the
-- number of its object, and what it computes is an input of the second half of `dispatch`. A
-- connection is a number; `Refs` lists its `incref`s and `decref`s.
pub mod Dispatch
pub mod Windows
pub mod Fixed
pub mod AtMostOnce
pub mod References
pub mod Replies
mod Tests
use y_f_s.Base.{
  ℕ, ◌+◌, ◌-◌, ◌%◌, ◌^◌, Bool, true, false, not, ◌&&◌, ◌||◌, Option, none, some, List, [], ◌∷◌,
  ◌++◌, ltb, ◌==◌, if◌then◌else◌, minus, int_ltb, Table, lookup, insert,
}
use y_f_s.Rpc.Marshall.{Marshall, ReqHeader, new_marshall, pack_reply_header}
use y_f_s.Rpc.ReplyWindow.{
  RpcState, new, in_progress, done, forgotten, Reply, Check, fault, ok, checkduplicate, add_reply,
}

abbrev pub unmarshal_args_failure : ℕ
unmarshal_args_failure = minus 2

abbrev pub atmostonce_failure : ℕ
atmostonce_failure = minus 4

abbrev pub oldsrv_failure : ℕ
oldsrv_failure = minus 5

pub record Server : Type 0 where
  pub nonce : ℕ
  pub counting : ℕ
  pub curr_counts : ℕ
  pub counts : Table ℕ
  pub reachable : Bool
  pub procs : Table ℕ
  pub reply_window : Table (List Reply)
  pub conns : Table ℕ

pub data Ref : Type 0 where
  incref : ℕ → Ref
  decref : ℕ → Ref

abbrev pub Refs : Type 0
Refs = List Ref

-- `reg1`; `none` is a failed VERIFY.
pub reg1 : ℕ → ℕ → Server → Option Server
reg1 proc h s = elim (lookup proc s.procs) [
  | none ↦ some (record s { procs = insert proc h s.procs })
  | some old ↦ none
]

-- The constructor: the handler of `bind` is registered. `random` is what `random()` returns.
pub new_server : ℕ → ℕ → ℕ → Server
new_server count random bind_handler = record {
  nonce = random;
  counting = count;
  curr_counts = count;
  counts = [];
  reachable = true;
  procs = (1, bind_handler) ∷ [];
  reply_window = [];
  conns = [];
}

-- `rpcbind`: the return value, and `r`.
pub rpcbind : Server → ℕ × ℕ
rpcbind s = (0, s.nonce)

abbrev pub count_of : Option ℕ → ℕ
count_of none = 0
count_of (some n) = n

-- `updatestat`, without the printing.
pub updatestat : ℕ → Server → Server
updatestat proc s =
    let left = (s.curr_counts + 2 ^ 32 - 1) % 2 ^ 32 in
    record s {
      counts = insert proc ((count_of (lookup proc s.counts) + 1) % 2 ^ 32) s.counts;
      curr_counts = if left == 0 then s.counting else left;
    }

-- A message of `sz` bytes for `send`.
abbrev pub Message : Type 0
Message = List ℕ × ℕ

-- `rep.pack_reply_header(rh)`, with `cstr()` and `size()`.
pub pack_message : ℕ → ℕ → Marshall → Message
pack_message xid ret m =
    let m' = pack_reply_header (record { xid = xid; ret = ret }) m in (m'.buf, m'.ind)

-- `reply_window_[clt_nonce]`, which makes an empty window if there is none.
abbrev pub window_of : Option (List Reply) → List Reply
window_of none = []
window_of (some w) = w

abbrev pub window : ℕ → Server → List Reply
window clt s = window_of (lookup clt s.reply_window)

-- The latest good connection to the client: `later a b` is whether `a->compare(b) < 0`.
pub save_over : (ℕ → ℕ → Bool) → ℕ → ℕ → Table ℕ → Option ℕ → Table ℕ × Refs
save_over later clt c conns none = (insert clt c conns, incref c ∷ [])
save_over later clt c conns (some old) =
    if later old c then (insert clt c conns, decref old ∷ incref c ∷ []) else (conns, [])

pub save_conn : (ℕ → ℕ → Bool) → ℕ → ℕ → Table ℕ → Table ℕ × Refs
unfolding save_over
save_conn later clt c conns = save_over later clt c conns (lookup clt conns)

-- What the first half of `dispatch` ends with. `crash` is undefined behaviour: a check that reads
-- through an end iterator, or a reply buffer that was never set.
pub data Arrival : Type 0 where
  crash : Arrival
  ignored : Arrival
  replied : Message → Arrival
  runs : ℕ → Arrival

abbrev pub answered : (ℕ → ℕ) → ReqHeader → ℕ → RpcState → Option Message → Arrival
answered junk h f new out = runs f
answered junk h f in_progress out = ignored
answered junk h f done none = crash
answered junk h f done (some b) = replied b
answered junk h f forgotten out =
    replied (pack_message h.xid atmostonce_failure (new_marshall junk))

abbrev pub stat_of : RpcState → ℕ → Server → Server
stat_of new proc s = if s.counting == 0 then s else updatestat proc s
stat_of in_progress proc s = s
stat_of done proc s = s
stat_of forgotten proc s = s

-- `c->decref()` at the end. After `runs` it stands in the second half.
abbrev pub final_refs : ℕ → Arrival → Refs
final_refs c crash = []
final_refs c (runs f) = []
final_refs c ignored = decref c ∷ []
final_refs c (replied b) = decref c ∷ []

pub record Arrived : Type 0 where
  pub arrival : Arrival
  pub server : Server
  pub refs : Refs

-- After `checkduplicate_and_update`, on the window of the client.
pub after_check : (ℕ → ℕ) → ReqHeader → ℕ → ℕ → Refs → Server → Check → Arrived
unfolding pack_message updatestat
after_check junk h f c refs s fault = record { arrival = crash; server = s; refs = refs }
after_check junk h f c refs s (ok state out w) = record {
  arrival = answered junk h f state out;
  server = stat_of state h.proc (record s { reply_window = insert h.clt_nonce w s.reply_window });
  refs = refs ++ final_refs c (answered junk h f state out);
}
