-- ===== src/Rpc/Server/References.antt =====
-- The references to connections that `rpcs::got_pdu` and `rpcs::dispatch` take and give back.
use y_f_s.Base.{
  ℕ, ◌+◌, ◌≡◌, refl, ap, ◌∙◌, inl, inr, Bool, true, false, not, ◌&&◌, Option, none, some, List, [],
  ◌∷◌, ◌++◌, ◌==◌, if◌then◌else◌, Table, Bool-cases, Option-cases, lookup, insert, int_ltb, arith,
}
use y_f_s.Rpc.Marshall.{Marshall, ReqHeader}
use y_f_s.Rpc.Unmarshall.{of_buffer, unpack_req_header}
use y_f_s.Rpc.ReplyWindow.{
  RpcState, new, in_progress, done, forgotten, Check, fault, ok, checkduplicate,
}
use y_f_s.Rpc.Server.{
  Server, incref, decref, Refs, Message, window, save_over, save_conn, Arrival, crash, ignored,
  replied, runs, answered, final_refs, stat_of, updatestat, after_check, unmarshal_args_failure,
}
use y_f_s.Rpc.Server.Dispatch.{
  arrive, arrive_header, arrive_known, sent, finish, record_reply, reply_conn,
}
use y_f_s.Rpc.Server.Fixed.{reply_conn-server}

abbrev pub one : ℕ → ℕ → ℕ
one x c = if x == c then 1 else 0

-- How often `x` gains and loses a reference.
abbrev pub gained : ℕ → Refs → ℕ
gained x [] = 0
gained x (incref c ∷ refs) = one x c + gained x refs
gained x (decref c ∷ refs) = gained x refs

abbrev pub lost : ℕ → Refs → ℕ
lost x [] = 0
lost x (incref c ∷ refs) = lost x refs
lost x (decref c ∷ refs) = one x c + lost x refs

-- How many clients `conns_` has `x` for; each entry holds a reference.
pub held : ℕ → Table ℕ → ℕ
held x [] = 0
held x ((clt, c) ∷ conns) = one x c + held x conns

abbrev of_option : ℕ → Option ℕ → ℕ
of_option x none = 0
of_option x (some c) = one x c

held-insert :
    (x clt c : ℕ) (conns : Table ℕ)
    → held x (insert clt c conns) + of_option x (lookup clt conns) ≡ held x conns + one x c
unfolding held insert lookup
held-insert x clt c [] = ground arith
held-insert x clt c ((k, d) ∷ conns) = ground (arith, held-insert x clt c conns)

-- The references that a job still holds.
abbrev pub owed : ℕ → ℕ → Arrival → ℕ
owed x c crash = one x c
owed x c (runs f) = one x c
owed x c ignored = 0
owed x c (replied b) = 0

save_conn_balanced :
    (x : ℕ) (later : ℕ → ℕ → Bool) (clt c : ℕ) (conns : Table ℕ)
    → let (conns', refs) = save_conn later clt c conns in
      held x conns + gained x refs ≡ lost x refs + held x conns'
unfolding save_conn save_over
save_conn_balanced x later clt c conns = go (lookup clt conns) (held-insert x clt c conns)
  where
    go :
        (o : Option ℕ)
        → held x (insert clt c conns) + of_option x o ≡ held x conns + one x c
        → let (conns', refs) = save_over later clt c conns o in
          held x conns + gained x refs ≡ lost x refs + held x conns'
    go none e = omega arith
    go (some old) e = elim (Bool-cases (later old c)) [
      | inl newer ↦ rw newer (omega arith)
      | inr same ↦ rw same (omega arith)
    ]

stat-conns : (state : RpcState) (proc : ℕ) (s : Server) → (stat_of state proc s).conns ≡ s.conns
unfolding updatestat
stat-conns new proc s = ground arith
stat-conns in_progress proc s = refl
stat-conns done proc s = refl
stat-conns forgotten proc s = refl

pub append-refs :
    (x : ℕ) (refs more : Refs)
    → (gained x (refs ++ more) ≡ gained x refs + gained x more)
      × (lost x (refs ++ more) ≡ lost x refs + lost x more)
append-refs x [] more = omega arith
append-refs x (incref c ∷ refs) more = omega (arith, append-refs x refs more)
append-refs x (decref c ∷ refs) more = omega (arith, append-refs x refs more)

after_check_balanced :
    (x : ℕ) (junk : ℕ → ℕ) (h : ReqHeader) (f c : ℕ) (refs : Refs) (s : Server) (k : Check)
    (before : ℕ)
    → before + gained x refs ≡ lost x refs + held x s.conns
    → let a = after_check junk h f c refs s k in
      one x c + before + gained x a.refs
      ≡ lost x a.refs + held x a.server.conns + owed x c a.arrival
unfolding after_check
after_check_balanced x junk h f c refs s fault before e = omega arith
after_check_balanced x junk h f c refs s (ok state out w) before e =
    rw (stat-conns state h.proc (record s { reply_window = insert h.clt_nonce w s.reply_window }))
      (go (answered junk h f state out))
  where
    go :
        (a : Arrival)
        → one x c + before + gained x (refs ++ final_refs c a)
          ≡ lost x (refs ++ final_refs c a) + held x s.conns + owed x c a
    go crash = omega (arith, append-refs x refs (final_refs c crash))
    go (runs i) = omega (arith, append-refs x refs (final_refs c (runs i)))
    go ignored = omega (arith, append-refs x refs (final_refs c ignored))
    go (replied b) = omega (arith, append-refs x refs (final_refs c (replied b)))

arrive_known_balanced :
    (x : ℕ) (junk : ℕ → ℕ) (later : ℕ → ℕ → Bool) (h : ReqHeader) (f c : ℕ) (s : Server)
    → let a = arrive_known junk later h f c s in
      one x c + held x s.conns + gained x a.refs
      ≡ lost x a.refs + held x a.server.conns + owed x c a.arrival
unfolding arrive_known
arrive_known_balanced x junk later h f c s = elim (Bool-cases (h.clt_nonce == 0)) [
  | inl z ↦ rw (z, stat-conns new h.proc s) (omega arith)
  | inr z ↦ rw z (
      after_check_balanced x junk h f c _ _ (checkduplicate h.xid (window h.clt_nonce s))
        (held x s.conns) (save_conn_balanced x later h.clt_nonce c s.conns))
]

-- A request for an older instance of the server.
abbrev pub is_old : Server → ReqHeader → Bool
is_old s h = not (h.srv_nonce == 0) && not (h.srv_nonce == s.nonce)

-- The first half of `dispatch` accounts for each reference: what a connection had from the job and
-- from `conns_`, and what it gains, is what it loses, what `conns_` then has, and what the job
-- still owes while its handler runs or after a crash. Only after a request for an older instance
-- of the server the job's reference is owed for ever: nothing is gained or lost.
pub arrive_balanced :
    (x : ℕ) (junk : ℕ → ℕ) (later : ℕ → ℕ → Bool) (c sz : ℕ) (bytes : List ℕ) (s : Server)
    → let (h, req) = unpack_req_header (of_buffer bytes sz) in
      let a = arrive junk later c bytes sz s in
      one x c + held x s.conns + gained x a.refs
      ≡ lost x a.refs
        + held x a.server.conns
        + (if req.good && is_old s h then one x c else owed x c a.arrival)
unfolding arrive arrive_header
arrive_balanced x junk later c sz bytes s =
    let (h, req) = unpack_req_header (of_buffer bytes sz) in
    elim (Bool-cases req.good) [
      | inr bad ↦ rw bad (omega arith)
      | inl good ↦ rw good (elim (Bool-cases (is_old s h)) [
        | inl old ↦ rw old (omega arith)
        | inr current ↦ rw current (elim (Option-cases (lookup h.proc s.procs)) [
          | inl unknown ↦ rw unknown (omega arith)
          | inr (f, known) ↦ rw known (arrive_known_balanced x junk later h f c s)
        ])
      ])
    ]

reply_conn_balanced :
    (x c : ℕ) (dead : Bool) (b : Message) (latest : Option ℕ) (s : Server)
    → let f = reply_conn dead c b latest s in one x c + gained x f.refs ≡ lost x f.refs
unfolding reply_conn
reply_conn_balanced x c false b latest s = omega arith
reply_conn_balanced x c true b none s = omega arith
reply_conn_balanced x c true b (some c') s = ground arith

-- The second half gives the job's reference back whenever it sends the reply, and keeps `conns_`.
pub finish_balanced :
    (x c : ℕ) (h : ReqHeader) (ret : ℕ) (m : Marshall) (dead : Bool) (s : Server) (d : ℕ)
    (b : Message)
    → let f = finish h ret m dead c s in
      f.finish ≡ sent d b → (one x c + gained x f.refs ≡ lost x f.refs) × (f.server.conns ≡ s.conns)
unfolding finish record_reply
finish_balanced x c h ret m dead s d b =
    elim (Bool-cases (int_ltb ret 0 && not (ret == unmarshal_args_failure))) [
      | inl bad ↦ rw bad (λ e. cc)
      | inr good ↦ rw good (λ e. (
        reply_conn_balanced x c dead _ _ _,
        ap (λ (t : Server). t.conns) (reply_conn-server dead c _ _ _) ∙ ground arith,
      ))
    ]
