-- ===== src/Rpc/Server/Fixed.antt =====
-- What a request and a handler's return leave as it is, and what a return does to the windows.
use y_f_s.Base.{
  ℕ, ◌≡◌, ◌⊎◌, refl, inl, inr, Bool, true, false, not, ◌&&◌, Option, none, some, ◌==◌, Bool-cases,
  int_ltb, arith,
}
use y_f_s.Rpc.Marshall.{Marshall, ReqHeader}
use y_f_s.Rpc.ReplyWindow.{new, in_progress, done, forgotten, Check, fault, ok, checkduplicate}
use y_f_s.Rpc.Server.{
  Server, Refs, Message, pack_message, unmarshal_args_failure, window, after_check, updatestat,
  save_conn,
}
use y_f_s.Rpc.Server.Dispatch.{arrive_header, arrive_known, finish, record_reply, reply_conn}
use y_f_s.Rpc.Server.Windows.{
  Ready, accepted, add_reply-Ready, window-insert, arrive_header-refused, arrive_header-accepted,
}

-- Nothing changes the instance and the registered procedures.
pub record Fixed (s0 s : Server) : Type 0 where
  pub nonce : s.nonce ≡ s0.nonce
  pub procs : s.procs ≡ s0.procs

after_check-Fixed :
    (junk : ℕ → ℕ) (h : ReqHeader) (f c : ℕ) (refs : Refs) (s0 s : Server) (k : Check)
    → Fixed s0 s
    → Fixed s0 (after_check junk h f c refs s k).server
unfolding after_check updatestat
after_check-Fixed junk h f c refs s0 s fault v = v
after_check-Fixed junk h f c refs s0 s (ok new out w) v = record {
  nonce = ground (arith, v.nonce);
  procs = ground (arith, v.procs);
}
after_check-Fixed junk h f c refs s0 s (ok in_progress out w) v = record {
  nonce = v.nonce;
  procs = v.procs;
}
after_check-Fixed junk h f c refs s0 s (ok done out w) v = record {
  nonce = v.nonce;
  procs = v.procs;
}
after_check-Fixed junk h f c refs s0 s (ok forgotten out w) v = record {
  nonce = v.nonce;
  procs = v.procs;
}

arrive_known-Fixed :
    (junk : ℕ → ℕ) (later : ℕ → ℕ → Bool) (h : ReqHeader) (f c : ℕ) (s0 s : Server)
    → Fixed s0 s
    → Fixed s0 (arrive_known junk later h f c s).server
unfolding arrive_known updatestat
arrive_known-Fixed junk later h f c s0 s v = elim (Bool-cases (h.clt_nonce == 0)) [
  | inl z ↦ rw z (record { nonce = ground (arith, v.nonce); procs = ground (arith, v.procs) })
  | inr z ↦ rw z (
      after_check-Fixed junk h f c (save_conn later h.clt_nonce c s.conns).1 s0
        (record s { conns = (save_conn later h.clt_nonce c s.conns).0 })
        (checkduplicate h.xid (window h.clt_nonce s)) (record { nonce = v.nonce; procs = v.procs }))
]

pub arrive_header-Fixed :
    (junk : ℕ → ℕ) (later : ℕ → ℕ → Bool) (h : ReqHeader) (c : ℕ) (s0 s : Server)
    → Fixed s0 s
    → Fixed s0 (arrive_header junk later h c s).server
arrive_header-Fixed junk later h c s0 s v = elim (Bool-cases (accepted s h)) [
  | inl e ↦
      let (f, same) = arrive_header-accepted junk h later c s e in
      rw same (arrive_known-Fixed junk later h f c s0 s v)
  | inr e ↦ rw (arrive_header-refused junk h later c s e).1 v
]

pub reply_conn-server :
    (dead : Bool) (c : ℕ) (b : Message) (latest : Option ℕ) (s : Server)
    → (reply_conn dead c b latest s).server ≡ s
unfolding reply_conn
reply_conn-server false c b latest s = refl
reply_conn-server true c b none s = refl
reply_conn-server true c b (some c') s = ground arith

-- What a handler's return does to the state.
pub finish_moves :
    (h : ReqHeader) (ret : ℕ) (m : Marshall) (dead : Bool) (c : ℕ) (s : Server)
    → ((finish h ret m dead c s).server ≡ s)
      ⊎ ((finish h ret m dead c s).server
          ≡ record_reply h.clt_nonce h.xid (pack_message h.xid ret m) s)
unfolding finish
finish_moves h ret m dead c s =
    elim (Bool-cases (int_ltb ret 0 && not (ret == unmarshal_args_failure))) [
      | inl bad ↦ inl (rw bad)
      | inr good ↦ elim (Bool-cases (h.clt_nonce == 0)) [
        | inl z ↦ inl (rw (good, z) (reply_conn-server dead c _ _ s))
        | inr z ↦ inr (rw (good, z) (reply_conn-server dead c _ _ _))
      ]
    ]

pub finish-Fixed :
    (h : ReqHeader) (ret : ℕ) (m : Marshall) (dead : Bool) (c : ℕ) (s0 s : Server)
    → Fixed s0 s
    → Fixed s0 (finish h ret m dead c s).server
unfolding record_reply
finish-Fixed h ret m dead c s0 s v = elim (finish_moves h ret m dead c s) [
  | inl e ↦ rw e v
  | inr e ↦ rw e (record { nonce = v.nonce; procs = v.procs })
]

pub finish-Ready :
    (h : ReqHeader) (ret : ℕ) (m : Marshall) (dead : Bool) (c clt hi : ℕ) (s : Server)
    → Ready hi (window clt s)
    → Ready hi (window clt (finish h ret m dead c s).server)
unfolding record_reply
finish-Ready h ret m dead c clt hi s v = elim (finish_moves h ret m dead c s) [
  | inl e ↦ rw e v
  | inr e ↦ rw e (
      rw (window-insert h.clt_nonce clt _ s) (elim (Bool-cases (h.clt_nonce == clt)) [
        | inl same ↦
            let q : h.clt_nonce ≡ clt = ground arith in
            rw same (rw q (add_reply-Ready hi h.xid _ _ (window clt s) v))
        | inr other ↦ rw other v
      ]))
]
