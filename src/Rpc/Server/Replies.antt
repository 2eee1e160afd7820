-- ===== src/Rpc/Server/Replies.antt =====
-- What the clients of a server get: the same reply for a duplicate, and the error paths.
use y_f_s.Base.{
  ℕ, ◌^◌, ◌<◌, ◌≤◌, ◌≡◌, ◌≢◌, ap, ◌∙◌, inl, inr, Bool, true, false, not, ◌&&◌, Option, List, ◌∷◌,
  ◌==◌, Bool-cases, ==_refl, int_ltb, arith,
}
use y_f_s.Rpc.Marshall.{Marshall, ReqHeader, new_marshall}
use y_f_s.Rpc.ReplyWindow.{Reply, add_reply}
use y_f_s.Rpc.ReplyWindow.AtMostOnce.{Window, recorded_reply_resent}
use y_f_s.Rpc.Server.{
  Server, Message, pack_message, window, replied, after_check, unmarshal_args_failure,
  oldsrv_failure,
}
use y_f_s.Rpc.Server.Dispatch.{arrive_header, arrive_known, sent, finish, record_reply, reply_conn}
use y_f_s.Rpc.Server.Fixed.{reply_conn-server}
use y_f_s.Rpc.Server.Windows.{accepted, window-insert, arrive_header-accepted}

-- What is known of a second half that sends.
reply_conn-sent :
    (dead : Bool) (c d : ℕ) (b b' : Message) (latest : Option ℕ) (s : Server)
    → (reply_conn dead c b latest s).finish ≡ sent d b'
    → (b' ≡ b) × ((reply_conn dead c b latest s).server ≡ s)
unfolding reply_conn
reply_conn-sent dead c d b b' latest s e = (ground arith, reply_conn-server dead c b latest s)

-- Where the client wants at-most-once calls, the reply that is sent is in its window.
finish-sent :
    (h : ReqHeader) (ret : ℕ) (m : Marshall) (dead : Bool) (c : ℕ) (s : Server) (d : ℕ)
    (b : Message)
    → (h.clt_nonce == 0) ≡ false
    → (finish h ret m dead c s).finish ≡ sent d b
    → (finish h ret m dead c s).server ≡ record_reply h.clt_nonce h.xid b s
unfolding finish
finish-sent h ret m dead c s d b z =
    elim (Bool-cases (int_ltb ret 0 && not (ret == unmarshal_args_failure))) [
      | inl bad ↦ rw bad (λ e. cc)
      | inr good ↦
          rw (good, z) (λ e. let (same, kept) = reply_conn-sent dead c d _ b _ _ e in rw same kept)
    ]

-- A client with a nonce other than 0 whose window has at least two entries, with consecutive xids up
-- to one below 2 ^ 32: once the reply to its request above the first entry was sent, the same
-- request, accepted again on any connection, gets the same bytes, and no handler runs.
pub duplicate_gets_reply :
    (junk : ℕ → ℕ) (later : ℕ → ℕ → Bool) (h : ReqHeader) (ret : ℕ) (m : Marshall) (dead : Bool)
    (c d e hi : ℕ) (b : Message) (r a : Reply) (rest : List Reply) (s : Server)
    → (h.clt_nonce == 0) ≡ false
    → window h.clt_nonce s ≡ r ∷ a ∷ rest
    → Window hi (r ∷ a ∷ rest)
    → hi < 2 ^ 32
    → r.xid < h.xid
    → h.xid ≤ hi
    → accepted s h ≡ true
    → (finish h ret m dead c s).finish ≡ sent d b
    → (arrive_header junk later h e (finish h ret m dead c s).server).arrival ≡ replied b
unfolding record_reply arrive_known after_check
duplicate_gets_reply junk later h ret m dead c d e hi b r a rest s z w v t l u acc f =
    let same = finish-sent h ret m dead c s d b z f in
    let (w', ck, _) = recorded_reply_resent hi h.xid b.0 b.1 r a rest v t l u in
    let (g, known) =
      arrive_header-accepted junk h later e (record_reply h.clt_nonce h.xid b s) acc in
    let left : window h.clt_nonce (record_reply h.clt_nonce h.xid b s)
        ≡ add_reply h.xid b.0 b.1 (r ∷ a ∷ rest) =
      window-insert h.clt_nonce h.clt_nonce _ s
      ∙ rw (==_refl h.clt_nonce) (ap (add_reply h.xid b.0 b.1) w) in
    rw (same, known, z) (rw (left, ck))

-- A request for an older instance is answered with `oldsrv_failure`, and no handler runs, no window
-- and no count changes.
old_request :
    (junk : ℕ → ℕ) (later : ℕ → ℕ → Bool) (h : ReqHeader) (c : ℕ) (s : Server)
    → h.srv_nonce ≢ 0
    → h.srv_nonce ≢ s.nonce
    → let a = arrive_header junk later h c s in
      (a.arrival ≡ replied (pack_message h.xid oldsrv_failure (new_marshall junk))) × (a.server ≡ s)
unfolding arrive_header
old_request junk later h c s n o = ground arith
