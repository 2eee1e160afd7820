-- ===== src/Rpc/Server/Windows.antt =====
-- What one request does to the windows of all clients.
use y_f_s.Base.{
  ℕ, ◌+◌, ◌^◌, ◌<◌, ◌≤◌, ◌≡◌, refl, ◌∙◌, inl, inr, Bool, true, false, not, ◌&&◌, Option, none, some,
  List, [], ◌∷◌, ◌==◌, if◌then◌else◌, Bool-cases, Option-cases, lookup, insert, lookup-insert,
  ==_refl, arith,
}
use y_f_s.Rpc.Marshall.{ReqHeader}
use y_f_s.Rpc.ReplyWindow.{
  RpcState, new, in_progress, done, forgotten, Reply, Check, fault, ok, start_window,
  checkduplicate, add_reply,
}
use y_f_s.Rpc.ReplyWindow.AtMostOnce.{
  Window, Keeps, checkduplicate-Keeps, checkduplicate-new, add_reply-new, add_reply-Window,
}
use y_f_s.Rpc.Server.{
  Server, Refs, window, Arrival, crash, ignored, replied, runs, stat_of, after_check, updatestat,
  save_conn,
}
use y_f_s.Rpc.Server.Dispatch.{arrive_header, arrive_known}

-- A window that may still be empty.
abbrev pub Ready : ℕ → List Reply → Type 0
Ready hi w = Window hi (start_window w)

Window-Ready : (hi : ℕ) (w : List Reply) → Window hi w → Ready hi w
Window-Ready hi [] v = absurd v
Window-Ready hi (r ∷ rs) v = v

checkduplicate-start :
    (xid : ℕ) (w : List Reply) → checkduplicate xid w ≡ checkduplicate xid (start_window w)
checkduplicate-start xid [] = checkduplicate-new xid
checkduplicate-start xid (r ∷ rs) = refl

pub add_reply-Ready :
    (hi xid : ℕ) (b : List ℕ) (sz : ℕ) (w : List Reply)
    → Ready hi w
    → Ready hi (add_reply xid b sz w)
add_reply-Ready hi xid b sz [] v = rw add_reply-new v
add_reply-Ready hi xid b sz (r ∷ rs) v = Window-Ready hi _ (add_reply-Window hi xid b sz (r ∷ rs) v)

-- The tests of `dispatch` before the window's.
abbrev pub is_known : Option ℕ → Bool
is_known none = false
is_known (some f) = true

abbrev pub accepted : Server → ReqHeader → Bool
accepted s h =
    not (not (h.srv_nonce == 0) && not (h.srv_nonce == s.nonce)) && is_known (lookup h.proc s.procs)

-- What the arrival says of the xid, and of the window that it leaves.
abbrev pub After : ℕ → ℕ → Arrival → List Reply → Type 0
After hi xid crash w = Unit
After hi xid (runs f) w = (xid ≡ hi + 1) × Ready (hi + 1) w
After hi xid ignored w = (xid ≤ hi) × Ready hi w
After hi xid (replied b) w = (xid ≤ hi) × Ready hi w

-- No handler runs, and nothing crashes.
abbrev pub Passive : Arrival → Type 0
Passive crash = ⊥
Passive (runs f) = ⊥
Passive ignored = Unit
Passive (replied b) = Unit

stat-window :
    (state : RpcState) (proc clt : ℕ) (s : Server)
    → window clt (stat_of state proc s) ≡ window clt s
unfolding updatestat
stat-window new proc clt s = ground arith
stat-window in_progress proc clt s = refl
stat-window done proc clt s = refl
stat-window forgotten proc clt s = refl

pub window-insert :
    (clt i : ℕ) (w : List Reply) (s : Server)
    → window i (record s { reply_window = insert clt w s.reply_window })
      ≡ (if clt == i then w else window i s)
window-insert clt i w s =
    rw lookup-insert (elim (Bool-cases (clt == i)) [ inl e ↦ rw e | inr e ↦ rw e ])

window_left :
    (state : RpcState) (proc clt : ℕ) (w : List Reply) (s : Server)
    → window clt (stat_of state proc (record s { reply_window = insert clt w s.reply_window })) ≡ w
window_left state proc clt w s =
    stat-window state proc clt _ ∙ window-insert clt clt w s ∙ rw ==_refl

window_other :
    (state : RpcState) (proc clt i : ℕ) (w : List Reply) (s : Server)
    → (clt == i) ≡ false
    → window i (stat_of state proc (record s { reply_window = insert clt w s.reply_window }))
      ≡ window i s
window_other state proc clt i w s e = stat-window state proc i _ ∙ window-insert clt i w s ∙ rw e

module _ (junk : ℕ → ℕ) (h : ReqHeader) where
  after_check-After :
      (f c hi : ℕ) (refs : Refs) (s : Server) (k : Check)
      → Keeps hi h.xid k
      → let a = after_check junk h f c refs s k in
        After hi h.xid a.arrival (window h.clt_nonce a.server)
  unfolding after_check
  after_check-After f c hi refs s fault v = tt
  after_check-After f c hi refs s (ok new out w) v =
      (v.0, rw (window_left new h.proc h.clt_nonce w s) (Window-Ready _ w v.1))
  after_check-After f c hi refs s (ok in_progress out w) v =
      (v.0, rw (window_left in_progress h.proc h.clt_nonce w s) (Window-Ready _ w v.1))
  after_check-After f c hi refs s (ok done none w) v = tt
  after_check-After f c hi refs s (ok done (some b) w) v =
      (v.0, rw (window_left done h.proc h.clt_nonce w s) (Window-Ready _ w v.1))
  after_check-After f c hi refs s (ok forgotten out w) v =
      (v.0, rw (window_left forgotten h.proc h.clt_nonce w s) (Window-Ready _ w v.1))

  after_check-other :
      (f c i : ℕ) (refs : Refs) (s : Server) (k : Check)
      → (h.clt_nonce == i) ≡ false
      → window i (after_check junk h f c refs s k).server ≡ window i s
  unfolding after_check
  after_check-other f c i refs s fault e = refl
  after_check-other f c i refs s (ok state out w) e = window_other state h.proc h.clt_nonce i w s e

  pub arrive_known-After :
      (later : ℕ → ℕ → Bool) (f c hi : ℕ) (s : Server)
      → (h.clt_nonce == 0) ≡ false
      → h.xid ≤ hi + 1
      → hi < 2 ^ 32
      → Ready hi (window h.clt_nonce s)
      → let a = arrive_known junk later h f c s in
        After hi h.xid a.arrival (window h.clt_nonce a.server)
  unfolding arrive_known
  arrive_known-After later f c hi s z n b v = rw z (
      after_check-After f c hi _ _ _ (
        rw (checkduplicate-start h.xid (window h.clt_nonce s))
          (checkduplicate-Keeps hi h.xid (start_window (window h.clt_nonce s)) v n b)))

  pub arrive_known-other :
      (later : ℕ → ℕ → Bool) (f c i : ℕ) (s : Server)
      → (h.clt_nonce == i) ≡ false
      → window i (arrive_known junk later h f c s).server ≡ window i s
  unfolding arrive_known
  arrive_known-other later f c i s e = elim (Bool-cases (h.clt_nonce == 0)) [
    | inl z ↦ rw z (stat-window new h.proc i s)
    | inr z ↦ rw z (
        after_check-other f c i (save_conn later h.clt_nonce c s.conns).1
          (record s { conns = (save_conn later h.clt_nonce c s.conns).0 })
          (checkduplicate h.xid (window h.clt_nonce s)) e)
  ]

  pub arrive_header-refused :
      (later : ℕ → ℕ → Bool) (c : ℕ) (s : Server)
      → accepted s h ≡ false
      → let a = arrive_header junk later h c s in Passive a.arrival × (a.server ≡ s)
  unfolding arrive_header
  arrive_header-refused later c s e =
      elim (Bool-cases (not (h.srv_nonce == 0) && not (h.srv_nonce == s.nonce))) [
        | inl old ↦ rw old (tt, refl)
        | inr current ↦ rw current (elim (Option-cases (lookup h.proc s.procs)) [
          | inl bad ↦ rw bad (tt, refl)
          | inr (f, good) ↦ absurd (ground (arith, current, good))
        ])
      ]

  pub arrive_header-accepted :
      (later : ℕ → ℕ → Bool) (c : ℕ) (s : Server)
      → accepted s h ≡ true
      → (f : ℕ) × (arrive_header junk later h c s ≡ arrive_known junk later h f c s)
  unfolding arrive_header
  arrive_header-accepted later c s e =
      elim (Bool-cases (not (h.srv_nonce == 0) && not (h.srv_nonce == s.nonce))) [
        | inl old ↦ absurd (ground arith)
        | inr current ↦ rw current (elim (Option-cases (lookup h.proc s.procs)) [
          | inl bad ↦ absurd (ground (arith, bad))
          | inr (f, good) ↦ (f, rw good)
        ])
      ]
