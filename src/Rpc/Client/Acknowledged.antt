-- ===== src/Rpc/Client/Acknowledged.antt =====
-- What the client acknowledges with `xid_rep`, against the calls that still wait.
use y_f_s.Base.{
  ℕ, Bool, ◌+◌, ◌^◌, ◌<◌, ◌≤◌, ◌≡◌, ◌⊎◌, refl, ap, ◌∙◌, sym, true, false, some, List, [], ◌∷◌, ◌==◌,
  if◌then◌else◌, length, lookup, lookup-insert, lookup-erase, Bool-cases, inl, inr, arith,
}
use y_f_s.Rpc.Marshall.{ReqHeader, ReplyHeader}
use y_f_s.Rpc.Unmarshall.{Unmarshall, of_buffer, unpack_reply_header}
use y_f_s.Rpc.XidWindow.{has, IsWindow}
use y_f_s.Rpc.XidWindow.Received.{update_xid_rep-IsWindow, has-update_xid_rep, new_window-IsWindow}
use y_f_s.Rpc.Client.{
  Caller, Client, new_caller, new_client, sent, begin_call, transmit, deliver, got_reply, got_pdu,
  end_call, remember, cancelled, cancel,
}
use y_f_s.Rpc.Client.Calls.{
  Event, start, send, pdu, leave, note, cancel_calls, step, run, lookup-cancel_all,
  lookup-deliver_to, entered, start_moves, step-xid, begin_call_sent, map-some,
}

-- Xids are given out below the counter, and a call that waits is not acknowledged.
record IsClient (c : Client) : Type 0 where
  window : IsWindow c.xid_rep_window
  heard : (r : ℕ) → has r c.xid_rep_window ≡ true → r < c.xid
  known : (x : ℕ) (ca : Caller) → lookup x c.calls ≡ some ca → x < c.xid
  awaited :
      (x : ℕ) (ca : Caller)
      → lookup x c.calls ≡ some ca
      → ca.done ≡ false
      → has x c.xid_rep_window ≡ false

entered-IsClient :
    (junk : ℕ) (un : Unmarshall) (c : Client)
    → c.xid + 1 < 2 ^ 32
    → IsClient c
    → IsClient (entered junk un c)
entered-IsClient junk un c b v = record {
  window = v.window;
  heard = λ r e. ground (arith, v.heard r e);
  known = λ x ca e. elim (Bool-cases (c.xid == x)) [
    | inl same ↦ ground arith
    | inr other ↦ ground (arith, v.known x ca (kept x other ∙ e))
  ];
  awaited = λ x ca e d. elim (Bool-cases (c.xid == x)) [
    | inl same ↦ ground (arith, v.heard x)
    | inr other ↦ v.awaited x ca (kept x other ∙ e) d
  ];
}
  where
    kept : (x : ℕ) → (c.xid == x) ≡ false → lookup x c.calls ≡ lookup x (entered junk un c).calls
    kept x other = ground (arith, lookup-insert c.xid x (new_caller junk un) c.calls)

-- A reply leaves a call waiting only if it is another call's.
waits_before :
    (same : Bool) (rep : Unmarshall) (h : ReplyHeader) (ca0 ca : Caller)
    → (if same then deliver rep h ca0 else ca0) ≡ ca
    → ca.done ≡ false
    → (same ≡ false) × (ca0.done ≡ false)
unfolding deliver
waits_before true rep h ca0 ca e d = ground arith
waits_before false rep h ca0 ca e d = ground arith

got_reply-IsClient :
    (rep : Unmarshall) (h : ReplyHeader) (c : Client)
    → h.xid < c.xid
    → c.xid < 2 ^ 32
    → IsClient c
    → IsClient (got_reply rep h c)
unfolding got_reply
got_reply-IsClient rep h c l b v = record {
  window = update_xid_rep-IsWindow h.xid c.xid_rep_window (omega arith) v.window;
  heard = λ r e. ground (arith, has-update_xid_rep r h.xid c.xid_rep_window, v.window, v.heard r);
  known = λ x ca e. let (ca0, e0, f) = before x ca e in v.known x ca0 e0;
  awaited = λ x ca e d.
      let (ca0, e0, f) = before x ca e in
      let (other, d0) = waits_before (h.xid == x) rep h ca0 ca f d in
      has-update_xid_rep x h.xid c.xid_rep_window (omega arith) v.window
      ∙ rw (other, v.awaited x ca0 e0 d0);
}
  where
    before :
        (x : ℕ) (ca : Caller)
        → lookup x (got_reply rep h c).calls ≡ some ca
        → (ca0 : Caller) × (lookup x c.calls ≡ some ca0)
          × ((if h.xid == x then deliver rep h ca0 else ca0) ≡ ca)
    before x ca e = map-some _ _ ca (sym (lookup-deliver_to x rep h c.calls) ∙ e)

end_call-IsClient :
    (xid : ℕ) (c : Client)
    → xid < c.xid
    → c.xid < 2 ^ 32
    → IsClient c
    → IsClient (step (leave xid) c)
unfolding step end_call
end_call-IsClient xid c l b v = record {
  window = update_xid_rep-IsWindow xid c.xid_rep_window (omega arith) v.window;
  heard = λ r e. ground (arith, has-update_xid_rep r xid c.xid_rep_window, v.window, v.heard r);
  known = λ x ca e. v.known x ca (before x ca e).1;
  awaited = λ x ca e d.
      let (other, e0) = before x ca e in
      has-update_xid_rep x xid c.xid_rep_window (omega arith) v.window
      ∙ rw (other, v.awaited x ca e0 d);
}
  where
    before :
        (x : ℕ) (ca : Caller)
        → lookup x (step (leave xid) c).calls ≡ some ca
        → ((xid == x) ≡ false) × (lookup x c.calls ≡ some ca)
    before x ca e = ground (arith, lookup-erase xid x c.calls)

cancel-IsClient : (c : Client) → IsClient c → IsClient (step cancel_calls c)
unfolding step cancel cancelled
cancel-IsClient c v = record {
  window = v.window;
  heard = v.heard;
  known = λ x ca e. let (ca0, e0, f) = before x ca e in v.known x ca0 e0;
  awaited = λ x ca e d. let (ca0, e0, f) = before x ca e in ground arith;
}
  where
    before :
        (x : ℕ) (ca : Caller)
        → lookup x (step cancel_calls c).calls ≡ some ca
        → (ca0 : Caller) × (lookup x c.calls ≡ some ca0) × (cancelled ca0 ≡ ca)
    before x ca e = map-some cancelled _ ca (sym (lookup-cancel_all x c.calls) ∙ e)

-- Messages answer calls that were begun, and calls end that were begun.
abbrev pub MayHear : List ℕ → ℕ → Client → Type 0
MayHear b sz c =
    let (h, rep) = unpack_reply_header (of_buffer b sz) in (rep.good ≡ false) ⊎ (h.xid < c.xid)

abbrev pub Honest : List Event → Client → Type 0
Honest [] c = Unit
Honest (pdu b sz ∷ es) c = MayHear b sz c × Honest es (step (pdu b sz) c)
Honest (leave xid ∷ es) c = (xid < c.xid) × Honest es (step (leave xid) c)
Honest (start proc junk un ∷ es) c = Honest es (step (start proc junk un) c)
Honest (send req ∷ es) c = Honest es (step (send req) c)
Honest (note xid xid_rep req ca ∷ es) c = Honest es (step (note xid xid_rep req ca) c)
Honest (cancel_calls ∷ es) c = Honest es (step cancel_calls c)

start-IsClient :
    (proc junk : ℕ) (un : Unmarshall) (c : Client)
    → c.xid + 1 < 2 ^ 32
    → IsClient c
    → IsClient (step (start proc junk un) c)
start-IsClient proc junk un c b v = elim (start_moves proc junk un c) [
  | inl e ↦ rw e v
  | inr e ↦ rw e (entered-IsClient junk un c b v)
]

pdu-IsClient :
    (b : List ℕ) (sz : ℕ) (c : Client)
    → MayHear b sz c
    → c.xid < 2 ^ 32
    → IsClient c
    → IsClient (step (pdu b sz) c)
unfolding step got_pdu
pdu-IsClient b sz c (inl e) l v = rw e v
pdu-IsClient b sz c (inr h) l v =
    let (head, rep) = unpack_reply_header (of_buffer b sz) in
    elim (Bool-cases rep.good) [
      | inl e ↦ rw e (got_reply-IsClient rep head c h l v)
      | inr e ↦ rw e v
    ]

-- The steps that touch neither the table, nor the window, nor the counter.
record Same (c c' : Client) : Type 0 where
  calls : c'.calls ≡ c.calls
  window : c'.xid_rep_window ≡ c.xid_rep_window
  xid : c'.xid ≡ c.xid

Same-IsClient : (c c' : Client) → Same c c' → IsClient c → IsClient c'
Same-IsClient c c' s v = record {
  window = rw s.window v.window;
  heard = λ r e. rw s.xid (v.heard r (rw s.window at e));
  known = λ x ca e. rw s.xid (v.known x ca (rw s.calls at e));
  awaited = λ x ca e d. rw s.window (v.awaited x ca (rw s.calls at e) d);
}

send-Same : (req : List ℕ) (c : Client) → Same c (step (send req) c)
unfolding step transmit
send-Same req c = record { calls = ground arith; window = ground arith; xid = ground arith }

note-Same :
    (xid xid_rep : ℕ) (req : List ℕ) (ca : Caller) (c : Client)
    → Same c (step (note xid xid_rep req ca) c)
unfolding step remember
note-Same xid xid_rep req ca c = record {
  calls = ground arith;
  window = ground arith;
  xid = ground arith;
}

run-IsClient :
    (es : List Event) (c : Client)
    → Honest es c
    → c.xid + length es < 2 ^ 32
    → IsClient c
    → IsClient (run es c)
unfolding run
run-IsClient [] c t b v = v
run-IsClient (start proc junk un ∷ es) c t b v =
    run-IsClient es _ t (omega (arith, step-xid (start proc junk un) c))
      (start-IsClient proc junk un c (omega arith) v)
run-IsClient (send req ∷ es) c t b v =
    run-IsClient es _ t (omega (arith, step-xid (send req) c))
      (Same-IsClient c _ (send-Same req c) v)
run-IsClient (pdu bytes sz ∷ es) c t b v =
    run-IsClient es _ t.1 (omega (arith, step-xid (pdu bytes sz) c))
      (pdu-IsClient bytes sz c t.0 (omega arith) v)
run-IsClient (leave xid ∷ es) c t b v =
    run-IsClient es _ t.1 (omega (arith, step-xid (leave xid) c))
      (end_call-IsClient xid c t.0 (omega arith) v)
run-IsClient (note xid xid_rep req ca ∷ es) c t b v =
    run-IsClient es _ t (omega (arith, step-xid (note xid xid_rep req ca) c))
      (Same-IsClient c _ (note-Same xid xid_rep req ca c) v)
run-IsClient (cancel_calls ∷ es) c t b v =
    run-IsClient es _ t (omega (arith, step-xid cancel_calls c)) (cancel-IsClient c v)

new_client-IsClient :
    (retrans : Bool) (random lossy : ℕ) → IsClient (new_client retrans random lossy)
unfolding new_client lookup
new_client-IsClient retrans random lossy = record {
  window = new_window-IsWindow;
  heard = λ r e. ground arith;
  known = λ x ca e. ground arith;
  awaited = λ x ca e d. ground arith;
}

new_client-xid : (retrans : Bool) (random lossy : ℕ) → (new_client retrans random lossy).xid ≡ 1
unfolding new_client
new_client-xid retrans random lossy = refl

-- In a client that took any steps since its construction, fewer than 2 ^ 32 - 1, where messages
-- with a readable reply header and ends of calls are for xids that were given out, the header of a
-- new call acknowledges only calls that are over: a call in the table with an xid up to the
-- header's `xid_rep` is done.
pub acknowledged_calls_are_done :
    (retrans : Bool) (random lossy : ℕ) (es : List Event) (proc junk : ℕ) (un : Unmarshall)
    (h : ReqHeader) (c' : Client) (x : ℕ) (ca : Caller)
    → let c = run es (new_client retrans random lossy) in
      Honest es (new_client retrans random lossy)
      → length es + 1 < 2 ^ 32
      → begin_call proc junk un c ≡ sent h c'
      → x ≤ h.xid_rep
      → lookup x c.calls ≡ some ca
      → ca.done ≡ true
acknowledged_calls_are_done retrans random lossy es proc junk un h c' x ca t b e l f =
    let c = run es (new_client retrans random lossy) in
    let v =
      run-IsClient es _ t (omega (arith, new_client-xid retrans random lossy))
        (new_client-IsClient retrans random lossy) in
    let (eh, ec) = begin_call_sent proc junk un c h c' e in
    elim (Bool-cases ca.done) [
      | inl d ↦ d
      | inr d ↦ absurd (ground (arith, v.awaited x ca f d, ap (λ (k : ReqHeader). k.xid_rep) eh))
    ]
