-- ===== src/Rpc/Server/AtMostOnce.antt =====
-- At-most-once execution by the whole server: all clients' requests, in any order.
use Prim.Native.Nat.{max}
use y_f_s.Base.{
  ℕ, suc, ◌+◌, ◌^◌, ◌<◌, ◌≤◌, ◌≡◌, refl, ap, ◌∙◌, inl, inr, Bool, true, false, ◌&&◌, none, List, [],
  ◌∷◌, ◌==◌, if◌then◌else◌, Table, Bool-cases, lookup, arith,
}
use y_f_s.Rpc.Marshall.{Marshall, ReqHeader}
use y_f_s.Rpc.Unmarshall.{of_buffer, unpack_req_header}
use y_f_s.Rpc.ReplyWindow.{Reply}
use y_f_s.Rpc.ReplyWindow.AtMostOnce.{Ascending, started}
use y_f_s.Rpc.Server.{Server, window, Arrival, crash, ignored, replied, runs}
use y_f_s.Rpc.Server.Dispatch.{arrive, arrive_header, Finish, broken, sent, finish}
use y_f_s.Rpc.Server.Fixed.{Fixed, arrive_header-Fixed, finish-Fixed, finish-Ready}
use y_f_s.Rpc.Server.Windows.{
  Ready, accepted, After, Passive, arrive_known-After, arrive_known-other, arrive_header-refused,
  arrive_header-accepted,
}

-- What happens to the server: a request arrives, or a handler returns.
pub data Event : Type 0 where
  request : ℕ → List ℕ → ℕ → Event
  returned : ReqHeader → ℕ → Marshall → Bool → ℕ → Event

-- The client's xid, where its handler runs, before those of what follows. A crash ends the server.
abbrev pub ran : ℕ → ReqHeader → Arrival → List ℕ → List ℕ
ran clt h crash rest = []
ran clt h ignored rest = rest
ran clt h (replied b) rest = rest
ran clt h (runs f) rest = if h.clt_nonce == clt then h.xid ∷ rest else rest

abbrev pub unless_broken : Finish → List ℕ → List ℕ
unless_broken broken rest = []
unless_broken (sent c b) rest = rest

unfoldable pub executed : (ℕ → ℕ) → (ℕ → ℕ → Bool) → ℕ → List Event → Server → List ℕ
executed junk later clt [] s = []
executed junk later clt (request c b sz ∷ es) s =
    let (h, req) = unpack_req_header (of_buffer b sz) in
    let a = arrive junk later c b sz s in ran clt h a.arrival (executed junk later clt es a.server)
executed junk later clt (returned h ret m dead c ∷ es) s =
    let f = finish h ret m dead c s in unless_broken f.finish (executed junk later clt es f.server)

-- The client's requests, where they reach the window, skip no xid: each is at most one above the
-- highest so far.
abbrev pub counts_for : Server → ℕ → List ℕ → ℕ → Bool
counts_for s0 clt b sz =
    let (h, req) = unpack_req_header (of_buffer b sz) in
    req.good && (accepted s0 h && (h.clt_nonce == clt))

abbrev pub xid_of : List ℕ → ℕ → ℕ
xid_of b sz = (unpack_req_header (of_buffer b sz)).0.xid

abbrev pub Follows : Bool → ℕ → ℕ → Type 0
Follows false hi xid = Unit
Follows true hi xid = (xid ≤ hi + 1) × (xid < 2 ^ 32)

abbrev pub InOrder : Server → ℕ → ℕ → List Event → Type 0
InOrder s0 clt hi [] = Unit
InOrder s0 clt hi (request c b sz ∷ es) =
    Follows (counts_for s0 clt b sz) hi (xid_of b sz)
    × InOrder s0 clt (if counts_for s0 clt b sz then max hi (xid_of b sz) else hi) es
InOrder s0 clt hi (returned h ret m dead c ∷ es) = InOrder s0 clt hi es

-- One request of this client that reaches its window.
ran-Ascending :
    (clt hi : ℕ) (h : ReqHeader) (a : Arrival) (w : List Reply) (rest : List ℕ)
    → (h.clt_nonce == clt) ≡ true
    → After hi h.xid a w
    → ((top : ℕ) → top ≡ max hi h.xid → Ready top w → Ascending (suc top) rest)
    → Ascending (suc hi) (ran clt h a rest)
ran-Ascending clt hi h crash w rest e k later = tt
ran-Ascending clt hi h (runs f) w rest e k later =
    rw e (omega (arith, k.0), later h.xid (omega (arith, k.0)) (rw k.0 k.1))
ran-Ascending clt hi h ignored w rest e k later = later hi (omega (arith, k.0)) k.1
ran-Ascending clt hi h (replied b) w rest e k later = later hi (omega (arith, k.0)) k.1

-- One of another client, and one that does not reach a window.
ran-other :
    (clt lo : ℕ) (h : ReqHeader) (a : Arrival) (rest : List ℕ)
    → (h.clt_nonce == clt) ≡ false
    → Ascending lo rest
    → Ascending lo (ran clt h a rest)
ran-other clt lo h crash rest e k = tt
ran-other clt lo h (runs f) rest e k = rw e k
ran-other clt lo h ignored rest e k = k
ran-other clt lo h (replied b) rest e k = k

ran-Passive :
    (clt lo : ℕ) (h : ReqHeader) (a : Arrival) (rest : List ℕ)
    → Passive a
    → Ascending lo rest
    → Ascending lo (ran clt h a rest)
ran-Passive clt lo h crash rest e k = absurd e
ran-Passive clt lo h (runs f) rest e k = absurd e
ran-Passive clt lo h ignored rest e k = k
ran-Passive clt lo h (replied b) rest e k = k

accepted-Fixed : (s0 s : Server) (h : ReqHeader) → Fixed s0 s → accepted s h ≡ accepted s0 h
accepted-Fixed s0 s h v =
    ground (arith, v.nonce, v.procs, ap (λ (t : Table ℕ). lookup h.proc t) v.procs)

-- What a request leaves for the rest, for a test whether it counts for the client.
request-Ascending :
    (junk : ℕ → ℕ) (later : ℕ → ℕ → Bool) (clt hi c : ℕ) (h : ReqHeader) (s : Server)
    (rest : Server → List ℕ)
    → 0 < clt
    → hi < 2 ^ 32
    → Ready hi (window clt s)
    → let t = accepted s h && (h.clt_nonce == clt) in
      let a = arrive_header junk later h c s in
      Follows t hi h.xid
      → ((top : ℕ)
          → top ≡ (if t then max hi h.xid else hi)
          → Ready top (window clt a.server)
          → Ascending (suc top) (rest a.server))
      → Ascending (suc hi) (ran clt h a.arrival (rest a.server))
request-Ascending junk later clt hi c h s rest p b v = elim (Bool-cases (accepted s h)) [
  | inl e ↦
      let (f, same) = arrive_header-accepted junk h later c s e in
      elim (Bool-cases (h.clt_nonce == clt)) [
        | inl mine ↦
            let q : h.clt_nonce ≡ clt = ground arith in
            rw (e, mine, same)
              (λ fit cont.
                ran-Ascending clt hi h _ _ _ mine
                  (rw (← q)
                    (arrive_known-After junk h later f c hi s (ground arith) fit.0 b (rw q v)))
                  (λ top m r. cont top m r))
        | inr other ↦
            rw (e, other, same)
              (λ fit cont.
                ran-other clt (suc hi) h _ _ other
                  (cont hi refl (rw (arrive_known-other junk h later f c clt s other) v)))
      ]
  | inr e ↦
      let (passive, same) = arrive_header-refused junk h later c s e in
      rw e (λ fit cont. ran-Passive clt (suc hi) h _ _ passive (cont hi refl (rw same v)))
]

unless_broken-Ascending :
    (lo : ℕ) (f : Finish) (rest : List ℕ) → Ascending lo rest → Ascending lo (unless_broken f rest)
unless_broken-Ascending lo broken rest h = tt
unless_broken-Ascending lo (sent c b) rest h = h

arrive-Ascending :
    (junk : ℕ → ℕ) (later : ℕ → ℕ → Bool) (clt hi c sz : ℕ) (bytes : List ℕ) (s : Server)
    (rest : Server → List ℕ)
    → 0 < clt
    → hi < 2 ^ 32
    → Ready hi (window clt s)
    → let t = counts_for s clt bytes sz in
      let a = arrive junk later c bytes sz s in
      Follows t hi (xid_of bytes sz)
      → ((top : ℕ)
          → top ≡ (if t then max hi (xid_of bytes sz) else hi)
          → Ready top (window clt a.server)
          → Ascending (suc top) (rest a.server))
      → Ascending
          (suc hi)
          (ran clt (unpack_req_header (of_buffer bytes sz)).0 a.arrival (rest a.server))
unfolding arrive
arrive-Ascending junk later clt hi c sz bytes s rest p b v =
    let (h, req) = unpack_req_header (of_buffer bytes sz) in
    elim (Bool-cases req.good) [
      | inl good ↦ rw good (request-Ascending junk later clt hi c h s rest p b v)
      | inr bad ↦ rw bad (λ fit cont. cont hi refl v)
    ]

counts_for-Fixed :
    (s0 s : Server) (clt : ℕ) (bytes : List ℕ) (sz : ℕ)
    → Fixed s0 s
    → counts_for s clt bytes sz ≡ counts_for s0 clt bytes sz
counts_for-Fixed s0 s clt bytes sz v =
    let (h, req) = unpack_req_header (of_buffer bytes sz) in
    ap (λ t. req.good && (t && (h.clt_nonce == clt))) (accepted-Fixed s0 s h v)

arrive-Fixed :
    (junk : ℕ → ℕ) (later : ℕ → ℕ → Bool) (c sz : ℕ) (bytes : List ℕ) (s0 s : Server)
    → Fixed s0 s
    → Fixed s0 (arrive junk later c bytes sz s).server
unfolding arrive
arrive-Fixed junk later c sz bytes s0 s v =
    let (h, req) = unpack_req_header (of_buffer bytes sz) in
    elim (Bool-cases req.good) [
      | inl good ↦ rw good (arrive_header-Fixed junk later h c s0 s v)
      | inr bad ↦ rw bad v
    ]

Follows-small :
    (t : Bool) (hi xid : ℕ)
    → hi < 2 ^ 32
    → Follows t hi xid
    → (if t then max hi xid else hi) < 2 ^ 32
Follows-small true hi xid b f = omega arith
Follows-small false hi xid b f = b

module _ (junk : ℕ → ℕ) (later : ℕ → ℕ → Bool) (clt : ℕ) (s0 : Server) (p : 0 < clt) where
  executed-Ascending :
      (es : List Event) (hi : ℕ) (s : Server)
      → Fixed s0 s
      → Ready hi (window clt s)
      → hi < 2 ^ 32
      → InOrder s0 clt hi es
      → Ascending (suc hi) (executed junk later clt es s)
  unfolding executed
  executed-Ascending [] hi s v w b i = tt
  executed-Ascending (returned h ret m dead c ∷ es) hi s v w b i =
      unless_broken-Ascending (suc hi) _ _ (
        executed-Ascending es hi (finish h ret m dead c s).server
          (finish-Fixed h ret m dead c s0 s v) (finish-Ready h ret m dead c clt hi s w) b i)
  executed-Ascending (request c bytes sz ∷ es) hi s v w b i =
      arrive-Ascending junk later clt hi c sz bytes s (executed junk later clt es) p b w
        (rw (counts_for-Fixed s0 s clt bytes sz v) i.0)
        (λ top e r.
          let e0 =
            e
            ∙ ap (λ t. if t then max hi (xid_of bytes sz) else hi)
                (counts_for-Fixed s0 s clt bytes sz v) in
          executed-Ascending es top (arrive junk later c bytes sz s).server
            (arrive-Fixed junk later c sz bytes s0 s v) r
            (rw e0 (Follows-small (counts_for s0 clt bytes sz) hi (xid_of bytes sz) b i.0))
            (rw e0 i.1))

-- In a server that has no window for a client with a nonce other than 0, whatever the messages of
-- all clients are, their order and connections, and the handlers' returns: if the requests of this
-- client that are for this instance and a registered procedure skip no xid, each at most one above
-- the highest before it and below 2 ^ 32, then the handlers run for strictly ascending xids of the
-- client, never twice for one. A crash ends the history.
pub server_at_most_once :
    (junk : ℕ → ℕ) (later : ℕ → ℕ → Bool) (clt : ℕ) (s : Server) (es : List Event)
    → 0 < clt
    → lookup clt s.reply_window ≡ none
    → InOrder s clt 0 es
    → Ascending 1 (executed junk later clt es s)
server_at_most_once junk later clt s es p e i =
    executed-Ascending junk later clt s p es 0 s (record { nonce = refl; procs = refl })
      (rw e started) (omega arith) i
