-- ===== src/Rpc/Client/Calls.antt =====
-- The steps that the threads of a client take, in any order, and what they do to its table of
-- calls.
use y_f_s.Base.{
  ℕ, ◌+◌, ◌^◌, ◌<◌, ◌≤◌, ◌≡◌, refl, Option, none, some, List, [], ◌∷◌, ◌==◌, if◌then◌else◌, Table,
  lookup, insert, lookup-insert, Option-cases, Bool-cases, ==_refl, ◌∙◌, ◌⊎◌, inl, inr, arith,
}
use mathlib.Core.Option
use y_f_s.Rpc.Marshall.{ReqHeader, ReplyHeader}
use y_f_s.Rpc.Unmarshall.{Unmarshall}
use y_f_s.Rpc.XidWindow.{u32}
use y_f_s.Rpc.Client.{
  Caller, Client, new_caller, Begun, refused, sent, begin_call, call_header, transmit, deliver,
  deliver_to, got_reply, got_pdu, end_call, remember, cancelled, cancel_all, cancel,
}

-- A thread enters `call1`, transmits, or leaves it; a message arrives; `cancel` runs.
pub data Event : Type 0 where
  start : ℕ → ℕ → Unmarshall → Event
  send : List ℕ → Event
  pdu : List ℕ → ℕ → Event
  leave : ℕ → Event
  note : ℕ → ℕ → List ℕ → Caller → Event
  cancel_calls : Event

abbrev pub begun : Begun → Client → Client
begun (refused ret) c = c
begun (sent h c') c = c'

unfoldable pub step : Event → Client → Client
step (start proc junk un) c = begun (begin_call proc junk un c) c
step (send req) c = (transmit req c).1
step (pdu b sz) c = got_pdu b sz c
step (leave xid) c = (end_call xid c).1
step (note xid xid_rep req ca) c = remember xid xid_rep req ca c
step cancel_calls c = cancel c

unfoldable pub run : List Event → Client → Client
run [] c = c
run (e ∷ es) c = run es (step e c)

pub lookup-cancel_all :
    (x : ℕ) (calls : Table Caller)
    → lookup x (cancel_all calls) ≡ Option.map cancelled (lookup x calls)
unfolding lookup cancel_all
lookup-cancel_all x [] = refl
lookup-cancel_all x ((i, ca) ∷ others) = ground (arith, lookup-cancel_all x others)

unmapped : (o : Option Caller) → o ≡ Option.map (λ ca. ca) o
unmapped none = refl
unmapped (some ca) = refl

pub lookup-deliver_to :
    (x : ℕ) (rep : Unmarshall) (h : ReplyHeader) (calls : Table Caller)
    → lookup x (deliver_to rep h (lookup h.xid calls) calls)
      ≡ Option.map (λ ca. if h.xid == x then deliver rep h ca else ca) (lookup x calls)
lookup-deliver_to x rep h calls = elim (Bool-cases (h.xid == x)) [
  | inl same ↦
      let e : h.xid ≡ x = ground arith in
      rw (← e) (rw (==_refl h.xid) (to_itself (lookup h.xid calls) refl))
  | inr other ↦ rw other (elim (Option-cases (lookup h.xid calls)) [
    | inl gone ↦ rw (gone, deliver_to) (unmapped (lookup x calls))
    | inr (ca, e) ↦
        rw (e, deliver_to)
          (lookup-insert h.xid x (deliver rep h ca) calls ∙ rw other (unmapped (lookup x calls)))
  ])
]
  where
    to_itself :
        (o : Option Caller)
        → lookup h.xid calls ≡ o
        → lookup h.xid (deliver_to rep h o calls) ≡ Option.map (deliver rep h) o
    to_itself none e = e
    to_itself (some ca) e = lookup-insert h.xid h.xid (deliver rep h ca) calls ∙ rw ==_refl

-- What a start can do.
abbrev pub entered : ℕ → Unmarshall → Client → Client
entered junk un c = record c {
  xid = u32 (c.xid + 1);
  calls = insert c.xid (new_caller junk un) c.calls;
}

pub start_moves :
    (proc junk : ℕ) (un : Unmarshall) (c : Client)
    → (step (start proc junk un) c ≡ c) ⊎ (step (start proc junk un) c ≡ entered junk un c)
unfolding step begin_call
start_moves proc junk un c = ground arith

-- What a call that is not refused does.
pub begin_call_sent :
    (proc junk : ℕ) (un : Unmarshall) (c : Client) (h : ReqHeader) (c' : Client)
    → begin_call proc junk un c ≡ sent h c'
    → (h ≡ call_header proc c) × (c' ≡ entered junk un c)
unfolding begin_call
begin_call_sent proc junk un c h c' e = ground arith

-- Each step raises the xid by one at most.
pub step-xid : (e : Event) (c : Client) → c.xid + 1 < 2 ^ 32 → (step e c).xid ≤ c.xid + 1
unfolding step begin_call transmit got_pdu got_reply end_call remember cancel
step-xid (start proc junk un) c b = ground arith
step-xid (send req) c b = ground arith
step-xid (pdu bytes sz) c b = ground arith
step-xid (leave xid) c b = ground arith
step-xid (note xid xid_rep req ca) c b = ground arith
step-xid cancel_calls c b = ground arith

pub map-some :
    (f : Caller → Caller) (o : Option Caller) (ca : Caller)
    → Option.map f o ≡ some ca
    → (ca0 : Caller) × (o ≡ some ca0) × (f ca0 ≡ ca)
map-some f none ca e = cc
map-some f (some ca0) ca e = (ca0, refl, cc)
