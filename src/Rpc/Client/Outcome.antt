-- ===== src/Rpc/Client/Outcome.antt =====
-- What `call1` returns, as a function of the messages and cancellations that come while the call is
-- in the table, oldest first.
use y_f_s.Base.{
  ℕ, ◌+◌, ◌^◌, ◌<◌, ◌≡◌, ◌≢◌, refl, ap, ◌∙◌, ◌&&◌, Option, none, some, List, [], ◌∷◌, ◌==◌,
  if◌then◌else◌, length, lookup, lookup-insert, lookup-erase, Bool-cases, inl, inr, arith,
}
use y_f_s.Rpc.Marshall.{ReqHeader, ReplyHeader}
use y_f_s.Rpc.Unmarshall.{Unmarshall, take_in, of_buffer, unpack_reply_header}
use y_f_s.Rpc.Client.{
  Caller, Client, new_caller, sent, begin_call, transmit, deliver, got_reply, got_pdu, end_call,
  remember, cancelled, cancel, call_result, cancel_failure, timeout_failure,
}
use y_f_s.Rpc.Client.Calls.{
  Event, start, send, pdu, leave, note, cancel_calls, step, run, lookup-cancel_all,
  lookup-deliver_to, entered, start_moves, step-xid, begin_call_sent,
}

-- The specification: the result so far, `none` while there is none, and the reply's content. The
-- first message that is a reply to the call counts, and a cancellation overrules its result.
pub record Answer : Type 0 where
  pub ret : Option ℕ
  pub un : Unmarshall

abbrev pub reply_heard : Unmarshall → ReplyHeader → Answer → Option ℕ → Answer
reply_heard rep h a none = record { ret = some h.ret; un = take_in rep }
reply_heard rep h a (some r) = a

abbrev pub hear : ℕ → Event → Answer → Answer
hear x (pdu b sz) a =
    let (h, rep) = unpack_reply_header (of_buffer b sz) in
    if rep.good && (h.xid == x) then reply_heard rep h a a.ret else a
hear x cancel_calls a = record a { ret = some cancel_failure }
hear x (start proc junk un) a = a
hear x (send req) a = a
hear x (leave xid) a = a
hear x (note xid xid_rep req ca) a = a

abbrev pub hear_all : ℕ → List Event → Answer → Answer
hear_all x [] a = a
hear_all x (e ∷ es) a = hear_all x es (hear x e a)

abbrev pub answer_result : Option ℕ → ℕ
answer_result none = timeout_failure
answer_result (some r) = r

-- The call does not end in these steps.
abbrev pub Stays : ℕ → List Event → Type 0
Stays x [] = Unit
Stays x (leave xid ∷ es) = (xid ≢ x) × Stays x es
Stays x (start proc junk un ∷ es) = Stays x es
Stays x (send req ∷ es) = Stays x es
Stays x (pdu b sz ∷ es) = Stays x es
Stays x (note xid xid_rep req ca ∷ es) = Stays x es
Stays x (cancel_calls ∷ es) = Stays x es

-- The caller at `x` stands for the answer.
abbrev answer_of : Caller → Answer
answer_of ca = record { ret = if ca.done then some ca.ret else none; un = ca.un }

record Stands (x : ℕ) (a : Answer) (c : Client) : Type 0 where
  ca : Caller
  found : lookup x c.calls ≡ some ca
  same : answer_of ca ≡ a
  below : x < c.xid

entered-Stands :
    (x junk : ℕ) (un : Unmarshall) (a : Answer) (c : Client)
    → c.xid + 1 < 2 ^ 32
    → Stands x a c
    → Stands x a (entered junk un c)
entered-Stands x junk un a c b s = record {
  ca = s.ca;
  found = lookup-insert c.xid x (new_caller junk un) c.calls ∙ ground (arith, s.found, s.below);
  same = s.same;
  below = omega (arith, s.below);
}

start-Stands :
    (x proc junk : ℕ) (un : Unmarshall) (a : Answer) (c : Client)
    → c.xid + 1 < 2 ^ 32
    → Stands x a c
    → Stands x a (step (start proc junk un) c)
start-Stands x proc junk un a c b s = elim (start_moves proc junk un c) [
  | inl e ↦ rw e s
  | inr e ↦ rw e (entered-Stands x junk un a c b s)
]

delivered-answer :
    (rep : Unmarshall) (h : ReplyHeader) (ca : Caller)
    → answer_of (deliver rep h ca) ≡ reply_heard rep h (answer_of ca) (answer_of ca).ret
unfolding deliver
delivered-answer rep h ca = elim (Bool-cases ca.done) [ inl e ↦ rw e | inr e ↦ rw e ]

reply-Stands :
    (x : ℕ) (rep : Unmarshall) (h : ReplyHeader) (a : Answer) (c : Client)
    → Stands x a c
    → Stands x (if h.xid == x then reply_heard rep h a a.ret else a) (got_reply rep h c)
unfolding got_reply
reply-Stands x rep h a c s = record {
  ca = if h.xid == x then deliver rep h s.ca else s.ca;
  found = lookup-deliver_to x rep h c.calls ∙ rw s.found;
  same = elim (Bool-cases (h.xid == x)) [
    | inl e ↦
        rw e (delivered-answer rep h s.ca ∙ ap (λ (z : Answer). reply_heard rep h z z.ret) s.same)
    | inr e ↦ rw e s.same
  ];
  below = s.below;
}

pdu-Stands :
    (x sz : ℕ) (b : List ℕ) (a : Answer) (c : Client)
    → Stands x a c
    → Stands x (hear x (pdu b sz) a) (step (pdu b sz) c)
unfolding step got_pdu
pdu-Stands x sz b a c s =
    let (h, rep) = unpack_reply_header (of_buffer b sz) in
    elim (Bool-cases rep.good) [ inl e ↦ rw e (reply-Stands x rep h a c s) | inr e ↦ rw e s ]

cancel-Stands :
    (x : ℕ) (a : Answer) (c : Client)
    → Stands x a c
    → Stands x (hear x cancel_calls a) (step cancel_calls c)
unfolding step cancel cancelled
cancel-Stands x a c s = record {
  ca = cancelled s.ca;
  found = lookup-cancel_all x c.calls ∙ rw s.found;
  same = ground (arith, s.same);
  below = s.below;
}

leave-Stands :
    (x xid : ℕ) (a : Answer) (c : Client) → xid ≢ x → Stands x a c → Stands x a (step (leave xid) c)
unfolding step end_call
leave-Stands x xid a c n s = record {
  ca = s.ca;
  found = lookup-erase xid x c.calls ∙ ground (arith, s.found);
  same = s.same;
  below = s.below;
}

send-Stands :
    (x : ℕ) (req : List ℕ) (a : Answer) (c : Client) → Stands x a c → Stands x a (step (send req) c)
unfolding step transmit
send-Stands x req a c s = record {
  ca = s.ca;
  found = ground (arith, s.found);
  same = s.same;
  below = ground (arith, s.below);
}

note-Stands :
    (x xid xid_rep : ℕ) (req : List ℕ) (ca : Caller) (a : Answer) (c : Client)
    → Stands x a c
    → Stands x a (step (note xid xid_rep req ca) c)
unfolding step remember
note-Stands x xid xid_rep req ca a c s = record {
  ca = s.ca;
  found = ground (arith, s.found);
  same = s.same;
  below = ground (arith, s.below);
}

run-Stands :
    (x : ℕ) (es : List Event) (a : Answer) (c : Client)
    → Stays x es
    → c.xid + length es < 2 ^ 32
    → Stands x a c
    → Stands x (hear_all x es a) (run es c)
unfolding run
run-Stands x [] a c t b s = s
run-Stands x (start proc junk un ∷ es) a c t b s =
    run-Stands x es _ _ t (omega (arith, step-xid (start proc junk un) c))
      (start-Stands x proc junk un a c (omega arith) s)
run-Stands x (send req ∷ es) a c t b s =
    run-Stands x es _ _ t (omega (arith, step-xid (send req) c)) (send-Stands x req a c s)
run-Stands x (pdu bytes sz ∷ es) a c t b s =
    run-Stands x es _ _ t (omega (arith, step-xid (pdu bytes sz) c)) (pdu-Stands x sz bytes a c s)
run-Stands x (leave xid ∷ es) a c t b s =
    run-Stands x es _ _ t.1 (omega (arith, step-xid (leave xid) c)) (leave-Stands x xid a c t.0 s)
run-Stands x (note xid xid_rep req ca ∷ es) a c t b s =
    run-Stands x es _ _ t (omega (arith, step-xid (note xid xid_rep req ca) c))
      (note-Stands x xid xid_rep req ca a c s)
run-Stands x (cancel_calls ∷ es) a c t b s =
    run-Stands x es _ _ t (omega (arith, step-xid cancel_calls c)) (cancel-Stands x a c s)

entered-Stands_self :
    (junk : ℕ) (un : Unmarshall) (c : Client)
    → c.xid + 1 < 2 ^ 32
    → Stands c.xid (record { ret = none; un = un }) (entered junk un c)
entered-Stands_self junk un c b = record {
  ca = new_caller junk un;
  found = lookup-insert c.xid c.xid (new_caller junk un) c.calls ∙ ground arith;
  same = refl;
  below = omega arith;
}

call_result-answer_of : (ca : Caller) → call_result ca ≡ answer_result (answer_of ca).ret
unfolding call_result
call_result-answer_of ca = elim (Bool-cases ca.done) [ inl e ↦ rw e | inr e ↦ rw e ]

result-Stands :
    (x : ℕ) (a : Answer) (c : Client)
    → Stands x a c
    → (ca : Caller) × (lookup x c.calls ≡ some ca)
      × (call_result ca ≡ answer_result a.ret)
      × (ca.un ≡ a.un)
result-Stands x a c s = (
  s.ca,
  s.found,
  call_result-answer_of s.ca ∙ ap (λ (z : Answer). answer_result z.ret) s.same,
  ap (λ (z : Answer). z.un) s.same,
)

-- A call that is begun and not refused, and whose thread stays in `call1` during any steps of the
-- client, fewer than its xid counter has left before it wraps, is in the table after them, and what
-- it then returns and the reply that it then holds are those of the specification: the first
-- message with a readable reply header and the call's xid gives both, unless a cancellation comes,
-- which makes the result `cancel_failure`; without either the result is `timeout_failure`.
pub call_outcome :
    (proc junk : ℕ) (un : Unmarshall) (c c' : Client) (h : ReqHeader) (es : List Event)
    → begin_call proc junk un c ≡ sent h c'
    → c.xid + 1 + length es < 2 ^ 32
    → Stays h.xid es
    → let a = hear_all h.xid es (record { ret = none; un = un }) in
      (ca : Caller) × (lookup h.xid (run es c').calls ≡ some ca)
      × (call_result ca ≡ answer_result a.ret)
      × (ca.un ≡ a.un)
call_outcome proc junk un c c' h es e b t =
    let (eh, ec) = begin_call_sent proc junk un c h c' e in
    let n : h.xid ≡ c.xid = ap (λ (k : ReqHeader). k.xid) eh in
    rw (n, ec)
      (result-Stands c.xid _ _ (
        run-Stands c.xid es _ (entered junk un c) (rw n at t) (omega arith)
          (entered-Stands_self junk un c (omega arith))))
