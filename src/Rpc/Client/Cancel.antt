-- ===== src/Rpc/Client/Cancel.antt =====
-- `rpcc::cancel` and the calls that it ends.
use mathlib.Core.Option
use y_f_s.Base.{
  ℕ, Bool, ◌≡◌, refl, ◌∙◌, sym, true, false, ◌||◌, not, none, some, List, [], ◌∷◌, ◌==◌,
  if◌then◌else◌, is_empty, Table, lookup, lookup-erase, Option-cases, inl, inr, arith,
}
use y_f_s.Rpc.Marshall.{ReplyHeader}
use y_f_s.Rpc.Unmarshall.{Unmarshall, of_buffer, unpack_reply_header}
use y_f_s.Rpc.Client.{
  Caller, Client, Begun, refused, sent, begin_call, transmit, deliver, got_reply, got_pdu, end_call,
  remember, cancelled, cancel_all, cancel, cancel_failure,
}
use y_f_s.Rpc.Client.Calls.{
  Event, start, send, pdu, leave, note, cancel_calls, step, run, lookup-cancel_all,
  lookup-deliver_to, map-some,
}

-- No call can begin, and each that is left has been cancelled.
record Drains (c : Client) : Type 0 where
  shut : c.destroy_wait ≡ true
  ended :
      (x : ℕ) (ca : Caller)
      → lookup x c.calls ≡ some ca
      → (ca.done ≡ true) × (ca.ret ≡ cancel_failure)

abbrev pub Refused : Begun → Type 0
Refused (refused ret) = Unit
Refused (sent h c) = ⊥

shut-Refused :
    (proc junk : ℕ) (un : Unmarshall) (c : Client)
    → c.destroy_wait ≡ true
    → Refused (begin_call proc junk un c) × (step (start proc junk un) c ≡ c)
unfolding begin_call step
shut-Refused proc junk un c e = ground arith

cancel-Drains : (c : Client) → is_empty c.calls ≡ false → Drains (step cancel_calls c)
unfolding step cancel cancelled cancel_all
cancel-Drains c e = record {
  shut = shut c.calls e;
  ended = λ x ca h.
      let (ca0, e0, f) = map-some cancelled _ ca (sym (lookup-cancel_all x c.calls) ∙ h) in
      ground arith;
}
  where
    shut :
        (calls : Table Caller)
        → is_empty calls ≡ false
        → (c.destroy_wait || not (is_empty (cancel_all calls))) ≡ true
    shut [] h = cc
    shut ((x, ca) ∷ others) h = ground arith

-- The steps that end the call with xid `x`.
abbrev pub ends : ℕ → Event → Bool
ends x (leave xid) = xid == x
ends x (start proc junk un) = false
ends x (send req) = false
ends x (pdu b sz) = false
ends x (note xid xid_rep req ca) = false
ends x cancel_calls = false

abbrev pub left : ℕ → List Event → Bool
left x [] = false
left x (e ∷ es) = ends x e || left x es

reply_ignored :
    (x : ℕ) (rep : Unmarshall) (h : ReplyHeader) (c : Client)
    → Drains c
    → lookup x (got_reply rep h c).calls ≡ lookup x c.calls
unfolding got_reply deliver
reply_ignored x rep h c d =
    lookup-deliver_to x rep h c.calls ∙ elim (Option-cases (lookup x c.calls)) [
      | inl e ↦ rw e
      | inr (ca, e) ↦ rw e (ground (arith, d.ended x ca e))
    ]

cancel_ignored : (x : ℕ) (c : Client) → Drains c → lookup x (cancel_all c.calls) ≡ lookup x c.calls
unfolding cancelled
cancel_ignored x c d = lookup-cancel_all x c.calls ∙ elim (Option-cases (lookup x c.calls)) [
  | inl e ↦ rw e
  | inr (ca, e) ↦ rw e (ground (arith, d.ended x ca e))
]

lookup-step :
    (x : ℕ) (e : Event) (c : Client)
    → Drains c
    → lookup x (step e c).calls ≡ (if ends x e then none else lookup x c.calls)
unfolding step transmit got_pdu end_call remember cancel
lookup-step x (start proc junk un) c d = rw (shut-Refused proc junk un c d.shut).1
lookup-step x (send req) c d = ground arith
lookup-step x (pdu b sz) c d =
    let (h, rep) = unpack_reply_header (of_buffer b sz) in ground (arith, reply_ignored x rep h c d)
lookup-step x (leave xid) c d = lookup-erase xid x c.calls
lookup-step x (note xid xid_rep req ca) c d = ground arith
lookup-step x cancel_calls c d = cancel_ignored x c d

pub step-shut : (e : Event) (c : Client) → c.destroy_wait ≡ true → (step e c).destroy_wait ≡ true
unfolding step begin_call transmit got_pdu got_reply end_call remember cancel
step-shut (start proc junk un) c h = ground (arith, h)
step-shut (send req) c h = ground (arith, h)
step-shut (pdu b sz) c h = ground (arith, h)
step-shut (leave xid) c h = h
step-shut (note xid xid_rep req ca) c h = ground (arith, h)
step-shut cancel_calls c h = ground (arith, h)

step-Drains : (e : Event) (c : Client) → Drains c → Drains (step e c)
step-Drains e c d = record {
  shut = step-shut e c d.shut;
  ended = λ x ca h. ground (arith, lookup-step x e c d, d.ended x ca);
}

run-Drains :
    (es : List Event) (c : Client)
    → Drains c
    → Drains (run es c)
      × ((x : ℕ) → lookup x (run es c).calls ≡ (if left x es then none else lookup x c.calls))
unfolding run
run-Drains [] c d = (d, λ x. refl)
run-Drains (e ∷ es) c d =
    let (later, same) = run-Drains es (step e c) (step-Drains e c d) in
    (later, λ x. same x ∙ ground (arith, lookup-step x e c d))

lookup-cancelled :
    (x : ℕ) (c : Client)
    → lookup x (step cancel_calls c).calls ≡ Option.map cancelled (lookup x c.calls)
unfolding step cancel
lookup-cancelled x c = lookup-cancel_all x c.calls

-- A cancellation of a client with calls in its table, followed by any steps, leaves a client that
-- refuses every new call, and whose calls are those that were in the table and have not ended
-- since, each cancelled, whatever replies have come.
pub cancel_ends_calls :
    (c : Client) (es : List Event)
    → is_empty c.calls ≡ false
    → let c' = run es (step cancel_calls c) in
      ((proc junk : ℕ) (un : Unmarshall) → Refused (begin_call proc junk un c'))
      × ((x : ℕ)
          → lookup x c'.calls
            ≡ (if left x es then none else Option.map cancelled (lookup x c.calls)))
cancel_ends_calls c es e =
    let d0 = cancel-Drains c e in
    let (d, same) = run-Drains es (step cancel_calls c) d0 in
    (
      λ proc junk un. (shut-Refused proc junk un _ d.shut).0,
      λ x. same x ∙ rw (lookup-cancelled x c),
    )
