-- ===== src/Rpc/Client/Waiters/Waits.antt =====
-- What every step of a client's threads keeps for those that wait in `rpcc::cancel`.
use y_f_s.Base.{
  ℕ, ◌+◌, ◌-◌, ◌<◌, ◌≤◌, ◌≡◌, refl, inl, inr, Bool, true, false, Option, none, some, List, [], ◌∷◌,
  is_empty, if◌then◌else◌, ltb, Table, lookup, insert, Bool-cases, arith,
}
use y_f_s.Rpc.Marshall.{ReplyHeader}
use y_f_s.Rpc.Unmarshall.{Unmarshall, of_buffer, unpack_reply_header}
use y_f_s.Rpc.Client.{
  Caller, new_caller, Client, begin_call, transmit, deliver, deliver_to, got_reply, got_pdu,
  end_call, remember, cancel_all, cancel,
}
use y_f_s.Rpc.Client.Calls.{Event, start, send, pdu, leave, note, cancel_calls, step}
use y_f_s.Rpc.Client.Cancel.{step-shut}
use y_f_s.Rpc.Client.Waiters.{
  State, wake, test, begin_cancel, run_awake, leave_call, act, Move, acts, runs, wakes, move, moves,
}

-- How many times `cancel` is called
abbrev pub is_cancel : Move → ℕ
is_cancel (acts cancel_calls) = 1
is_cancel (acts (leave xid)) = 0
is_cancel (acts (start proc junk un)) = 0
is_cancel (acts (send req)) = 0
is_cancel (acts (pdu b sz)) = 0
is_cancel (acts (note xid xid_rep req ca)) = 0
is_cancel runs = 0
is_cancel wakes = 0

abbrev pub cancels : List Move → ℕ
cancels [] = 0
cancels (m ∷ ms) = is_cancel m + cancels ms

-- The threads in `cancel`, those that have returned included
abbrev pub threads : State → ℕ
threads w = w.asleep + w.awake + w.returned

-- A thread that sleeps has set the flag, and there are calls.
abbrev pub Waits : State → Type 0
Waits w = 0 < w.asleep → (w.client.destroy_wait ≡ true) × (is_empty w.client.calls ≡ false)

insert-is_empty : (x : ℕ) (ca : Caller) (t : Table Caller) → is_empty (insert x ca t) ≡ false
unfolding insert
insert-is_empty x ca [] = refl
insert-is_empty x ca ((y, cb) ∷ t) = ground arith

cancel_all-is_empty : (t : Table Caller) → is_empty (cancel_all t) ≡ is_empty t
unfolding cancel_all
cancel_all-is_empty [] = refl
cancel_all-is_empty ((x, ca) ∷ t) = refl

deliver_to-is_empty :
    (rep : Unmarshall) (h : ReplyHeader) (o : Option Caller) (t : Table Caller)
    → is_empty t ≡ false
    → is_empty (deliver_to rep h o t) ≡ false
deliver_to-is_empty rep h none t e = e
deliver_to-is_empty rep h (some ca) t e = insert-is_empty h.xid (deliver rep h ca) t

step-is_empty :
    (e : Event) (c : Client)
    → is_empty c.calls ≡ false
    → ((xid : ℕ) → (e ≡ leave xid) → ⊥)
    → is_empty (step e c).calls ≡ false
unfolding step begin_call transmit got_pdu got_reply remember cancel
step-is_empty (start proc junk un) c h k =
    ground (arith, h, insert-is_empty c.xid (new_caller junk un) c.calls)
step-is_empty (send req) c h k = ground (arith, h)
step-is_empty (pdu b sz) c h k =
    let (hd, rep) = unpack_reply_header (of_buffer b sz) in
    ground (arith, h, deliver_to-is_empty rep hd (lookup hd.xid c.calls) c.calls h)
step-is_empty (leave xid) c h k = absurd (k xid refl)
step-is_empty (note xid xid_rep req ca) c h k = ground (arith, h)
step-is_empty cancel_calls c h k = rw (cancel_all-is_empty c.calls) h

test-Waits : (w : State) → Waits w → Waits (test w) × (threads (test w) ≡ threads w + 1)
unfolding test
test-Waits w h = elim (Bool-cases (is_empty w.client.calls)) [
  | inl e ↦ rw e (h, omega arith)
  | inr e ↦ rw e (λ p. (refl, e), omega arith)
]

begin_cancel-Waits :
    (w : State) → Waits w → Waits (begin_cancel w) × (threads (begin_cancel w) ≡ threads w + 1)
unfolding begin_cancel cancel step
begin_cancel-Waits w h =
    test-Waits (record w { client = cancel w.client })
      (λ p.
        let (d, e) = h p in
        (
          step-shut cancel_calls w.client d,
          step-is_empty cancel_calls w.client e (λ xid q. ground (arith, q)),
        ))

wake-Waits : (w : State) → Waits w → Waits (wake w) × (threads (wake w) ≡ threads w)
unfolding wake
wake-Waits w h = elim (Bool-cases (ltb 0 w.asleep)) [
  | inl e ↦ rw e (λ p. h (ground arith), ground arith)
  | inr e ↦ rw e (h, refl)
]

run_awake-Waits : (w : State) → Waits w → Waits (run_awake w) × (threads (run_awake w) ≡ threads w)
unfolding run_awake
run_awake-Waits w h = elim (Bool-cases (ltb 0 w.awake)) [
  | inl e ↦
      let (k, n) = test-Waits (record w { awake = w.awake - 1 }) h in rw e (k, ground (arith, n))
  | inr e ↦ rw e (h, refl)
]

-- One thread at most is woken by a signal, if it sleeps.
signalled :
    (b : Bool) (w : State)
    → threads w ≤ 1
    → (0 < w.asleep → b ≡ true)
    → ((if b then wake w else w).asleep ≡ 0) × (threads (if b then wake w else w) ≡ threads w)
unfolding wake
signalled true w n h = elim (Bool-cases (ltb 0 w.asleep)) [
  | inl e ↦ rw e (ground arith, ground arith)
  | inr e ↦ rw e (ground arith, refl)
]
signalled false w n h = (ground (arith, h), refl)

-- The end of a call wakes the one thread that sleeps.
leave_call-Waits :
    (xid : ℕ) (w : State)
    → threads w ≤ 1
    → Waits w
    → Waits (leave_call xid w) × (threads (leave_call xid w) ≡ threads w)
unfolding leave_call end_call
leave_call-Waits xid w n h =
    let r = end_call xid w.client in
    let (awoken, same) = signalled r.0 (record w { client = r.1 }) n (λ p. (h p).0) in
    (λ p. absurd (omega (arith, awoken)), same)

others-Waits :
    (e : Event) (w : State)
    → ((xid : ℕ) → (e ≡ leave xid) → ⊥)
    → Waits w
    → Waits (record w { client = step e w.client })
others-Waits e w k h p = let (d, n) = h p in (step-shut e w.client d, step-is_empty e w.client n k)

act-Waits :
    (e : Event) (w : State)
    → threads w + is_cancel (acts e) ≤ 1
    → Waits w
    → Waits (act e w) × (threads (act e w) ≡ threads w + is_cancel (acts e))
unfolding act
act-Waits cancel_calls w n h = begin_cancel-Waits w h
act-Waits (leave xid) w n h =
    let (k, same) = leave_call-Waits xid w (omega arith) h in (k, omega (arith, same))
act-Waits (start proc junk un) w n h =
    (others-Waits (start proc junk un) w (λ xid q. ground (arith, q)) h, omega arith)
act-Waits (send req) w n h = (others-Waits (send req) w (λ xid q. ground (arith, q)) h, omega arith)
act-Waits (pdu b sz) w n h = (others-Waits (pdu b sz) w (λ xid q. ground (arith, q)) h, omega arith)
act-Waits (note xid xid_rep req ca) w n h =
    (others-Waits (note xid xid_rep req ca) w (λ xid q. ground (arith, q)) h, omega arith)

move-Waits :
    (m : Move) (w : State)
    → threads w + is_cancel m ≤ 1
    → Waits w
    → Waits (move m w) × (threads (move m w) ≡ threads w + is_cancel m)
unfolding move
move-Waits (acts e) w n h = act-Waits e w n h
move-Waits runs w n h = let (k, same) = run_awake-Waits w h in (k, omega (arith, same))
move-Waits wakes w n h = let (k, same) = wake-Waits w h in (k, omega (arith, same))

pub moves-Waits :
    (ms : List Move) (w : State)
    → threads w + cancels ms ≤ 1
    → Waits w
    → Waits (moves ms w) × (threads (moves ms w) ≡ threads w + cancels ms)
unfolding moves
moves-Waits [] w n h = (h, omega arith)
moves-Waits (m ∷ ms) w n h =
    let (k, same) = move-Waits m w (omega arith) h in
    let (k', same') = moves-Waits ms (move m w) (omega (arith, same)) k in
    (k', omega (arith, same, same'))
