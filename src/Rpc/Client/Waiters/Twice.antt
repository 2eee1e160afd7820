-- ===== src/Rpc/Client/Waiters/Twice.antt =====
-- Two threads in `rpcc::cancel` and the one signal for them.
use y_f_s.Base.{ℕ, ◌-◌, ◌≤◌, ◌≡◌, refl, true, List, [], ◌∷◌, is_empty, erase, ==_refl, arith}
use y_f_s.Rpc.Client.{Caller, Client, end_call, cancel_all, cancel}
use y_f_s.Rpc.Client.Calls.{Event, start, send, pdu, leave, note, cancel_calls}
use y_f_s.Rpc.Client.Waiters.{
  State, idle, wake, test, begin_cancel, run_awake, leave_call, act, Move, acts, runs, wakes, move,
  moves,
}

-- A thread runs, or a client's thread takes a step that is not the end of a call.
abbrev pub NotLeave : Event → Type 0
NotLeave (leave xid) = ⊥
NotLeave (start proc junk un) = Unit
NotLeave (send req) = Unit
NotLeave (pdu b sz) = Unit
NotLeave (note xid xid_rep req ca) = Unit
NotLeave cancel_calls = Unit

abbrev pub NoSignal : List Move → Type 0
NoSignal [] = Unit
NoSignal (acts e ∷ ms) = NotLeave e × NoSignal ms
NoSignal (runs ∷ ms) = NoSignal ms
NoSignal (wakes ∷ ms) = ⊥

test-asleep : (w : State) → w.asleep ≤ (test w).asleep
unfolding test
test-asleep w = ground arith

run_awake-asleep : (w : State) → w.asleep ≤ (run_awake w).asleep
unfolding run_awake
run_awake-asleep w = ground (arith, test-asleep (record w { awake = w.awake - 1 }))

act-asleep : (e : Event) (w : State) → NotLeave e → w.asleep ≤ (act e w).asleep
unfolding act begin_cancel
act-asleep cancel_calls w h = test-asleep (record w { client = cancel w.client })
act-asleep (leave xid) w h = absurd h
act-asleep (start proc junk un) w h = omega arith
act-asleep (send req) w h = omega arith
act-asleep (pdu b sz) w h = omega arith
act-asleep (note xid xid_rep req ca) w h = omega arith

moves-asleep : (ms : List Move) (w : State) → NoSignal ms → w.asleep ≤ (moves ms w).asleep
unfolding moves move
moves-asleep [] w h = omega arith
moves-asleep (acts e ∷ ms) w h = omega (arith, act-asleep e w h.0, moves-asleep ms (act e w) h.1)
moves-asleep (runs ∷ ms) w h = omega (arith, run_awake-asleep w, moves-asleep ms (run_awake w) h)
moves-asleep (wakes ∷ ms) w h = absurd h

-- Two threads cancel a client with one call, the call ends, and the woken thread runs.
abbrev pub two_cancels : ℕ → List Move
two_cancels x = acts cancel_calls ∷ acts cancel_calls ∷ acts (leave x) ∷ runs ∷ []

after_two-cancels :
    (c : Client) (x : ℕ) (ca : Caller)
    → let w = moves (two_cancels x) (idle (record c { calls = (x, ca) ∷ [] })) in
      (is_empty w.client.calls ≡ true) × (w.returned ≡ 1) × (w.asleep ≡ 1)
unfolding moves move act begin_cancel leave_call run_awake test wake end_call cancel cancel_all
    erase
after_two-cancels c x ca = rw ==_refl (refl, refl, refl)

-- In a client with one call, when two threads have called `cancel`, the call has ended and a woken
-- thread has run, the table is empty and one `cancel` has returned, but the other sleeps, and it
-- sleeps on over any further steps but the end of a call and a wake without a reason.
pub second_cancel_sleeps :
    (c : Client) (x : ℕ) (ca : Caller) (ms : List Move)
    → NoSignal ms
    → let w = moves (two_cancels x) (idle (record c { calls = (x, ca) ∷ [] })) in
      (is_empty w.client.calls ≡ true) × (w.returned ≡ 1) × (1 ≤ (moves ms w).asleep)
second_cancel_sleeps c x ca ms q =
    let w = moves (two_cancels x) (idle (record c { calls = (x, ca) ∷ [] })) in
    let (e, r, a) = after_two-cancels c x ca in (e, r, omega (arith, a, moves-asleep ms w q))
