-- ===== src/Rpc/Client/Waiters/Ends.antt =====
-- When the thread in `rpcc::cancel` returns.
use y_f_s.Base.{◌<◌, ◌≤◌, ◌≡◌, inl, inr, true, List, is_empty, ltb, Bool-cases, arith}
use y_f_s.Rpc.Client.{Client}
use y_f_s.Rpc.Client.Waiters.{State, idle, test, run_awake, Move, runs, move, moves}
use y_f_s.Rpc.Client.Waiters.Waits.{cancels, threads, moves-Waits}

-- Where no thread sleeps and the table is empty, a thread that was woken returns when it runs.
last_run :
    (w : State)
    → is_empty w.client.calls ≡ true
    → threads w ≤ 1
    → (0 < w.asleep → ⊥)
    → (run_awake w).returned ≡ threads w
unfolding run_awake test
last_run w e n h = elim (Bool-cases (ltb 0 w.awake)) [
  | inl a ↦ rw (a, e) (ground (arith, h))
  | inr a ↦ rw a (ground (arith, h))
]

-- After any steps of a client's threads among which `cancel` is called at most once: when the table
-- of calls is empty, the thread in `cancel`, if there is one, does not sleep, and has returned once
-- it has run.
pub cancel_returns :
    (c : Client) (ms : List Move)
    → cancels ms ≤ 1
    → is_empty (moves ms (idle c)).client.calls ≡ true
    → ((moves ms (idle c)).asleep ≡ 0) × ((move runs (moves ms (idle c))).returned ≡ cancels ms)
unfolding move
cancel_returns c ms n e =
    let w = moves ms (idle c) in
    let (k, same) = moves-Waits ms (idle c) (omega arith) (λ p. absurd (omega arith)) in
    let asleep : (0 < (moves ms (idle c)).asleep → ⊥) = λ p. ground (arith, (k p).1, e) in
    (ground (arith, asleep), omega (arith, last_run w e (omega (arith, same)) asleep, same))
