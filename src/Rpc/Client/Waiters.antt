-- ===== src/Rpc/Client/Waiters.antt =====
-- The threads that wait in `rpcc::cancel` for the calls to end, and the signal at the end of a call.
pub mod Waits
pub mod Ends
pub mod Twice
mod Tests
use y_f_s.Base.{
  ℕ, ◌+◌, ◌-◌, Bool, true, false, not, ◌&&◌, List, [], ◌∷◌, is_empty, if◌then◌else◌, ltb,
}
use y_f_s.Rpc.Client.{Client, end_call, cancel, cancel_waits}
use y_f_s.Rpc.Client.Calls.{Event, start, send, pdu, leave, note, cancel_calls, step}

-- How many threads of `cancel` sleep on `destroy_wait_c_`, were woken but have not run, and have
-- returned.
pub record State : Type 0 where
  pub client : Client
  pub asleep : ℕ
  pub awake : ℕ
  pub returned : ℕ

abbrev pub idle : Client → State
idle c = record { client = c; asleep = 0; awake = 0; returned = 0 }

-- A thread is woken, if one sleeps: by the signal, or for no reason.
pub wake : State → State
wake w = if ltb 0 w.asleep then record w { asleep = w.asleep - 1; awake = w.awake + 1 } else w

-- The test of the loop in `cancel`: the thread sets the flag and sleeps, or returns.
pub test : State → State
test w =
    if cancel_waits w.client
    then record w { client = record w.client { destroy_wait = true }; asleep = w.asleep + 1 }
    else record w { returned = w.returned + 1 }

-- The first half of `cancel`, up to its loop, and its first test
pub begin_cancel : State → State
unfolding test
begin_cancel w = test (record w { client = cancel w.client })

-- A woken thread runs.
pub run_awake : State → State
unfolding test
run_awake w = if ltb 0 w.awake then test (record w { awake = w.awake - 1 }) else w

-- The end of a call, with its signal
pub leave_call : ℕ → State → State
unfolding wake
leave_call xid w =
    let r = end_call xid w.client in
    let w' = record w { client = r.1 } in if r.0 then wake w' else w'

pub act : Event → State → State
unfolding begin_cancel leave_call
act cancel_calls w = begin_cancel w
act (leave xid) w = leave_call xid w
act (start proc junk un) w = record w { client = step (start proc junk un) w.client }
act (send req) w = record w { client = step (send req) w.client }
act (pdu b sz) w = record w { client = step (pdu b sz) w.client }
act (note xid xid_rep req ca) w = record w { client = step (note xid xid_rep req ca) w.client }

-- A thread's step; a woken thread runs; or a thread is woken for no reason.
pub data Move : Type 0 where
  acts : (e : Event) → Move
  runs wakes : Move

unfoldable pub move : Move → State → State
move (acts e) w = act e w
move runs w = run_awake w
move wakes w = wake w

unfoldable pub moves : List Move → State → State
moves [] w = w
moves (m ∷ ms) w = moves ms (move m w)
