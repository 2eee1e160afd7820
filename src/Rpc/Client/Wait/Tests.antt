-- ===== src/Rpc/Client/Wait/Tests.antt =====
-- The loop of a call at work, and the theorems on it at concrete inputs.
use y_f_s.Base.{
  ℕ, zero, suc, ◌+◌, ◌*◌, ◌≤◌, ◌≡◌, refl, ap, true, false, List, [], ◌∷◌, int_ltb, Bool-cases, inl,
  inr, arith,
}
use y_f_s.Rpc.Time.{
  Timespec, nanos, add_timespec, cmp_timespec, cmp_timespec-le, nanos-add_timespec,
}
use y_f_s.Rpc.Client.Wait.{
  Wake, Round, Loop, is_valid, wait_reply, start_loop, transmit_part, next_deadline, back_off,
  rounds,
}
use y_f_s.Rpc.Client.Wait.Ends.{Clocked, HasEnded, EndsAt, call_wait_ends}
use y_f_s.Rpc.Client.Wait.Once.{loop_of, sends_once}

abbrev beginning : Timespec
beginning = record { tv_sec = 100; tv_nsec = 0 }

-- The times read are far behind the deadline. A deadline that can be waited for passes, and otherwise
-- the reply comes in the end.
abbrev late_wakes : List Wake
late_wakes = record { done = false; expired = true } ∷ record { done = true; expired = true } ∷ []

abbrev late : Round
late = record {
  channel = true;
  reachable = true;
  forgot = true;
  now = record { tv_sec = 1_000; tv_nsec = 0 };
  done_first = false;
  wakes = late_wakes;
  dead = true;
}

abbrev repeated : ℕ → List Round
repeated zero = []
repeated (suc n) = late ∷ repeated n

sends_once_example :
    let s = loop_of (rounds false (repeated 3) (start_loop beginning beginning 5_000)) in
    (s.sends ≤ 1) × (s.forgotten ≤ s.sends)
sends_once_example = sends_once beginning beginning 5_000 (repeated 3)

transmit_part-final : (r : Round) (s : Loop) → (transmit_part r s).finaldeadline ≡ s.finaldeadline
unfolding transmit_part
transmit_part-final r s = ground arith

-- No wait goes beyond the final deadline.
next_deadline-early :
    (now : Timespec) (s : Loop)
    → s.finaldeadline.tv_nsec ≤ 1_000_000_000
    → let s' = next_deadline now s in
      (nanos s'.nextdeadline ≤ nanos s.finaldeadline)
      × (nanos s'.finaldeadline ≤ nanos s.finaldeadline)
      × (s'.finaldeadline.tv_nsec ≡ s.finaldeadline.tv_nsec)
unfolding next_deadline
next_deadline-early now s h =
    elim (Bool-cases (int_ltb 0 (cmp_timespec (add_timespec now s.curr_to) s.finaldeadline))) [
      | inl last ↦ rw last (omega arith, omega arith, refl)
      | inr before ↦
          rw before
            (cmp_timespec-le _ _ (nanos-add_timespec now s.curr_to).1 h before, omega arith, refl)
    ]

late-HasEnded : (t : Timespec) → HasEnded (wait_reply t false late_wakes)
unfolding wait_reply
late-HasEnded t = elim (Bool-cases (is_valid t)) [ inl e ↦ rw e tt | inr e ↦ rw e tt ]

repeated-Clocked :
    (n least : ℕ) (s : Loop)
    → least ≤ nanos late.now
    → nanos s.finaldeadline ≤ nanos late.now
    → s.finaldeadline.tv_nsec ≤ 1_000_000_000
    → Clocked true least (repeated n) s
unfolding back_off
repeated-Clocked zero least s l f h = tt
repeated-Clocked (suc n) least s l f h =
    let same = transmit_part-final late s in
    let (next, final, nsec) = next_deadline-early late.now (transmit_part late s) (rw same h) in
    (
      l,
      late-HasEnded _,
      repeated-Clocked n _ _ (omega (arith, next, ap nanos same))
          (omega (arith, final, ap nanos same))
          (omega (arith, nsec, ap (λ (t : Timespec). t.tv_nsec) same)),
    )

deadline :
    (nanos (add_timespec beginning 5_000) ≡ nanos beginning + 5_000 * 1_000_000)
    × ((add_timespec beginning 5_000).tv_nsec ≤ 1_000_000_000)
deadline = nanos-add_timespec beginning 5_000

late-Clocked : Clocked true (nanos beginning) (repeated 23) (start_loop beginning beginning 5_000)
unfolding start_loop
late-Clocked =
    repeated-Clocked 23 (nanos beginning) (start_loop beginning beginning 5_000) (omega arith)
      (omega (arith, deadline.0)) (omega (arith, deadline.1))

call_wait_ends_example :
    EndsAt
      (add_timespec beginning 5_000)
      (rounds true (repeated 23) (start_loop beginning beginning 5_000))
call_wait_ends_example =
    call_wait_ends beginning beginning 5_000 true (repeated 23) (omega arith)
      (omega (arith, deadline.0, deadline.1)) (omega arith) late-Clocked
