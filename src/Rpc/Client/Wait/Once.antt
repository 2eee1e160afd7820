-- ===== src/Rpc/Client/Wait/Once.antt =====
-- How often the loop of `rpcc::call1` sends its request where the client does not retransmit: such a
-- client has the nonce 0, for which the server does not look for duplicates.
use y_f_s.Base.{
  ℕ, ◌+◌, ◌≤◌, Bool, true, false, Option, none, some, List, [], ◌∷◌, ◌==◌, if◌then◌else◌,
  Bool-cases, inl, inr, arith,
}
use y_f_s.Rpc.Time.{Timespec}
use y_f_s.Rpc.Client.Wait.{
  Round, Loop, start_loop, transmit_part, next_deadline, back_off, Waited, replied, timed_out,
  waiting, inside, after_wait, wait_part, rounds,
}

abbrev pub loop_of : Waited → Loop
loop_of (replied s) = s
loop_of (timed_out s) = s
loop_of (waiting s) = s
loop_of (inside s) = s

-- The sends so far and the one that is due are `n` at most, and no more forgotten requests went out.
record Within (n : ℕ) (s : Loop) : Type 0 where
  spent : s.sends + (if s.transmit then 1 else 0) ≤ n
  paired : s.forgotten ≤ s.sends

transmit_part-Within : (r : Round) (n : ℕ) (s : Loop) → Within n s → Within n (transmit_part r s)
unfolding transmit_part
transmit_part-Within r n s h = record {
  spent = ground (arith, h.spent);
  paired = ground (arith, h.paired);
}

next_deadline-Within :
    (now : Timespec) (n : ℕ) (s : Loop) → Within n s → Within n (next_deadline now s)
unfolding next_deadline
next_deadline-Within now n s h = record {
  spent = ground (arith, h.spent);
  paired = ground (arith, h.paired);
}

back_off-Within : (dead : Bool) (n : ℕ) (s : Loop) → Within n s → Within n (back_off false dead s)
unfolding back_off
back_off-Within dead n s h = record { spent = h.spent; paired = h.paired }

after_wait-Within :
    (dead : Bool) (later : Loop → Waited) (n : ℕ) (s : Loop) (o : Option Bool)
    → ((u : Loop) → Within n u → Within n (loop_of (later u)))
    → Within n s
    → Within n (loop_of (after_wait false dead later s o))
after_wait-Within dead later n s none k h = h
after_wait-Within dead later n s (some true) k h = h
after_wait-Within dead later n s (some false) k h = k _ (back_off-Within dead n s h)

rounds-Within :
    (rs : List Round) (n : ℕ) (s : Loop) → Within n s → Within n (loop_of (rounds false rs s))
unfolding rounds wait_part
rounds-Within [] n s h = h
rounds-Within (r ∷ rs) n s h =
    let u = transmit_part r s in
    let k = transmit_part-Within r n s h in
    elim (Bool-cases (u.finaldeadline.tv_sec == 0)) [
      | inl e ↦ rw e k
      | inr e ↦ rw e (
          after_wait-Within r.dead (rounds false rs) n _ _ (λ v. rounds-Within rs n v)
            (next_deadline-Within r.now n u k))
    ]

-- In any course of the loop, a client that does not retransmit sends the request of the call at
-- most once, and besides it a forgotten request of an earlier call only along with it.
pub sends_once :
    (junk now : Timespec) (to : ℕ) (rs : List Round)
    → let s = loop_of (rounds false rs (start_loop junk now to)) in
      (s.sends ≤ 1) × (s.forgotten ≤ s.sends)
unfolding start_loop
sends_once junk now to rs =
    let h =
      rounds-Within rs 1 (start_loop junk now to)
        (record { spent = omega arith; paired = omega arith }) in
    (omega (arith, h.spent), h.paired)
