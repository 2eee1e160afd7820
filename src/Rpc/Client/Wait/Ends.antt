-- ===== src/Rpc/Client/Wait/Ends.antt =====
-- The loop of `rpcc::call1` ends, and it does not give up early.
use y_f_s.Base.{
  ℕ, zero, suc, ◌+◌, ◌*◌, ◌^◌, ◌<◌, ◌≤◌, ◌≡◌, ◌⊎◌, refl, ap, ◌∙◌, inl, inr, Bool, true, false,
  Option, none, some, List, [], ◌∷◌, ◌==◌, Bool-cases, length, int_ltb, arith,
}
use y_f_s.Rpc.Time.{
  Timespec, nanos, cmp_timespec, add_timespec, nanos-add_timespec, cmp_timespec-le,
}
use y_f_s.Rpc.Client.Wait.{
  Round, Loop, start_loop, transmit_part, next_deadline, back_off, Waited, replied, timed_out,
  waiting, inside, wait_reply, after_wait, wait_part, rounds,
}

-- A loop of waits has ended.
abbrev pub HasEnded : Option Bool → Type 0
HasEnded none = ⊥
HasEnded (some b) = Unit

-- Each round's waits end, the clock does not run backwards, and a wait that times out ends at its
-- deadline or later: each time read, as nanoseconds, is at least `least`, which is the deadline
-- before it.
abbrev pub Clocked : Bool → ℕ → List Round → Loop → Type 0
Clocked retrans least [] s = Unit
Clocked retrans least (r ∷ rs) s =
    let s2 = next_deadline r.now (transmit_part r s) in
    (least ≤ nanos r.now)
    × HasEnded (wait_reply s2.nextdeadline r.done_first r.wakes)
    × Clocked retrans (nanos s2.nextdeadline) rs (back_off retrans r.dead s2)

-- The loop has ended, and if it timed out, then after a wait up to the final deadline.
abbrev pub EndsAt : Timespec → Waited → Type 0
EndsAt final (replied s) = Unit
EndsAt final (timed_out s) = s.nextdeadline ≡ final
EndsAt final (waiting s) = ⊥
EndsAt final (inside s) = ⊥

-- `curr_to`, doubled n times.
abbrev doubled : ℕ → ℕ → ℕ
doubled zero t = t
doubled (suc n) t = doubled n (t * 2)

-- After the last wait the next round ends the loop.
last-EndsAt :
    (retrans : Bool) (final : Timespec) (rs : List Round) (s : Loop)
    → s.finaldeadline.tv_sec ≡ 0
    → s.nextdeadline ≡ final
    → 1 ≤ length rs
    → EndsAt final (rounds retrans rs s)
unfolding rounds wait_part transmit_part
last-EndsAt retrans final [] s e f h = absurd (omega arith)
last-EndsAt retrans final (r ∷ rs) s e f h = ground arith

-- The two ways of a deadline: the final one, or an earlier one.
deadline-cases :
    (now : Timespec) (s : Loop)
    → s.finaldeadline.tv_nsec ≤ 1_000_000_000
    → ((next_deadline now s).finaldeadline.tv_sec ≡ 0)
        × ((next_deadline now s).nextdeadline ≡ s.finaldeadline)
        × ((next_deadline now s).finaldeadline.tv_nsec ≡ s.finaldeadline.tv_nsec)
      ⊎ ((next_deadline now s).finaldeadline ≡ s.finaldeadline)
        × (nanos (next_deadline now s).nextdeadline ≡ nanos now + s.curr_to * 1_000_000)
        × (nanos now + s.curr_to * 1_000_000 ≤ nanos s.finaldeadline)
unfolding next_deadline
deadline-cases now s h =
    elim (Bool-cases (int_ltb 0 (cmp_timespec (add_timespec now s.curr_to) s.finaldeadline))) [
      | inl late ↦ inl (rw late, rw late, rw late)
      | inr soon ↦
          let (exact, full) = nanos-add_timespec now s.curr_to in
          inr (rw soon, rw soon exact, rw (← exact) (cmp_timespec-le _ _ full h soon))
    ]

after_wait-EndsAt :
    (retrans dead : Bool) (final : Timespec) (later : Loop → Waited) (s : Loop) (o : Option Bool)
    → HasEnded o
    → EndsAt final (later (back_off retrans dead s))
    → EndsAt final (after_wait retrans dead later s o)
after_wait-EndsAt retrans dead final later s none k h = k
after_wait-EndsAt retrans dead final later s (some true) k h = tt
after_wait-EndsAt retrans dead final later s (some false) k h = h

-- A round before the last wait ends the loop with a reply, or goes on.
wait_part-EndsAt :
    (retrans : Bool) (final : Timespec) (r : Round) (later : Loop → Waited) (s : Loop)
    → 0 < s.finaldeadline.tv_sec
    → HasEnded (wait_reply (next_deadline r.now s).nextdeadline r.done_first r.wakes)
    → EndsAt final (later (back_off retrans r.dead (next_deadline r.now s)))
    → EndsAt final (wait_part retrans r later s)
unfolding wait_part
wait_part-EndsAt retrans final r later s p k h = elim (Bool-cases (s.finaldeadline.tv_sec == 0)) [
  | inl e ↦ absurd (ground arith)
  | inr e ↦ rw e (after_wait-EndsAt retrans r.dead final later _ _ k h)
]

next_deadline-curr_to : (now : Timespec) (s : Loop) → (next_deadline now s).curr_to ≡ s.curr_to
unfolding next_deadline
next_deadline-curr_to now s = ground arith

-- What a transmission leaves alone.
transmit_part-same :
    (r : Round) (s : Loop)
    → ((transmit_part r s).finaldeadline ≡ s.finaldeadline)
      × ((transmit_part r s).curr_to ≡ s.curr_to)
unfolding transmit_part
transmit_part-same r s = (ground arith, ground arith)

-- A wait of `curr_to` that fits leaves one doubling less.
enough :
    (n curr_to to : ℕ)
    → to + 1000 < doubled n (curr_to * 2)
    → curr_to * 2 ≤ to + 1000
    → (m : ℕ) × (n ≡ suc m) × (to + 1000 < doubled m (curr_to * 2 * 2))
enough zero curr_to to d h = absurd (omega arith)
enough (suc n) curr_to to d h = (n, refl, d)

rounds-EndsAt :
    (n begin to least : ℕ) (final : Timespec) (retrans : Bool) (rs : List Round) (s : Loop)
    → s.finaldeadline ≡ final
    → 0 < final.tv_sec
    → final.tv_nsec ≤ 1_000_000_000
    → nanos final ≡ begin + to * 1_000_000
    → begin + s.curr_to * 1_000_000 ≤ least + 1_000_000_000
    → to + 1000 < doubled n (s.curr_to * 2)
    → n + 2 ≤ length rs
    → Clocked retrans least rs s
    → EndsAt final (rounds retrans rs s)
unfolding rounds back_off
rounds-EndsAt n begin to least final retrans [] s e p q f g d l c = absurd (omega arith)
rounds-EndsAt n begin to least final retrans (r ∷ rs) s e p q f g d l c =
    wait_part-EndsAt retrans final r (rounds retrans rs) s1 (rw e1 p) c.1
      (elim (deadline-cases r.now s1 (rw e1 q)) [
        | inl (z, w, _) ↦ last-EndsAt retrans final rs _ z (w ∙ e1) (omega arith)
        | inr (same, next, soon) ↦
            let room : s.curr_to * 2 ≤ to + 1000 = omega (arith, t1, c.0, ap nanos e1) in
            let (m, en, dm) = enough n s.curr_to to d room in
            rounds-EndsAt m begin to _ final retrans rs _ (same ∙ e1) p q f
              (omega (arith, t1, next, c.0, next_deadline-curr_to r.now s1)) (fits m dm)
              (omega (arith, en)) c.2
      ])
  where
    s1 : Loop
    s1 = transmit_part r s

    e1 : (transmit_part r s).finaldeadline ≡ final
    e1 = (transmit_part-same r s).0 ∙ e

    t1 : (transmit_part r s).curr_to ≡ s.curr_to
    t1 = (transmit_part-same r s).1

    fits :
        (m : ℕ)
        → to + 1000 < doubled m (s.curr_to * 2 * 2)
        → to + 1000 < doubled m ((next_deadline r.now s1).curr_to * 2 * 2)
    fits m dm = rw (next_deadline-curr_to r.now s1 ∙ t1) dm

-- For a timeout below 2 ^ 31 milliseconds that ends after the first second of the clock, a clock
-- that does not run backwards, waits that end, and where they time out at their deadline or later,
-- and any course of the channel, the loop has ended after 23 rounds at most, and where it timed out, its last wait
-- was up to the time of the call and the timeout.
pub call_wait_ends :
    (junk now : Timespec) (to : ℕ) (retrans : Bool) (rs : List Round)
    → to < 2 ^ 31
    → 0 < (add_timespec now to).tv_sec
    → 23 ≤ length rs
    → Clocked retrans (nanos now) rs (start_loop junk now to)
    → EndsAt (add_timespec now to) (rounds retrans rs (start_loop junk now to))
unfolding start_loop
call_wait_ends junk now to retrans rs b p l c =
    let (exact, full) = nanos-add_timespec now to in
    rounds-EndsAt 21 (nanos now) to (nanos now) (add_timespec now to) retrans rs _ refl p full exact
      (omega arith) (omega arith) l c
