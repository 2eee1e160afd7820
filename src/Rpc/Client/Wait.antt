-- ===== src/Rpc/Client/Wait.antt =====
-- rpc/rpc.cc, `rpcc::call1`: the loop that sends a request and waits for its reply, with doubling
-- waits up to a final deadline.
pub mod Ends
pub mod Once
mod Tests
use y_f_s.Base.{
  ℕ, ◌+◌, ◌*◌, Bool, true, false, not, ◌&&◌, ◌||◌, Option, none, some, List, [], ◌∷◌, ◌==◌,
  if◌then◌else◌, int_ltb, ltb,
}
use y_f_s.Rpc.Time.{Timespec, cmp_timespec, add_timespec}

-- `to_min.to`
abbrev pub to_min : ℕ
to_min = 1000

-- What a wait of `pthread_cond_timedwait` meets when it is over: whether the call is done then, and
-- whether the deadline has passed.
pub record Wake : Type 0 where
  pub done : Bool
  pub expired : Bool

-- What one round meets: whether `get_refconn` has a channel, whether the client is reachable,
-- whether there is a forgotten request to send, the time read, whether the call is done before the
-- first wait, the waits, and whether the channel is dead after them.
pub record Round : Type 0 where
  pub channel : Bool
  pub reachable : Bool
  pub forgot : Bool
  pub now : Timespec
  pub done_first : Bool
  pub wakes : List Wake
  pub dead : Bool

-- The loop's variables; `ch` is whether a channel was obtained, `sends` counts the sends of the
-- request, and `forgotten` those of an earlier one.
pub record Loop : Type 0 where
  pub transmit : Bool
  pub ch : Bool
  pub sends : ℕ
  pub forgotten : ℕ
  pub curr_to : ℕ
  pub nextdeadline : Timespec
  pub finaldeadline : Timespec

-- Before the loop; `nextdeadline` is not set yet, and `junk` is what the stack holds.
pub start_loop : Timespec → Timespec → ℕ → Loop
start_loop junk now to = record {
  transmit = true;
  ch = false;
  sends = 0;
  forgotten = 0;
  curr_to = to_min;
  nextdeadline = junk;
  finaldeadline = add_timespec now to;
}

-- `if(transmit) …`: on a channel of a reachable client, a forgotten request goes out before the
-- request itself. The message is sent at most once on a given channel.
pub transmit_part : Round → Loop → Loop
transmit_part r s =
    if s.transmit
    then (let ch = s.ch || r.channel in
        let out = ch && r.reachable in
        record s {
          transmit = false;
          ch = ch;
          forgotten = if out && r.forgot then s.forgotten + 1 else s.forgotten;
          sends = if out then s.sends + 1 else s.sends;
        })
    else s

-- The deadline of this round's wait. The last wait is up to the final deadline, whose seconds are
-- then cleared.
pub next_deadline : Timespec → Loop → Loop
next_deadline now s =
    let next = add_timespec now s.curr_to in
    if int_ltb 0 (cmp_timespec next s.finaldeadline)
    then record s {
      nextdeadline = s.finaldeadline;
      finaldeadline = record s.finaldeadline { tv_sec = 0 };
    }
    else record s { nextdeadline = next }

-- After a wait that timed out. `curr_to` is an `int`, whose overflow is undefined; it stays a plain
-- number here.
pub back_off : Bool → Bool → Loop → Loop
back_off retrans dead s = record s {
  transmit = (retrans && (not s.ch || dead)) || s.transmit;
  curr_to = s.curr_to * 2;
}

-- `pthread_cond_timedwait` does not take nanoseconds of a whole second: it answers EINVAL.
abbrev pub is_valid : Timespec → Bool
is_valid t = ltb t.tv_nsec 1_000_000_000

-- The loop of waits: it ends with whether the call is done, and only the answer ETIMEDOUT ends it
-- before that. `none` is a thread that waits still.
unfoldable pub wait_reply : Timespec → Bool → List Wake → Option Bool
wait_reply deadline true ws = some true
wait_reply deadline false [] = none
wait_reply deadline false (w ∷ ws) =
    let rest = wait_reply deadline w.done ws in
    if is_valid deadline && w.expired then some w.done else rest

-- How the loop stands after some rounds. In `inside` the thread is still in a loop of waits.
pub data Waited : Type 0 where
  replied : Loop → Waited
  timed_out : Loop → Waited
  waiting : Loop → Waited
  inside : Loop → Waited

abbrev pub after_wait : Bool → Bool → (Loop → Waited) → Loop → Option Bool → Waited
after_wait retrans dead later s none = inside s
after_wait retrans dead later s (some true) = replied s
after_wait retrans dead later s (some false) = later (back_off retrans dead s)

-- The part of a round after `if(transmit)`, and `later` for what follows the round.
pub wait_part : Bool → Round → (Loop → Waited) → Loop → Waited
wait_part retrans r later s =
    if s.finaldeadline.tv_sec == 0
    then timed_out s
    else (let s' = next_deadline r.now s in
        after_wait retrans r.dead later s' (wait_reply s'.nextdeadline r.done_first r.wakes))

unfoldable pub rounds : Bool → List Round → Loop → Waited
rounds retrans [] s = waiting s
rounds retrans (r ∷ rs) s = wait_part retrans r (rounds retrans rs) (transmit_part r s)
