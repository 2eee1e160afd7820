-- ===== src/Rpc/Connection.antt =====
-- rpc/connection.h and rpc/connection.cc, `class connection`: messages on a byte stream. Each
-- function is a part of a method that holds the mutex `m_`. What `read` and `write` return is an
-- input; the poll manager's callbacks are the calls of `read_cb` and `write_cb`.
pub mod Reading
pub mod Writing
pub mod Sending
pub mod Refs
mod Tests
use y_f_s.Base.{
  ℕ, ◌+◌, ◌-◌, ◌*◌, ◌%◌, ◌^◌, Bool, true, false, not, ◌&&◌, ◌||◌, Option, none, some, List, [], ◌∷◌,
  ◌++◌, length, take, drop, leb, ltb, ◌==◌, if◌then◌else◌, minus,
}
use y_f_s.Rpc.Marshall.Writing.{be32}

-- 10 << 20
abbrev pub max_pdu : ℕ
max_pdu = 10_485_760

-- `charbuf`: the bytes of a buffer that is read are those read so far. A negative `solong` is a bit
-- pattern; its buffer's `sz` is 0.
pub record Charbuf : Type 0 where
  pub buf : Option (List ℕ)
  pub sz : ℕ
  pub solong : ℕ

abbrev pub no_buf : Charbuf
no_buf = record { buf = none; sz = 0; solong = 0 }

-- `read`: some bytes, at least one; 0 at the end of the stream, where `errno` is what an earlier
-- call left, here whether it is EAGAIN; or an error, EAGAIN or not.
pub data Read : Type 0 where
  bytes : List ℕ → Read
  at_end : Bool → Read
  again : Read
  error : Read

-- `ntohl` of the four bytes of an `int`.
pub ntohl : List ℕ → ℕ
ntohl (a ∷ b ∷ c ∷ d ∷ rest) = a * 2 ^ 24 + b * 2 ^ 16 + c * 2 ^ 8 + d
ntohl [] = 0
ntohl (a ∷ []) = 0
ntohl (a ∷ b ∷ []) = 0
ntohl (a ∷ b ∷ c ∷ []) = 0

-- `readpdu`: what it returns, with the buffer; a failed VERIFY; or a write behind the buffer.
pub data Pdu : Type 0 where
  returns : Bool → Charbuf → Pdu
  aborts : Pdu
  overflows : Pdu

abbrev pub bytes_of : Option (List ℕ) → List ℕ
bytes_of none = []
bytes_of (some s) = s

-- The second `read`, of `sz - solong` bytes into a buffer of `sz + 4` bytes, where the count is not
-- negative.
pub read_bytes : Read → Charbuf → Pdu
read_bytes (bytes s) b =
    if leb (b.solong + length s) (b.sz + 4)
    then returns true (record b { buf = some (bytes_of b.buf ++ s); solong = b.solong + length s })
    else overflows
read_bytes again b = returns true b
read_bytes error b = returns false no_buf
read_bytes (at_end stale) b = if stale then returns true b else returns false no_buf

-- A negative count is passed as one above SSIZE_MAX. POSIX leaves that to the system; Linux and
-- macOS refuse it with EINVAL, as here.
pub read_body : Read → Charbuf → Pdu
unfolding read_bytes
read_body r b = if ltb b.sz b.solong then read_bytes error b else read_bytes r b

-- A message of size `sz`, an `int`, whose first four bytes are `s`. A negative size from -4 on makes
-- a buffer of less than four bytes; `malloc` fails on a smaller one.
pub start_body : Read → List ℕ → ℕ → Charbuf → Pdu
unfolding read_body
start_body body s sz b =
    if ltb sz (2 ^ 31) && ltb max_pdu sz
    then returns false b
    else if leb (2 ^ 31) sz
    then (if leb (minus 4) sz then overflows else aborts)
    else elim b.buf [
      | none ↦ read_body body (record { buf = some s; sz = sz; solong = 4 })
      | some old ↦ aborts
    ]

pub read_size : Read → Read → Charbuf → Pdu
unfolding start_body ntohl
read_size (bytes s) body b =
    if length s == 4 then start_body body s (ntohl s) b else returns false b
read_size (at_end stale) body b = returns false b
read_size again body b = aborts
read_size error body b = returns false b

pub readpdu : Read → Read → Charbuf → Pdu
unfolding read_size
readpdu size body b = if b.sz == 0 then read_size size body b else read_body body b

-- `write`: how many bytes it took, or an error, EAGAIN or not.
pub data Write : Type 0 where
  wrote : ℕ → Write
  busy : Write
  broken : Write

-- What `writepdu` returns, the buffer, and the bytes that went out.
pub record Written : Type 0 where
  pub returned : Bool
  pub wpdu : Charbuf
  pub out : List ℕ

-- The size goes into the first four bytes before the first write.
pub fill_size : Charbuf → Charbuf
fill_size b =
    if b.solong == 0 then record b { buf = some (be32 b.sz ++ drop 4 (bytes_of b.buf)) } else b

pub write_some : Write → Charbuf → Written
write_some (wrote n) b = record {
  returned = true;
  wpdu = record b { solong = b.solong + n };
  out = take n (drop b.solong (bytes_of b.buf));
}
write_some busy b = record { returned = true; wpdu = b; out = [] }
write_some broken b = record {
  returned = false;
  wpdu = record b { solong = minus 1; sz = 0 };
  out = [];
}

pub writepdu : Write → Charbuf → Written
unfolding fill_size write_some
writepdu w b =
    if b.solong == b.sz
    then record { returned = true; wpdu = b; out = [] }
    else write_some w (fill_size b)

pub record Connection : Type 0 where
  pub dead : Bool
  pub wpdu : Charbuf
  pub rpdu : Charbuf
  pub waiters : ℕ
  pub refno : ℕ

pub new_connection : Connection
new_connection = record { dead = false; wpdu = no_buf; rpdu = no_buf; waiters = 0; refno = 1 }

-- `send`, from the test of its first loop on: it waits, fails on a dead connection, or writes. A
-- write that fails makes the connection dead; one that is not complete waits for `write_cb`.
pub data Send : Type 0 where
  waits_for_turn : Send
  refused : Send
  writing : Send
  written : Send

abbrev pub progress : Bool → ℕ → ℕ → Send
progress dead solong sz = if not dead && ltb solong sz then writing else written

pub start_write : List ℕ → ℕ → Write → Connection → Send × Connection × List ℕ
start_write b sz w c =
    let r = writepdu w (record { buf = some b; sz = sz; solong = 0 }) in
    let c' = record c { wpdu = r.wpdu; dead = not r.returned } in
    (progress c'.dead r.wpdu.solong r.wpdu.sz, c', r.out)

-- `waiters_` counts this thread while it waits.
pub try_send : List ℕ → ℕ → Write → Connection → Send × Connection × List ℕ
unfolding start_write
try_send b sz w c =
    if c.dead then (refused, record c { waiters = c.waiters - 1 }, []) else elim c.wpdu.buf [
      | some busy_with ↦ (waits_for_turn, c, [])
      | none ↦ start_write b sz w (record c { waiters = c.waiters - 1 })
    ]

pub send : List ℕ → ℕ → Write → Connection → Send × Connection × List ℕ
unfolding try_send
send b sz w c = try_send b sz w (record c { waiters = c.waiters + 1 })

-- The end of `send`: its result, and whether it wakes the waiting threads.
pub send_end : Connection → Bool × Bool × Connection
send_end c =
    (not c.dead && (c.wpdu.solong == c.wpdu.sz), ltb 0 c.waiters, record c { wpdu = no_buf })

-- `write_cb`: whether it signals the thread in `send`. It is not called on a dead connection.
pub write_cb : Write → Connection → Bool × Connection × List ℕ
write_cb w c =
    if c.wpdu.sz == 0
    then (false, c, [])
    else (let r = writepdu w c.wpdu in
        let c' = record c { wpdu = r.wpdu; dead = not r.returned } in
        (not r.returned || not (ltb r.wpdu.solong r.wpdu.sz), c', r.out))

-- `read_cb`, where `accept` is what the manager's `got_pdu` returns for a message.
pub data ReadCb : Type 0 where
  done : Option (List ℕ × ℕ) → Connection → ReadCb
  crash : ReadCb

pub hand_over : (List ℕ → ℕ → Bool) → Connection → ReadCb
hand_over accept c = elim c.rpdu.buf [
  | none ↦ done none c
  | some b ↦
      if c.rpdu.sz == c.rpdu.solong
      then done (some (b, c.rpdu.sz)) (if accept b c.rpdu.sz then record c { rpdu = no_buf } else c)
      else done none c
]

pub after_read : (List ℕ → ℕ → Bool) → Connection → Pdu → ReadCb
unfolding hand_over
after_read accept c (returns succ b) = hand_over accept (record c { rpdu = b; dead = not succ })
after_read accept c aborts = crash
after_read accept c overflows = crash

abbrev pub is_complete : Charbuf → Bool
is_complete b = elim b.buf [ none ↦ false | some s ↦ not (ltb b.solong b.sz) ]

pub read_cb : (List ℕ → ℕ → Bool) → Read → Read → Connection → ReadCb
unfolding after_read
read_cb accept size body c =
    if c.dead
    then done none c
    else if is_complete c.rpdu
    then hand_over accept c
    else after_read accept c (readpdu size body c.rpdu)
