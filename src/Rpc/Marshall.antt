-- ===== src/Rpc/Marshall.antt =====
-- rpc/marshall.h and rpc/rpc.cc, `class marshall`: a growing buffer with a write position. Bytes are
-- numbers below 256, and an `int` is its bit pattern. The buffer's sizes are `int`s whose overflow
-- is undefined; they stay plain numbers here. RPC_CHECKSUMMING is not set by the build.
pub mod Buffer
pub mod Writing
pub mod Header
use y_f_s.Base.{
  ℕ, zero, suc, ◌+◌, ◌-◌, ◌*◌, ◌/◌, ◌%◌, ◌^◌, Bool, true, false, List, [], ◌∷◌, ◌++◌, length, set,
  take, drop, leb, ltb, if◌then◌else◌,
}

-- `junk` is what `malloc` and `realloc` leave in fresh memory, byte by byte.
pub record Marshall : Type 0 where
  pub buf : List ℕ
  pub capa : ℕ
  pub ind : ℕ
  pub junk : ℕ → ℕ

abbrev pub default_rpc_sz : ℕ
default_rpc_sz = 1024

-- `sizeof(rpc_sz_t)`
abbrev pub rpc_sz : ℕ
rpc_sz = 4

-- `sizeof(req_header)`, the larger of the two headers, and `sizeof(rpc_sz_t)`.
abbrev pub rpc_header_sz : ℕ
rpc_header_sz = 24

pub fresh : (ℕ → ℕ) → ℕ → ℕ → List ℕ
fresh junk i zero = []
fresh junk i (suc n) = junk i ∷ fresh junk (suc i) n

-- `realloc(buf, n)`
pub realloc : (ℕ → ℕ) → List ℕ → ℕ → List ℕ
realloc junk buf n = take n buf ++ fresh junk (length buf) (n - length buf)

pub new_marshall : (ℕ → ℕ) → Marshall
new_marshall junk = record {
  buf = fresh junk 0 default_rpc_sz;
  capa = default_rpc_sz;
  ind = rpc_header_sz;
  junk = junk;
}

pub grow : ℕ → Marshall → Marshall
grow n m = record m { capa = n; buf = realloc m.junk m.buf n }

-- The first part of `rawbyte` and of `rawbytes`: room for one byte, and for `n`.
pub reserve_byte : Marshall → Marshall
reserve_byte m = if leb m.capa m.ind then grow (m.capa * 2) m else m

pub reserve : ℕ → Marshall → Marshall
reserve n m =
    if ltb m.capa (m.ind + n) then grow (if ltb n m.capa then 2 * m.capa else m.capa + n) m else m

pub rawbyte : ℕ → Marshall → Marshall
rawbyte x m = let m' = reserve_byte m in record m' { buf = set m'.buf m'.ind x; ind = m'.ind + 1 }

-- `memcpy(buf + i, p, n)`
pub copy : List ℕ → ℕ → List ℕ → List ℕ
copy buf i [] = buf
copy buf i (x ∷ p) = copy (set buf i x) (suc i) p

-- `p` has `n` bytes.
pub rawbytes : List ℕ → Marshall → Marshall
rawbytes p m =
    let n = length p in
    let m' = reserve n m in record m' { buf = copy m'.buf m'.ind p; ind = m'.ind + n }

-- `str()` and `get_content()`: what was written behind the header.
pub get_content : Marshall → List ℕ
get_content m = drop rpc_header_sz (take m.ind m.buf)

abbrev pub byte : ℕ → ℕ
byte x = x % 256

-- The `<<` operators: `bool`; `unsigned char` and `char`; `unsigned short` and `short`;
-- `unsigned int` and `int`; `unsigned long long`; `std::string`.
pub put_bool : Bool → Marshall → Marshall
put_bool x = rawbyte (if x then 1 else 0)

pub put_uchar : ℕ → Marshall → Marshall
put_uchar x = rawbyte x

pub put_ushort : ℕ → Marshall → Marshall
put_ushort x m = rawbyte (byte x) (rawbyte (byte (x / 2 ^ 8)) m)

pub put_uint : ℕ → Marshall → Marshall
put_uint x m =
    rawbyte (byte x)
      (rawbyte (byte (x / 2 ^ 8)) (rawbyte (byte (x / 2 ^ 16)) (rawbyte (byte (x / 2 ^ 24)) m)))

pub put_ulonglong : ℕ → Marshall → Marshall
put_ulonglong x m = put_uint (x % 2 ^ 32) (put_uint (x / 2 ^ 32 % 2 ^ 32) m)

pub put_string : List ℕ → Marshall → Marshall
put_string s m = rawbytes s (put_uint (length s % 2 ^ 32) m)

-- `pack(int)`
pub pack : ℕ → Marshall → Marshall
pack x m =
    rawbyte (byte x)
      (rawbyte (byte (x / 2 ^ 8)) (rawbyte (byte (x / 2 ^ 16)) (rawbyte (byte (x / 2 ^ 24)) m)))

pub record ReqHeader : Type 0 where
  pub xid : ℕ
  pub proc : ℕ
  pub clt_nonce : ℕ
  pub srv_nonce : ℕ
  pub xid_rep : ℕ

pub record ReplyHeader : Type 0 where
  pub xid : ℕ
  pub ret : ℕ

-- The first four bytes are left for the channel.
pub pack_req_header : ReqHeader → Marshall → Marshall
pack_req_header h m =
    record (pack h.xid_rep (
      pack h.srv_nonce (pack h.clt_nonce (pack h.proc (pack h.xid (record m { ind = rpc_sz })))))) {
        ind = m.ind;
      }

pub pack_reply_header : ReplyHeader → Marshall → Marshall
pack_reply_header h m = record (pack h.ret (pack h.xid (record m { ind = rpc_sz }))) { ind = m.ind }
