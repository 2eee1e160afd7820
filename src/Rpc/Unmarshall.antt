-- ===== src/Rpc/Unmarshall.antt =====
-- rpc/marshall.h and rpc/rpc.cc, `class unmarshall`: a buffer with a read position.
pub mod Reading
pub mod Header
pub mod Overflow
use y_f_s.Base.{
  ℕ, suc, ◌+◌, ◌-◌, ◌*◌, ◌%◌, ◌^◌, ◌<◌, Bool, true, false, ◌&&◌, Option, none, some, List, [], ◌∷◌,
  ◌++◌, length, get_or, take, drop, leb, ltb, ◌==◌, if◌then◌else◌, bit_or,
}
use y_f_s.Rpc.Marshall.{ReqHeader, ReplyHeader, fresh, rpc_header_sz, rpc_sz}

pub record Unmarshall : Type 0 where
  pub buf : List ℕ
  pub sz : ℕ
  pub ind : ℕ
  pub good : Bool  -- `_ok`

unfoldable pub of_buffer : List ℕ → ℕ → Unmarshall
of_buffer b sz = record { buf = b; sz = sz; ind = 0; good = true }

-- `take_content`: the header's bytes are whatever `realloc` left, here `junk`.
pub take_content : (ℕ → ℕ) → List ℕ → Unmarshall
take_content junk s = record {
  buf = fresh junk 0 rpc_header_sz ++ s;
  sz = length s + rpc_header_sz;
  ind = rpc_header_sz;
  good = true;
}

-- `take_in`: the buffer of another object, behind its header.
pub take_in : Unmarshall → Unmarshall
take_in another = record another { ind = rpc_header_sz; good = leb rpc_header_sz another.sz }

pub okdone : Unmarshall → Bool
okdone u = u.good && (u.ind == u.sz)

-- `rawbyte` returns its `char`, which is signed, as an `unsigned int`.
abbrev pub char_to_uint : ℕ → ℕ
char_to_uint c = if ltb c 128 then c else c + (2 ^ 32 - 256)

pub rawbyte : Unmarshall → ℕ × Unmarshall
rawbyte u =
    if leb u.sz u.ind
    then (0, record u { good = false })
    else (char_to_uint (get_or u.buf u.ind 0), record u { ind = u.ind + 1 })

-- The `>>` operators, for the types that `<<` has. `& 0xff` is `% 256`.
pub get_bool : Unmarshall → Bool × Unmarshall
get_bool u = let (c, u') = rawbyte u in (if c == 0 then false else true, u')

pub get_uchar : Unmarshall → ℕ × Unmarshall
get_uchar u = let (c, u') = rawbyte u in (c % 256, u')

pub get_ushort : Unmarshall → ℕ × Unmarshall
get_ushort u =
    let (a, u1) = rawbyte u in let (b, u2) = rawbyte u1 in (bit_or (a % 256 * 2 ^ 8) (b % 256), u2)

pub get_uint : Unmarshall → ℕ × Unmarshall
get_uint u =
    let (a, u1) = rawbyte u in
    let (b, u2) = rawbyte u1 in
    let (c, u3) = rawbyte u2 in
    let (d, u4) = rawbyte u3 in
    (bit_or (bit_or (bit_or (a % 256 * 2 ^ 24) (b % 256 * 2 ^ 16)) (c % 256 * 2 ^ 8)) (d % 256), u4)

pub get_ulonglong : Unmarshall → ℕ × Unmarshall
get_ulonglong u =
    let (h, u1) = get_uint u in let (l, u2) = get_uint u1 in (bit_or l (h * 2 ^ 32), u2)

-- `rawbytes(ss, n)`: the test is on an `unsigned int`, which wraps; `none` is a read behind the
-- buffer, which is undefined.
pub rawbytes : ℕ → List ℕ → Unmarshall → Option (List ℕ × Unmarshall)
rawbytes n ss u =
    if ltb u.sz ((u.ind + n) % 2 ^ 32)
    then some (ss, record u { good = false })
    else if leb (u.ind + n) u.sz
    then some (take n (drop u.ind u.buf), record u { ind = u.ind + n })
    else none

-- `s` is left as it was where the size cannot be read.
pub get_string : List ℕ → Unmarshall → Option (List ℕ × Unmarshall)
get_string s u = let (n, u1) = get_uint u in if u1.good then rawbytes n s u1 else some (s, u1)

-- `unpack(int *)`
pub unpack : Unmarshall → ℕ × Unmarshall
unpack u =
    let (a, u1) = rawbyte u in
    let (b, u2) = rawbyte u1 in
    let (c, u3) = rawbyte u2 in
    let (d, u4) = rawbyte u3 in
    (bit_or (bit_or (bit_or (a % 256 * 2 ^ 24) (b % 256 * 2 ^ 16)) (c % 256 * 2 ^ 8)) (d % 256), u4)

pub unpack_req_header : Unmarshall → ReqHeader × Unmarshall
unpack_req_header u =
    let (xid, u1) = unpack (record u { ind = rpc_sz }) in
    let (proc, u2) = unpack u1 in
    let (clt_nonce, u3) = unpack u2 in
    let (srv_nonce, u4) = unpack u3 in
    let (xid_rep, u5) = unpack u4 in
    (
      record {
        xid = xid;
        proc = proc;
        clt_nonce = clt_nonce;
        srv_nonce = srv_nonce;
        xid_rep = xid_rep;
      },
      record u5 { ind = rpc_header_sz },
    )

pub unpack_reply_header : Unmarshall → ReplyHeader × Unmarshall
unpack_reply_header u =
    let (xid, u1) = unpack (record u { ind = rpc_sz }) in
    let (ret, u2) = unpack u1 in
    (record { xid = xid; ret = ret }, record u2 { ind = rpc_header_sz })
