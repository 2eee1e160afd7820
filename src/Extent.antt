-- ===== src/Extent.antt =====
-- extent_server.cc and extent_server.h: the server that stores the contents of files and directories
-- as extents. Each handler runs under one mutex, so it is one step on the table. `now` is what
-- `time(NULL)` returns. `none` is an exception of `std::string` that nobody catches.
-- `size_t` has 32 bits here: `getbuf`, `putbuf` and `resize` take one through a message, and the
-- marshaller has an operator for it only where it is `unsigned int`.
pub mod Bytes
pub mod Access
pub mod History
pub mod Sizes
pub mod Spec
pub mod Refinement
mod Tests
use y_f_s.Base.{
  ℕ, ◌+◌, ◌-◌, ◌%◌, ◌^◌, ◌&&◌, Option, none, some, List, [], ◌++◌, length, take, drop, replicate,
  ltb, leb, if◌then◌else◌, Table, lookup, insert, erase,
}

-- `extent_protocol::xxstatus`
pub data Status : Type 0 where
  ok rpcerr noent ioerr : Status

-- `extent_protocol::attr`, four `unsigned int`s
pub record Attr : Type 0 where
  pub atime : ℕ
  pub mtime : ℕ
  pub ctime : ℕ
  pub size : ℕ

-- `struct store`
pub record Store : Type 0 where
  pub buf : List ℕ
  pub a : Attr

-- `store_table`: its key is an `int`, here by its bit pattern.
abbrev pub Server : Type 0
Server = Table Store

abbrev pub u32 : ℕ → ℕ
u32 n = n % 2 ^ 32

-- An `unsigned long long` as an `int` key.
abbrev pub key : ℕ → ℕ
key id = id % 2 ^ 32

pub put : ℕ → List ℕ → ℕ → Server → Status × Server
put id buf now s =
    let t = u32 now in
    let a : Attr = record { atime = t; mtime = t; ctime = t; size = u32 (length buf) } in
    (ok, insert (key id) (record { buf = buf; a = a }) s)

-- `extent_server::extent_server`: the root directory.
pub new_server : ℕ → Server
unfolding put
new_server now = (put 1 [] now []).1

-- `buf` is what the reference argument holds before the call.
pub get : ℕ → List ℕ → ℕ → Server → Status × List ℕ × Server
get id buf now s = elim (lookup (key id) s) [
  | none ↦ (noent, buf, s)
  | some e ↦ (ok, e.buf, insert (key id) (record e { a = record e.a { atime = u32 now } }) s)
]

abbrev pub no_attr : Attr
no_attr = record { atime = 0; mtime = 0; ctime = 0; size = 0 }

pub getattr : ℕ → Server → Status × Attr × Server
getattr id s = elim (lookup (key id) s) [ none ↦ (noent, no_attr, s) | some e ↦ (ok, e.a, s) ]

pub remove : ℕ → Server → Status × Server
remove id s = elim (lookup (key id) s) [ none ↦ (noent, s) | some e ↦ (ok, erase (key id) s) ]

-- `std::string::resize`
pub resized : ℕ → List ℕ → List ℕ
resized n buf = take n buf ++ replicate (n - length buf) 0

-- `if(end > len) buf.resize(end)`, of `putbuf`
pub grown : ℕ → List ℕ → List ℕ
grown stop buf = if ltb (length buf) stop then resized stop buf else buf

-- `max_size()` of a `std::string`
module _ (max_size : ℕ) where
  -- Two calls of `time`: one where the buffer shrinks, `now`, and one after, `later`.
  pub resize : ℕ → ℕ → ℕ → ℕ → Server → Option (Status × Server)
  resize id new_size now later s = elim (lookup (key id) s) [
    | none ↦ some (noent, s)
    | some e ↦
        let a = if ltb new_size (length e.buf) then record e.a { mtime = u32 now } else e.a in
        if ltb max_size new_size
        then none
        else some (
          ok,
          insert (key id)
              (record { buf = resized new_size e.buf; a = record a { ctime = u32 later } }) s,
        )
  ]

  -- `buf.resize(end)` if `end > len`, where `end` is a `size_t`, and `buf.replace(off, n, bs)`
  -- with `n` the size of `bs`.
  pub splice : ℕ → List ℕ → List ℕ → Option (List ℕ)
  splice off bs buf =
      let stop = (off + length bs) % 2 ^ 32 in
      let g = grown stop buf in
      if ltb (length buf) stop && ltb max_size stop
      then none
      else if ltb (length g) off
      then none
      else some (take off g ++ (bs ++ drop (off + length bs) g))

  pub putbuf : ℕ → ℕ → List ℕ → ℕ → Server → Option (Status × Server)
  putbuf id off buf now s = elim (lookup (key id) s) [
    | none ↦ some (noent, s)
    | some e ↦ elim (splice off buf e.buf) [
      | none ↦ none
      | some b ↦
          let a = record e.a { mtime = u32 now; size = u32 (length b) } in
          some (ok, insert (key id) (record { buf = b; a = a }) s)
    ]
  ]

pub getbuf : ℕ → ℕ → ℕ → List ℕ → ℕ → Server → Status × List ℕ × Server
getbuf id ask_size off buf now s = elim (lookup (key id) s) [
  | none ↦ (noent, buf, s)
  | some e ↦
      let len = length e.buf in
      if ltb off len
      then (let allowsize = if ltb ask_size (len - off) then ask_size else len - off in
          (
            ok,
            take allowsize (drop off e.buf),
            insert (key id) (record e { a = record e.a { atime = u32 now } }) s,
          ))
      else (ioerr, buf, s)
]
