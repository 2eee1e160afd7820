-- ===== src/Extent/Access.antt =====
-- One call of extent_server.cc after another on the same extent, and what other extents see of it.
use y_f_s.Base.{
  ℕ, ◌+◌, ◌^◌, ◌<◌, ◌≤◌, ◌≡◌, refl, ◌≢◌, none, some, List, length, ◌==◌, if◌then◌else◌, lookup,
  insert, lookup-insert, lookup-erase, arith,
}
use y_f_s.Extent.{ok, noent, Store, Server, u32, key, put, get, getattr, remove, putbuf, getbuf}
use y_f_s.Extent.Bytes.{spliced, splice-some, read_spliced, length-spliced, splice_wraps}

-- `get` after `put` returns OK and the bytes that were put, whatever the extent held, and `put`
-- leaves what is stored under other keys unchanged.
pub get-put :
    (id : ℕ) (bs old : List ℕ) (now later : ℕ) (s : Server)
    → let s' = (put id bs now s).1 in
      ((get id old later s').0 ≡ ok)
      × ((get id old later s').1 ≡ bs)
      × ((j : ℕ) → j ≢ key id → lookup j s' ≡ lookup j s)
unfolding get put
get-put id bs old now later s =
    let e : Store = record {
      buf = bs;
      a = record { atime = u32 now; mtime = u32 now; ctime = u32 now; size = u32 (length bs) };
    } in
    (
      ground (arith, lookup-insert (key id) (key id) e s),
      ground (arith, lookup-insert (key id) (key id) e s),
      λ j ne. ground (arith, lookup-insert (key id) j e s, ne),
    )

pub lookup-remove :
    (id j : ℕ) (s : Server) → lookup j (remove id s).1 ≡ (if key id == j then none else lookup j s)
unfolding remove
lookup-remove id j s = ground (arith, lookup-erase (key id) j s)

-- `get` after `remove` returns NOENT and leaves its reference argument as it was, and `remove`
-- leaves what is stored under other keys unchanged.
pub get-remove :
    (id : ℕ) (old : List ℕ) (now : ℕ) (s : Server)
    → let s' = (remove id s).1 in
      ((get id old now s').0 ≡ noent)
      × ((get id old now s').1 ≡ old)
      × ((j : ℕ) → j ≢ key id → lookup j s' ≡ lookup j s)
unfolding get
get-remove id old now s =
    let gone = lookup-remove id (key id) s in
    (ground (arith, gone), ground (arith, gone), λ j ne. ground (arith, lookup-remove id j s, ne))

-- The extent after a write.
abbrev pub written_store : ℕ → List ℕ → ℕ → Store → Store
written_store off bs now e =
    let b = spliced off bs e.buf in
    record { buf = b; a = record e.a { mtime = u32 now; size = u32 (length b) } }

pub putbuf-found :
    (max_size id off now : ℕ) (bs : List ℕ) (s : Server) (e : Store)
    → lookup (key id) s ≡ some e
    → max_size < 2 ^ 31
    → off + length bs ≤ max_size
    → putbuf max_size id off bs now s ≡ some (ok, insert (key id) (written_store off bs now e) s)
unfolding putbuf
putbuf-found max_size id off now bs s e f m h =
    rw (f, putbuf) (rw (splice-some max_size off bs e.buf m h, putbuf))

-- A write of at least one byte into an extent that exists, with its end at most `max_size`, which
-- is below 2 ^ 31, succeeds, the bytes are read back from the same place, and what is stored
-- under other keys is unchanged.
pub getbuf-putbuf :
    (max_size id off now later : ℕ) (bs old : List ℕ) (s : Server) (e : Store)
    → lookup (key id) s ≡ some e
    → max_size < 2 ^ 31
    → off + length bs ≤ max_size
    → 0 < length bs
    → (s' : Server) × (putbuf max_size id off bs now s ≡ some (ok, s'))
      × ((getbuf id (length bs) off old later s').0 ≡ ok)
      × ((getbuf id (length bs) off old later s').1 ≡ bs)
      × ((j : ℕ) → j ≢ key id → lookup j s' ≡ lookup j s)
unfolding getbuf
getbuf-putbuf max_size id off now later bs old s e f m h n = (
  insert (key id) (written_store off bs now e) s,
  putbuf-found max_size id off now bs s e f m h,
  ground (
    arith,
    lookup-insert (key id) (key id) (written_store off bs now e) s,
    length-spliced off bs e.buf,
  ),
  ground (
    arith,
    lookup-insert (key id) (key id) (written_store off bs now e) s,
    length-spliced off bs e.buf,
    read_spliced off bs e.buf,
  ),
  λ j ne. ground (arith, lookup-insert (key id) j (written_store off bs now e) s, ne),
)

-- A write to an extent that exists, whose end does not fit into a `size_t`, ends in an exception
-- of `replace`, for sizes that a `std::string` can have and `max_size` below 2 ^ 31.
pub putbuf_wraps :
    (max_size id off now : ℕ) (bs : List ℕ) (s : Server) (e : Store)
    → lookup (key id) s ≡ some e
    → max_size < 2 ^ 31
    → length bs ≤ max_size
    → length e.buf ≤ max_size
    → off < 2 ^ 32
    → 2 ^ 32 ≤ off + length bs
    → putbuf max_size id off bs now s ≡ none
unfolding putbuf
putbuf_wraps max_size id off now bs s e f m h k b w =
    rw (f, putbuf) (rw (splice_wraps max_size off bs e.buf m h k b w, putbuf))

pub get-found :
    (id : ℕ) (old : List ℕ) (now : ℕ) (s : Server) (e : Store)
    → lookup (key id) s ≡ some e
    → get id old now s
      ≡ (ok, e.buf, insert (key id) (record e { a = record e.a { atime = u32 now } }) s)
unfolding get
get-found id old now s e f = rw (f, get) refl

-- The extent that `put` leaves.
abbrev pub put_store : List ℕ → ℕ → Store
put_store bs now = record {
  buf = bs;
  a = record { atime = u32 now; mtime = u32 now; ctime = u32 now; size = u32 (length bs) };
}

pub lookup-put :
    (id j : ℕ) (bs : List ℕ) (now : ℕ) (s : Server)
    → lookup j (put id bs now s).1 ≡ (if key id == j then some (put_store bs now) else lookup j s)
unfolding put
lookup-put id j bs now s = lookup-insert (key id) j (put_store bs now) s

pub getattr-found :
    (id : ℕ) (s : Server) (e : Store) → lookup (key id) s ≡ some e → getattr id s ≡ (ok, e.a, s)
unfolding getattr
getattr-found id s e f = rw (f, getattr) refl

pub remove-found :
    (id : ℕ) (s : Server) (e : Store) → lookup (key id) s ≡ some e → (remove id s).0 ≡ ok
unfolding remove
remove-found id s e f = rw (f, remove) refl
