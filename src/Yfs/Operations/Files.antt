-- ===== src/Yfs/Operations/Files.antt =====
-- yfs_client.cc: `getfile`, `getdir`, `resize`, `read`, `write` and `readir`, over the extent server's
-- state.
use y_f_s.Base.{
  ℕ, ◌+◌, ◌^◌, ◌<◌, ◌≤◌, ◌≡◌, refl, ap, ◌∙◌, Bool, false, Option, none, some, List, [], ◌∷◌, length,
  is_empty, ltb, if◌then◌else◌, lookup as assoc_lookup, insert, arith,
}
use y_f_s.Extent.{
  Attr, no_attr, Store, Server, u32, key, get, put, getattr, resized, putbuf, getbuf,
}
use y_f_s.Extent
use y_f_s.Extent.Bytes.{length-resized}
use y_f_s.Extent.Access.{get-found, lookup-put, put_store, getbuf-putbuf, getattr-found}
use y_f_s.Lock.Server as LockServer
use y_f_s.Yfs.Directory.{ent_read, lines}
use y_f_s.Yfs.Operations.{YfsStatus, ok, noent, ioerr, ext2yfs, stat2yfs}

-- `getfile` and `getdir`, which differ in the fields that they copy
abbrev pub get_info : Extent.Status × Attr × Server → YfsStatus × Option Attr × Server
get_info (Extent.ok, a, s) = (ok, some a, s)
get_info (ext, a, s) = (ioerr, none, s)

pub getfile : LockServer.Status → ℕ → Server → YfsStatus × Option Attr × Server
getfile LockServer.ok inum s = get_info (getattr inum s)
getfile loc inum s = (ioerr, none, s)

pub getdir : LockServer.Status → ℕ → Server → YfsStatus × Option Attr × Server
getdir LockServer.ok inum s = get_info (getattr inum s)
getdir loc inum s = (ioerr, none, s)

-- The file's bytes are read, `std::string::resize`d, which throws for a size above `max_size`, and
-- written.
abbrev pub resize_got :
    ℕ → ℕ → ℕ → ℕ → Extent.Status × List ℕ × Server → Option (YfsStatus × Server)
resize_got max_size target new_size now (Extent.ok, buf, s) =
    if ltb max_size new_size then none else some (ok, (put target (resized new_size buf) now s).1)
resize_got max_size target new_size now (ext, buf, s) = some (ext2yfs noent ext, s)

pub resize_file : ℕ → LockServer.Status → ℕ → ℕ → ℕ → Server → Option (YfsStatus × Server)
resize_file max_size LockServer.ok target new_size now s =
    resize_got max_size target new_size now (get target [] now s)
resize_file max_size loc target new_size now s = some (stat2yfs noent Extent.ioerr loc, s)

abbrev pub read_got : Extent.Status × List ℕ × Server → YfsStatus × List ℕ × Server
read_got (Extent.ok, tmp, s) = (ok, tmp, s)
read_got (ext, tmp, s) = (ext2yfs ok ext, [], s)

-- `read` takes no lock. Its result is what it copies to the caller's buffer.
pub read : ℕ → ℕ → ℕ → ℕ → Server → YfsStatus × List ℕ × Server
read target size offset now s = read_got (getbuf target size offset [] now s)

abbrev pub write_put : ℕ → Option (Extent.Status × Server) → Option (YfsStatus × ℕ × Server)
write_put n none = none
write_put n (some (Extent.ok, s)) = some (ok, n, s)
write_put n (some (ext, s)) = some (ext2yfs noent ext, 0, s)

-- The second result is `wrtb`.
pub write : ℕ → LockServer.Status → ℕ → List ℕ → ℕ → ℕ → Server → Option (YfsStatus × ℕ × Server)
write max_size LockServer.ok target tmp offset now s =
    write_put (length tmp) (putbuf max_size target offset tmp now s)
write max_size loc target tmp offset now s = some (stat2yfs noent Extent.ioerr loc, 0, s)

-- The loop of `readir`, up to a line that is no entry
pub read_entries : List (List ℕ × Bool) → List (List ℕ × ℕ)
read_entries [] = []
read_entries (l ∷ ls) =
    let rest = read_entries ls in
    if is_empty l.0 then rest else elim (ent_read l.0) [ none ↦ [] | some e ↦ e ∷ rest ]

abbrev pub readir_got : Extent.Status × List ℕ × Server → YfsStatus × List (List ℕ × ℕ) × Server
readir_got (Extent.ok, buf, s) = (ok, read_entries (lines buf), s)
readir_got (ext, buf, s) = (ext2yfs noent ext, [], s)

-- `readir` takes no lock.
pub readir : ℕ → ℕ → Server → YfsStatus × List (List ℕ × ℕ) × Server
readir parent now s = readir_got (get parent [] now s)

read_got-ok :
    (g : Extent.Status × List ℕ × Server)
    → g.0 ≡ Extent.ok
    → ((read_got g).0 ≡ ok) × ((read_got g).1 ≡ g.1)
read_got-ok (Extent.ok, b, s) h = (refl, refl)
read_got-ok (Extent.rpcerr, b, s) h = absurd (ground (arith, h))
read_got-ok (Extent.noent, b, s) h = absurd (ground (arith, h))
read_got-ok (Extent.ioerr, b, s) h = absurd (ground (arith, h))

-- The bytes that are written to a file that exists, at least one and up to at most `max_size`, which
-- is below 2 ^ 31, are all written when the lock is had, and are read back from the same place.
pub read-write :
    (max_size target offset now later : ℕ) (tmp : List ℕ) (s : Server) (e : Store)
    → assoc_lookup (key target) s ≡ some e
    → max_size < 2 ^ 31
    → offset + length tmp ≤ max_size
    → 0 < length tmp
    → (s' : Server) × (write max_size LockServer.ok target tmp offset now s
        ≡ some (ok, length tmp, s'))
      × ((read target (length tmp) offset later s').0 ≡ ok)
      × ((read target (length tmp) offset later s').1 ≡ tmp)
unfolding write read
read-write max_size target offset now later tmp s e f m h n =
    let w = getbuf-putbuf max_size target offset now later tmp [] s e f m h n in
    let got = read_got-ok (getbuf target (length tmp) offset [] later w.0) w.2 in
    (w.0, ap (write_put (length tmp)) w.1, got.0, got.1 ∙ w.3)

-- After a file that exists got a new size, with its lock had, `getfile` tells that size, as an
-- `unsigned int`, and the file has that many bytes.
pub getfile-resize_file :
    (max_size target new_size now : ℕ) (s : Server) (e : Store)
    → assoc_lookup (key target) s ≡ some e
    → new_size ≤ max_size
    → (s' : Server) × (a : Attr) × (e' : Store) × (resize_file max_size LockServer.ok target
          new_size now s
        ≡ some (ok, s'))
      × (getfile LockServer.ok target s' ≡ (ok, some a, s'))
      × (a.size ≡ u32 new_size)
      × (assoc_lookup (key target) s' ≡ some e')
      × (length e'.buf ≡ new_size)
unfolding resize_file getfile
getfile-resize_file max_size target new_size now s e f h =
    let s1 = insert (key target) (record e { a = record e.a { atime = u32 now } }) s in
    let buf = resized new_size e.buf in
    let s' = (put target buf now s1).1 in
    let new : assoc_lookup (key target) s' ≡ some (put_store buf now) =
      ground (arith, lookup-put target (key target) buf now s1) in
    let fits : ltb max_size new_size ≡ false = ground arith in
    (
      s',
      (put_store buf now).a,
      put_store buf now,
      ap (resize_got max_size target new_size now) (get-found target [] now s e f) ∙ rw fits,
      ap get_info (getattr-found target s' (put_store buf now) new),
      ap u32 (length-resized new_size e.buf),
      new,
      length-resized new_size e.buf,
    )
