-- ===== src/Yfs/Operations.antt =====
-- yfs_client.cc: `new_inum`, `dir_add_entry`, `lookup`, `remove` and `write` over the extent server's
-- state. `loc` is what the lock client's `acquire` answers, `now` what the server's clock says.
pub mod Create
pub mod Files
pub mod Remove
mod Tests
use y_f_s.Base.{
  ℕ, ◌+◌, ◌-◌, ◌*◌, ◌/◌, ◌%◌, ◌^◌, Bool, true, false, ◌||◌, Option, none, some, List, [], ◌∷◌, ◌++◌,
  length, take, drop, leb, ◌==◌, if◌then◌else◌,
}
use y_f_s.Extent.{Server, get, put, remove, putbuf}
use y_f_s.Extent
use y_f_s.Lock.Server as LockServer
use y_f_s.Yfs.Directory.{dir_find, append_entry}

-- `yfs_client::xxstatus`
pub data YfsStatus : Type 0 where
  ok rpcerr noent ioerr exist : YfsStatus

abbrev pub ext2yfs : YfsStatus → Extent.Status → YfsStatus
ext2yfs yfs Extent.ok = yfs
ext2yfs yfs Extent.rpcerr = rpcerr
ext2yfs yfs Extent.noent = noent
ext2yfs yfs Extent.ioerr = ioerr

-- The lock's status counts one higher than the file system's.
abbrev pub stat2yfs : YfsStatus → Extent.Status → LockServer.Status → YfsStatus
stat2yfs yfs ext LockServer.ok = ext2yfs yfs ext
stat2yfs yfs ext LockServer.retry = ioerr
stat2yfs yfs ext LockServer.rpcerr = rpcerr
stat2yfs yfs ext LockServer.noent = noent
stat2yfs yfs ext LockServer.ioerr = ioerr

-- `inum & 0x80000000`
abbrev pub isfile : ℕ → Bool
isfile inum = inum / 2 ^ 31 % 2 == 1

-- The loop over what `random` draws, numbers below 2 ^ 31; `none` where it is still running.
pub new_inum : ℕ → Bool → List ℕ → Option ℕ
new_inum parent file [] = none
new_inum parent file (r ∷ draws) =
    let rest = new_inum parent file draws in
    let inum = if file then r % 2 ^ 31 + 2 ^ 31 else r % 2 ^ 31 in
    if (inum == parent) || leb inum 1 then rest else some inum

-- Under the directory's lock: the directory's bytes are read, and a new entry and an empty extent
-- are written. The second result is `entry_inum`, which is `old` before.
abbrev pub add_new : ℕ → List ℕ → List ℕ → Option ℕ → ℕ → Server → Option (YfsStatus × ℕ × Server)
add_new parent name buf none now s = none
add_new parent name buf (some inum) now s =
    some (ok, inum, (put parent (append_entry buf name inum) now (put inum [] now s).1).1)

abbrev pub add_entry :
    ℕ
    → List ℕ
    → Bool
    → List ℕ
    → ℕ
    → ℕ
    → Extent.Status × List ℕ × Server
    → Option (YfsStatus × ℕ × Server)
add_entry parent name file draws old now (Extent.ok, buf, s) = elim (dir_find buf name) [
  | none ↦ add_new parent name buf (new_inum parent file draws) now s
  | some (inum, off, len) ↦ some (exist, inum, s)
]
add_entry parent name file draws old now (ext, buf, s) = some (ext2yfs ok ext, old, s)

pub dir_add_entry :
    LockServer.Status
    → ℕ
    → List ℕ
    → Bool
    → List ℕ
    → ℕ
    → ℕ
    → Server
    → Option (YfsStatus × ℕ × Server)
dir_add_entry LockServer.ok parent name file draws old now s =
    add_entry parent name file draws old now (get parent [] now s)
dir_add_entry loc parent name file draws old now s = some (stat2yfs ok Extent.ioerr loc, old, s)

pub create :
    LockServer.Status → ℕ → List ℕ → List ℕ → ℕ → ℕ → Server → Option (YfsStatus × ℕ × Server)
create loc parent name draws old now s = dir_add_entry loc parent name true draws old now s

pub mkadir :
    LockServer.Status → ℕ → List ℕ → List ℕ → ℕ → ℕ → Server → Option (YfsStatus × ℕ × Server)
mkadir loc parent name draws old now s = dir_add_entry loc parent name false draws old now s

-- The inum where the name is found: elsewhere the code leaves some other number behind.
abbrev pub look_in : List ℕ → Extent.Status × List ℕ × Server → YfsStatus × Option ℕ × Server
look_in name (Extent.ok, buf, s) = elim (dir_find buf name) [
  | none ↦ (noent, none, s)
  | some (inum, off, len) ↦ (ok, some inum, s)
]
look_in name (ext, buf, s) = (ext2yfs noent ext, none, s)

pub lookup : LockServer.Status → ℕ → List ℕ → ℕ → Server → YfsStatus × Option ℕ × Server
lookup LockServer.ok parent name now s = look_in name (get parent [] now s)
lookup loc parent name now s = (stat2yfs noent Extent.ioerr loc, none, s)

-- `buf.erase(off, len)`, which throws behind the end
abbrev pub erased : ℕ → ℕ → List ℕ → Option (List ℕ)
erased off len buf =
    if leb off (length buf) then some (take off buf ++ drop (off + len) buf) else none

-- After the removal of the extent: the entry's line is erased, but not its newline.
abbrev pub remove_line :
    ℕ → ℕ → ℕ → List ℕ → ℕ → Extent.Status × Server → Option (YfsStatus × Server)
remove_line parent off len buf now (Extent.ok, s) = elim (erased off len buf) [
  | none ↦ none
  | some b ↦ some (ok, (put parent b now s).1)
]
remove_line parent off len buf now (ext, s) = some (ext2yfs noent ext, s)

-- The second lock is the one of the entry's inum.
abbrev pub remove_found :
    LockServer.Status → ℕ → ℕ × ℕ × ℕ → List ℕ → ℕ → Server → Option (YfsStatus × Server)
remove_found LockServer.ok parent (inum, off, len) buf now s =
    remove_line parent off len buf now (remove inum s)
remove_found loc parent found buf now s = some (stat2yfs ioerr Extent.ok loc, s)

abbrev pub remove_in :
    LockServer.Status
    → ℕ
    → List ℕ
    → ℕ
    → Extent.Status × List ℕ × Server
    → Option (YfsStatus × Server)
remove_in loc parent name now (Extent.ok, buf, s) = elim (dir_find buf name) [
  | none ↦ some (ioerr, s)
  | some found ↦ remove_found loc parent found buf now s
]
remove_in loc parent name now (ext, buf, s) = some (ext2yfs ioerr ext, s)

-- `loc` is the answer for the directory's lock and `loc'` for the entry's.
pub remove_entry :
    LockServer.Status → LockServer.Status → ℕ → List ℕ → ℕ → Server → Option (YfsStatus × Server)
remove_entry LockServer.ok loc' parent name now s =
    remove_in loc' parent name now (get parent [] now s)
remove_entry loc loc' parent name now s = some (stat2yfs ioerr Extent.ioerr loc, s)
