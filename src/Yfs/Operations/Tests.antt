-- ===== src/Yfs/Operations/Tests.antt =====
-- The creation of files, and the theorems on it at concrete inputs.
use y_f_s.Base.{
  ℕ, ◌^◌, ◌≡◌, refl, true, some, [], ◌∷◌, lookup as assoc_lookup, insert, lookup-insert, length,
  arith,
}
use y_f_s.Yfs.Operations.Files.{read, write, getfile, resize_file, read-write, getfile-resize_file}
use y_f_s.Extent.{Attr, Store, Server, get, key}
use y_f_s.Extent
use y_f_s.Extent.Access.{put_store}
use y_f_s.Lock.Server as LockServer
use y_f_s.Base.{◌++◌, none}
use y_f_s.Yfs.Directory.{append_entry}
use y_f_s.Yfs.Operations.{remove_entry, noent}
use y_f_s.Yfs.Operations.Remove.{lookup-remove_entry}
use y_f_s.Yfs.Directory.Entries.{empty-IsDir, dir_find-empty}
use y_f_s.Yfs.Operations.{ok, isfile, new_inum, dir_add_entry, lookup}
use y_f_s.Yfs.Operations.Create.{create-lookup}

abbrev inum : ℕ
inum = 2147483653

-- Only the root directory, which is empty
abbrev disk : Server
disk = insert 1 (put_store [] 0) []

root_found : assoc_lookup (key 1) disk ≡ some (put_store [] 0)
root_found = ground (arith, lookup-insert 1 1 (put_store [] 0) [])

drawn : new_inum 1 true (5 ∷ []) ≡ some inum
unfolding new_inum
drawn = refl

create-lookup_example :
    (s' : Server) × (dir_add_entry LockServer.ok 1 (97 ∷ []) true (5 ∷ []) 0 8 disk
      ≡ some (ok, inum, s'))
    × ((lookup LockServer.ok 1 (97 ∷ []) 9 s').0 ≡ ok)
    × ((lookup LockServer.ok 1 (97 ∷ []) 9 s').1 ≡ some inum)
    × ((get inum [] 9 s').0 ≡ Extent.ok)
    × ((get inum [] 9 s').1 ≡ [])
    × (isfile inum ≡ true)
create-lookup_example =
    create-lookup 1 (97 ∷ []) true (5 ∷ []) 0 8 9 inum disk (put_store [] 0) (omega arith)
      root_found empty-IsDir (refl, tt) (refl, tt) (dir_find-empty (97 ∷ [])) drawn

-- A file of two bytes
abbrev with_file : Server
with_file = insert 9 (put_store (1 ∷ 2 ∷ []) 0) []

file_found : assoc_lookup (key 9) with_file ≡ some (put_store (1 ∷ 2 ∷ []) 0)
file_found = ground (arith, lookup-insert 9 9 (put_store (1 ∷ 2 ∷ []) 0) [])

read-write_example :
    (s' : Server) × (write (2 ^ 30) LockServer.ok 9 (7 ∷ []) 4 8 with_file ≡ some (ok, 1, s'))
    × ((read 9 1 4 9 s').0 ≡ ok)
    × ((read 9 1 4 9 s').1 ≡ 7 ∷ [])
read-write_example =
    read-write (2 ^ 30) 9 4 8 9 (7 ∷ []) with_file (put_store (1 ∷ 2 ∷ []) 0) file_found
      (omega arith) (omega arith) (omega arith)

getfile-resize_file_example :
    (s' : Server) × (a : Attr) × (e' : Store) × (resize_file (2 ^ 30) LockServer.ok 9 5 8 with_file
      ≡ some (ok, s'))
    × (getfile LockServer.ok 9 s' ≡ (ok, some a, s'))
    × (a.size ≡ 5)
    × (assoc_lookup (key 9) s' ≡ some e')
    × (length e'.buf ≡ 5)
getfile-resize_file_example =
    getfile-resize_file (2 ^ 30) 9 5 8 with_file (put_store (1 ∷ 2 ∷ []) 0) file_found (omega arith)

-- A directory with one entry, `a` for the inum 7
abbrev full : Server
full = insert 1 (put_store (append_entry [] (97 ∷ []) 7 ++ []) 0) (insert 7 (put_store [] 0) [])

full_dir : assoc_lookup (key 1) full ≡ some (put_store (append_entry [] (97 ∷ []) 7 ++ []) 0)
full_dir = ground (
  arith,
  lookup-insert 1 1 (put_store (append_entry [] (97 ∷ []) 7 ++ []) 0)
      (insert 7 (put_store [] 0) []),
)

full_file : assoc_lookup (key 7) full ≡ some (put_store [] 0)
full_file = ground (
  arith,
  lookup-insert 1 7 (put_store (append_entry [] (97 ∷ []) 7 ++ []) 0)
      (insert 7 (put_store [] 0) []),
  lookup-insert 7 7 (put_store [] 0) [],
)

lookup-remove_entry_example :
    (s' : Server) × (remove_entry LockServer.ok LockServer.ok 1 (97 ∷ []) 8 full ≡ some (ok, s'))
    × (assoc_lookup (key 7) s' ≡ none)
    × ((lookup LockServer.ok 1 (97 ∷ []) 9 s').0 ≡ noent)
lookup-remove_entry_example =
    lookup-remove_entry 1 [] [] (97 ∷ []) 7 8 9 full
      (put_store (append_entry [] (97 ∷ []) 7 ++ []) 0) (put_store [] 0) full_dir full_file
      (λ e. absurd (ground (arith, e))) refl empty-IsDir (refl, tt) (refl, tt) (omega arith)
      (dir_find-empty (97 ∷ [])) (dir_find-empty (97 ∷ []))
