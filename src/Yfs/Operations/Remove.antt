-- ===== src/Yfs/Operations/Remove.antt =====
-- Removed files of yfs_client.cc: `remove`, and `lookup` after it.
use y_f_s.Base.{
  ℕ, ◌^◌, ◌<◌, ◌≡◌, ◌≢◌, refl, ap, ◌∙◌, true, none, some, List, [], ◌∷◌, ◌++◌, length, leb,
  lookup as assoc_lookup, insert, lookup-insert, arith,
}
use y_f_s.Extent.{Store, Server, u32, key, get, put, remove}
use y_f_s.Extent
use y_f_s.Extent.Access.{get-found, lookup-put, lookup-remove, remove-found, put_store}
use y_f_s.Lock.Server as LockServer
use y_f_s.Yfs.Directory.{dir_find, append_entry, newline, colon}
use y_f_s.Yfs.Directory.Lines.{Lacks}
use y_f_s.Yfs.Directory.Entries.{IsDir, entry_line}
use y_f_s.Yfs.Directory.Blanks.{dir_find-erased, length-append_entry-le}
use y_f_s.Yfs.Operations.{ok, noent, erased, remove_line, remove_in, remove_entry, look_in, lookup}

remove_line-ok :
    (parent off len : ℕ) (buf left : List ℕ) (now : ℕ) (r : Extent.Status × Server)
    → r.0 ≡ Extent.ok
    → erased off len buf ≡ some left
    → remove_line parent off len buf now r ≡ some (ok, (put parent left now r.1).1)
remove_line-ok parent off len buf left now (Extent.ok, s) h e = rw (e, remove_line) refl
remove_line-ok parent off len buf left now (Extent.rpcerr, s) h e = absurd (ground (arith, h))
remove_line-ok parent off len buf left now (Extent.noent, s) h e = absurd (ground (arith, h))
remove_line-ok parent off len buf left now (Extent.ioerr, s) h e = absurd (ground (arith, h))

-- In a parent directory of ended lines that are empty or entries, then the entry of `name`, and then
-- the text `more`, where `name` has no colon or newline and is found in neither part, and the entry's
-- extent exists and is not the parent's: if both locks are had, `remove` succeeds, the extent is gone,
-- and a lookup of the name, if the lock is had, answers NOENT.
pub lookup-remove_entry :
    (parent : ℕ) (text more name : List ℕ) (inum now later : ℕ) (s : Server) (e f : Store)
    → assoc_lookup (key parent) s ≡ some e
    → assoc_lookup (key inum) s ≡ some f
    → key inum ≢ key parent
    → e.buf ≡ append_entry text name inum ++ more
    → IsDir text
    → Lacks colon name
    → Lacks newline name
    → inum < 2 ^ 64
    → dir_find text name ≡ none
    → dir_find more name ≡ none
    → (s' : Server) × (remove_entry LockServer.ok LockServer.ok parent name now s ≡ some (ok, s'))
      × (assoc_lookup (key inum) s' ≡ none)
      × ((lookup LockServer.ok parent name later s').0 ≡ noent)
unfolding remove_entry lookup
lookup-remove_entry parent text more name inum now later s e f p q ne b d c n small before behind =
    let gone = dir_find-erased text more name inum d c n small before behind in
    let buf = append_entry text name inum ++ more in
    let left = text ++ (newline ∷ more) in
    let s1 = insert (key parent) (record e { a = record e.a { atime = u32 now } }) s in
    let s2 = (remove inum s1).1 in
    let s' = (put parent left now s2).1 in
    let there : assoc_lookup (key inum) s1 ≡ some f = ground (
      arith,
      q,
      ne,
      lookup-insert (key parent) (key inum) (record e { a = record e.a { atime = u32 now } }) s,
    ) in
    let cut : erased (length text) (length (entry_line name inum)) buf ≡ some left =
      let within : leb (length text) (length buf) ≡ true =
        (let le = length-append_entry-le text more name inum in ground (arith, le)) in
      rw within (ap some gone.1) in
    (
      s',
      ap (remove_in LockServer.ok parent name now) (get-found parent [] now s e p)
          ∙ ap (λ x. remove_in LockServer.ok parent name now (Extent.ok, x, s1)) b
          ∙ rw (gone.0, remove_in)
              (remove_line-ok parent _ _ buf left now (remove inum s1)
                (remove-found inum s1 f there) cut),
      ground
          (arith, ne, lookup-put parent (key inum) left now s2, lookup-remove inum (key inum) s1),
      ap (λ g. (look_in name g).0)
            (get-found parent [] later s' (put_store left now)
              (ground (arith, lookup-put parent (key parent) left now s2)))
          ∙ rw (gone.2, look_in) refl,
    )
