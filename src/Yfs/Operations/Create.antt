-- ===== src/Yfs/Operations/Create.antt =====
-- New files of yfs_client.cc: `new_inum` and `dir_add_entry`, and `lookup` after them.
use y_f_s.Base.{
  ℕ, ◌+◌, ◌%◌, ◌^◌, ◌<◌, ◌≡◌, ◌≢◌, refl, ap, ◌∙◌, Bool, true, false, ◌||◌, none, some, List, [],
  ◌∷◌, leb, ◌==◌, Bool-cases, inl, inr, lookup as assoc_lookup, insert, arith,
}
use y_f_s.Extent.{Store, Server, u32, key, get, put}
use y_f_s.Extent
use y_f_s.Extent.Access.{get-found, lookup-put, put_store}
use y_f_s.Lock.Server as LockServer
use y_f_s.Yfs.Directory.{dir_find, append_entry, newline, colon}
use y_f_s.Yfs.Directory.Lines.{Lacks}
use y_f_s.Yfs.Directory.Entries.{IsDir, dir_find-append_entry}
use y_f_s.Yfs.Operations.{ok, isfile, new_inum, add_new, add_entry, dir_add_entry, look_in, lookup}

-- An inum that the loop returns, whatever is drawn, is not the parent's, is neither 0 nor 1, has
-- the file bit exactly for a file, and is below 2 ^ 32.
pub new_inum_right :
    (parent : ℕ) (file : Bool) (draws : List ℕ) (inum : ℕ)
    → new_inum parent file draws ≡ some inum
    → (inum ≢ parent) × (1 < inum) × (isfile inum ≡ file) × (inum < 2 ^ 32)
unfolding new_inum
new_inum_right parent file [] inum h = absurd (ground (arith, h))
new_inum_right parent true (r ∷ draws) inum h =
    elim (Bool-cases ((r % 2 ^ 31 + 2 ^ 31 == parent) || leb (r % 2 ^ 31 + 2 ^ 31) 1)) [
      | inl e ↦ new_inum_right parent true draws inum (rw (e, new_inum) at h)
      | inr e ↦
          let is : some (r % 2 ^ 31 + 2 ^ 31) ≡ some inum = rw (e, new_inum) at h in
          ground (arith, e, is)
    ]
new_inum_right parent false (r ∷ draws) inum h =
    elim (Bool-cases ((r % 2 ^ 31 == parent) || leb (r % 2 ^ 31) 1)) [
      | inl e ↦ new_inum_right parent false draws inum (rw (e, new_inum) at h)
      | inr e ↦
          let is : some (r % 2 ^ 31) ≡ some inum = rw (e, new_inum) at h in ground (arith, e, is)
    ]

-- In a parent directory with an inum below 2 ^ 32 whose lock is had and whose lines are all
-- ended, and empty or entries, a name without a colon or newline that is not found there is added
-- with the inum that the loop returns; a lookup, when the lock is had again, then finds the name
-- with this inum, whose extent exists and is empty, and whose file bit is the kind that was asked
-- for.
pub create-lookup :
    (parent : ℕ) (name : List ℕ) (file : Bool) (draws : List ℕ) (old now later inum : ℕ)
    (s : Server) (e : Store)
    → parent < 2 ^ 32
    → assoc_lookup (key parent) s ≡ some e
    → IsDir e.buf
    → Lacks colon name
    → Lacks newline name
    → dir_find e.buf name ≡ none
    → new_inum parent file draws ≡ some inum
    → (s' : Server) × (dir_add_entry LockServer.ok parent name file draws old now s
        ≡ some (ok, inum, s'))
      × ((lookup LockServer.ok parent name later s').0 ≡ ok)
      × ((lookup LockServer.ok parent name later s').1 ≡ some inum)
      × ((get inum [] later s').0 ≡ Extent.ok)
      × ((get inum [] later s').1 ≡ [])
      × (isfile inum ≡ file)
unfolding dir_add_entry lookup
create-lookup parent name file draws old now later inum s e p f d c n missing drawn =
    let right = new_inum_right parent file draws inum drawn in
    let s1 = insert (key parent) (record e { a = record e.a { atime = u32 now } }) s in
    let s2 = (put inum [] now s1).1 in
    let buf = append_entry e.buf name inum in
    let s' = (put parent buf now s2).1 in
    let added = dir_find-append_entry e.buf name inum d c n (omega (arith, right.3)) missing in
    let dir : assoc_lookup (key parent) s' ≡ some (put_store buf now) =
      ground (arith, lookup-put parent (key parent) buf now s2) in
    let new : assoc_lookup (key inum) s' ≡ some (put_store [] now) = ground (
      arith,
      right,
      p,
      lookup-put parent (key inum) buf now s2,
      lookup-put inum (key inum) [] now s1,
    ) in
    let got = get-found parent [] later s' (put_store buf now) dir in
    let opened = get-found inum [] later s' (put_store [] now) new in
    let found = added.0 in
    (
      s',
      ap (add_entry parent name file draws old now) (get-found parent [] now s e f)
          ∙ rw (missing, add_entry) (ap (λ i. add_new parent name e.buf i now s1) drawn),
      ap (λ g. (look_in name g).0) got ∙ rw (found, look_in) refl,
      ap (λ g. (look_in name g).1) got ∙ rw (found, look_in) refl,
      ap (λ g. g.0) opened,
      ap (λ g. g.1) opened,
      right.2,
    )
