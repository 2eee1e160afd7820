-- ===== src/Extent/Sizes.antt =====
-- The size attribute of an extent, which extent_server.cc stores beside the contents.
use y_f_s.Base.{
  ℕ, ◌≤◌, ◌≡◌, refl, inl, inr, Option, none, some, List, [], length, ltb, if◌then◌else◌, lookup,
  insert, erase, lookup-insert, lookup-erase, arith, Option-cases, Bool-cases,
}
use y_f_s.Extent.{
  Status, ok, Store, Server, u32, key, put, get, getattr, remove, resize, resized, putbuf, splice,
  getbuf,
}
use y_f_s.Extent.Bytes.{length-resized}
use y_f_s.Extent.History.{
  Call, call_put, call_get, call_getattr, call_remove, call_resize, call_putbuf, call_getbuf,
  plain?, step,
}

-- Every extent's size attribute is the number of its bytes.
abbrev pub HasSizes : Server → Type 0
HasSizes s = (j : ℕ) (e : Store) → lookup j s ≡ some e → e.a.size ≡ u32 (length e.buf)

insert-HasSizes :
    (k : ℕ) (v : Store) (s : Server)
    → HasSizes s
    → v.a.size ≡ u32 (length v.buf)
    → HasSizes (insert k v s)
insert-HasSizes k v s h v_size j e f = ground (arith, lookup-insert k j v s, h j e)

erase-HasSizes : (k : ℕ) (s : Server) → HasSizes s → HasSizes (erase k s)
erase-HasSizes k s h j e f = ground (arith, lookup-erase k j s, h j e)

abbrev IsNotResize : Call → Type 0
IsNotResize (call_resize id n) = ⊥
IsNotResize _ = Unit

-- Where the call returns, the state it leaves.
abbrev pub Leaves {ℓ} : {A : Type ℓ} → (Server → Type 0) → Option (A × Server) → Type 0
Leaves P none = Unit
Leaves P (some (a, s)) = P s

get-HasSizes :
    (id : ℕ) (old : List ℕ) (now : ℕ) (s : Server) → HasSizes s → HasSizes (get id old now s).2
unfolding get
get-HasSizes id old now s h = elim (Option-cases (lookup (key id) s)) [
  | inl f ↦ rw (f, get) h
  | inr (e, f) ↦ rw (f, get) (insert-HasSizes (key id) _ s h (h (key id) e f))
]

remove-HasSizes : (id : ℕ) (s : Server) → HasSizes s → HasSizes (remove id s).1
unfolding remove
remove-HasSizes id s h = elim (Option-cases (lookup (key id) s)) [
  | inl f ↦ rw (f, remove) h
  | inr (e, f) ↦ rw (f, remove) (erase-HasSizes (key id) s h)
]

getattr-HasSizes : (id : ℕ) (s : Server) → HasSizes s → HasSizes (getattr id s).2
unfolding getattr
getattr-HasSizes id s h = elim (Option-cases (lookup (key id) s)) [
  | inl f ↦ rw (f, getattr) h
  | inr (e, f) ↦ rw (f, getattr) h
]

putbuf-HasSizes :
    (max_size id off : ℕ) (bs : List ℕ) (now : ℕ) (s : Server)
    → HasSizes s
    → Leaves HasSizes (putbuf max_size id off bs now s)
unfolding putbuf
putbuf-HasSizes m id off bs now s h = elim (Option-cases (lookup (key id) s)) [
  | inl f ↦ rw (f, putbuf) h
  | inr (e, f) ↦ elim (Option-cases (splice m off bs e.buf)) [
    | inl g ↦ rw (f, putbuf) (rw (g, putbuf) tt)
    | inr (b, g) ↦ rw (f, putbuf) (rw (g, putbuf) (insert-HasSizes (key id) _ s h refl))
  ]
]

getbuf-HasSizes :
    (id size off : ℕ) (old : List ℕ) (now : ℕ) (s : Server)
    → HasSizes s
    → HasSizes (getbuf id size off old now s).2
unfolding getbuf
getbuf-HasSizes id size off old now s h = elim (Option-cases (lookup (key id) s)) [
  | inl f ↦ rw (f, getbuf) h
  | inr (e, f) ↦ elim (Bool-cases (ltb off (length e.buf))) [
    | inl g ↦ rw (f, getbuf) (rw (g, getbuf) (insert-HasSizes (key id) _ s h (h (key id) e f)))
    | inr g ↦ rw (f, getbuf) (rw (g, getbuf) h)
  ]
]

plain?-HasSizes : (o : Option (Status × Server)) → Leaves HasSizes o → Leaves HasSizes (plain? o)
plain?-HasSizes none h = h
plain?-HasSizes (some p) h = h

-- If each extent's size attribute is the number of its bytes, as an `unsigned int`, then this is
-- still so after every call but `resize`, if the call returns.
pub step-HasSizes :
    (max_size now : ℕ) (c : Call) (s : Server)
    → IsNotResize c
    → HasSizes s
    → Leaves HasSizes (step max_size now c s)
unfolding step put
step-HasSizes m now (call_put id buf) s n h = insert-HasSizes (key id) _ s h refl
step-HasSizes m now (call_get id) s n h = get-HasSizes id [] now s h
step-HasSizes m now (call_getattr id) s n h = getattr-HasSizes id s h
step-HasSizes m now (call_remove id) s n h = remove-HasSizes id s h
step-HasSizes m now (call_resize id size) s n h = elim n [ ]
step-HasSizes m now (call_putbuf id off buf) s n h =
    plain?-HasSizes _ (putbuf-HasSizes m id off buf now s h)
step-HasSizes m now (call_getbuf id size off) s n h = getbuf-HasSizes id size off [] now s h

-- `resize` of an extent that exists to a size of at most `max_size` succeeds and leaves an extent
-- of this size, but `getattr` still tells the size attribute from before.
pub resize_stale :
    (max_size id n now later : ℕ) (s : Server) (e : Store)
    → lookup (key id) s ≡ some e
    → n ≤ max_size
    → (s' : Server) × (resize max_size id n now later s ≡ some (ok, s'))
      × ((getattr id s').1.size ≡ e.a.size)
      × ((e' : Store) × (lookup (key id) s' ≡ some e') × (length e'.buf ≡ n))
unfolding resize getattr
resize_stale max_size id n now later s e f m =
    let a = if ltb n (length e.buf) then record e.a { mtime = u32 now } else e.a in
    let e' : Store = record { buf = resized n e.buf; a = record a { ctime = u32 later } } in
    let found = lookup-insert (key id) (key id) e' s in
    (
      insert (key id) e' s,
      ground (arith, f, m),
      ground (arith, found),
      (e', ground (arith, found), length-resized n e.buf),
    )
