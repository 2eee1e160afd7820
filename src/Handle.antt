-- ===== src/Handle.antt =====
-- handle.cc and handle.h: the table of bound clients that handles share. Each function is a method
-- under its mutex. A `hinfo` is reached by its address, in the heap; a destination, which is a
-- string, and a client are numbers.
pub mod Counted
pub mod Uses
mod Tests
use y_f_s.Base.{
  ℕ, ◌+◌, ◌-◌, Bool, true, false, ◌&&◌, Option, none, some, List, [], ◌∷◌, ◌==◌, if◌then◌else◌,
  Table, lookup, insert, erase,
}

pub record Info : Type 0 where
  pub cl : Option ℕ
  pub refcnt : ℕ
  pub del : Bool
  pub m : ℕ

pub record Manager : Type 0 where
  pub hmap : Table ℕ
  pub heap : Table Info

abbrev pub new_manager : Manager
new_manager = record { hmap = []; heap = [] }

abbrev pub store : ℕ → Info → Manager → Manager
store a h s = record s { heap = insert a h s.heap }

-- `get_handle`, where `fresh` is the address that `new` returns. `none` in the inner result is the
-- null pointer; the outer one is a read of a `hinfo` that is gone.
pub reuse : ℕ → Option Info → Manager → Option (Option ℕ × Manager)
reuse a none s = none
reuse a (some h) s =
    if h.del then some (none, s) else some (some a, store a (record h { refcnt = h.refcnt + 1 }) s)

pub get_handle : ℕ → ℕ → Manager → Option (Option ℕ × Manager)
unfolding reuse
get_handle fresh m s = elim (lookup m s.hmap) [
  | none ↦ some (
    some fresh,
    record {
      hmap = insert m fresh s.hmap;
      heap = insert fresh (record { cl = none; refcnt = 1; del = false; m = m }) s.heap;
    },
  )
  | some a ↦ reuse a (lookup a s.heap) s
]

-- `delete_handle_wo`; the first result is the client that it cancels and deletes.
pub delete_at : ℕ → ℕ → Option Info → Manager → Option (Option ℕ × Manager)
delete_at m a none s = none
delete_at m a (some h) s =
    if h.refcnt == 0
    then some (h.cl, record { hmap = erase m s.hmap; heap = erase a s.heap })
    else some (none, store a (record h { del = true }) s)

pub delete_handle : ℕ → Manager → Option (Option ℕ × Manager)
unfolding delete_at
delete_handle m s = elim (lookup m s.hmap) [
  | none ↦ some (none, s)
  | some a ↦ delete_at m a (lookup a s.heap) s
]

-- `done_handle`, on the address in a handle.
pub done_at : ℕ → Option Info → Manager → Option (Option ℕ × Manager)
unfolding delete_handle
done_at a none s = none
done_at a (some h) s =
    let s' = store a (record h { refcnt = h.refcnt - 1 }) s in
    if (h.refcnt - 1 == 0) && h.del then delete_handle h.m s' else some (none, s')

pub done_handle : ℕ → Manager → Option (Option ℕ × Manager)
unfolding done_at
done_handle a s = done_at a (lookup a s.heap) s

-- `safebind`, on a handle that is not null: `bound` is a new client whose `bind` succeeded, if it
-- did. The inner result is the client, or the null pointer.
pub bind_at : ℕ → Option ℕ → Info → Manager → Option ℕ × Manager
bind_at a none h s = (h.cl, store a (record h { del = true }) s)
bind_at a (some c) h s = (some c, store a (record h { cl = some c }) s)

pub safebind_at : ℕ → Option ℕ → Option Info → Manager → Option (Option ℕ × Manager)
unfolding bind_at
safebind_at a bound none s = none
safebind_at a bound (some h) s =
    if h.del
    then some (none, s)
    else elim h.cl [ none ↦ some (bind_at a bound h s) | some c ↦ some (some c, s) ]

pub safebind : ℕ → Option ℕ → Manager → Option (Option ℕ × Manager)
unfolding safebind_at
safebind a bound s = safebind_at a bound (lookup a s.heap) s
