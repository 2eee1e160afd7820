-- ===== src/Rpc/ReplyWindow.antt =====
-- rpc/rpc.cc, `rpcs::checkduplicate_and_update` and `rpcs::add_reply`:
-- not read by the code. A reply buffer is its bytes. A result is `fault` where the code reads
-- through the end iterator of the list, which is undefined.
pub mod InOrder
pub mod AtMostOnce
pub mod Reordered
mod Tests
use y_f_s.Base.{
  ℕ, ◌+◌, ◌%◌, ◌^◌, Bool, true, false, ◌&&◌, Option, none, some, List, [], ◌∷◌, ◌++◌, map, ltb,
  ◌==◌, if◌then◌else◌, Table, lookup, insert,
}

pub data RpcState : Type 0 where
  new : RpcState
  in_progress : RpcState
  done : RpcState
  forgotten : RpcState

-- `reply_t`
pub record Reply : Type 0 where
  pub xid : ℕ
  pub cb_present : Bool
  pub buf : List ℕ
  pub sz : ℕ

-- The constructor of `reply_t`: no reply yet.
abbrev pub new_reply : ℕ → Reply
new_reply xid = record { xid = xid; cb_present = false; buf = []; sz = 0 }

-- The answer, what `*b` and `*sz` were set to (`none`: they were not), and the new window.
pub data Check : Type 0 where
  fault : Check
  ok : RpcState → Option (List ℕ × ℕ) → List Reply → Check

abbrev pub front_xid : List Reply → ℕ
front_xid [] = 0
front_xid (r ∷ rs) = r.xid

abbrev pub back_xid : List Reply → ℕ
back_xid [] = 0
back_xid (r ∷ []) = r.xid
back_xid (r ∷ s ∷ rs) = back_xid (s ∷ rs)

-- `while (reply_iter == begin()) if (…) erase else break;`. The iterator `reply_iter_after`, whose
-- xid is the first argument, stays where it was.
pub move_window : ℕ → List Reply → List Reply
move_window after [] = []
move_window after (r ∷ rs) =
    if r.cb_present && (after == (r.xid + 1) % 2 ^ 32) then move_window after rs else r ∷ rs

-- The tests of one round, at `r` with `pre` before it and `rest` behind; `after` is the xid at
-- `reply_iter_after`, `none` at the end of the list, and `next` is the rest of the loop.
pub visit : ℕ → List Reply → Reply → Option ℕ → List Reply → Check → Check
visit xid pre r after rest next =
    let window = pre ++ r ∷ rest in
    if ltb xid (front_xid window)
    then ok forgotten none window
    else if xid == r.xid
    then (if r.cb_present then ok done (some (r.buf, r.sz)) window else ok in_progress none window)
    else if ltb r.xid xid
    then elim after [
      | none ↦ fault
      | some a ↦ if ltb xid a then ok new none (pre ++ new_reply xid ∷ r ∷ rest) else next
    ]
    else next

abbrev pub next_xid : List Reply → Option ℕ
next_xid [] = none
next_xid (a ∷ rest) = some a.xid

-- The rounds after the first. At the end of the loop `xidcheck` is still `DONE`.
pub scan : ℕ → List Reply → List Reply → Check
scan xid pre [] = ok done none pre
scan xid pre (r ∷ rest) = visit xid pre r (next_xid rest) rest (scan xid (pre ++ r ∷ []) rest)

-- The first round after the window has moved.
pub scan_moved : ℕ → ℕ → List Reply → Check
scan_moved xid after [] = fault
scan_moved xid after (r ∷ rest) = visit xid [] r (some after) rest (scan xid (r ∷ []) rest)

-- The loop over the window. In a list of one entry `reply_iter_after` is the end, and is read if
-- the reply is present.
pub scan_window : ℕ → List Reply → Check
scan_window xid [] = ok done none []
scan_window xid (r ∷ []) =
    if r.cb_present then fault else visit xid [] r none [] (scan xid (r ∷ []) [])
scan_window xid (r ∷ a ∷ rest) = scan_moved xid a.xid (move_window a.xid (r ∷ a ∷ rest))

-- A window that is empty gets the entry 0, with an empty reply.
abbrev pub start_window : List Reply → List Reply
start_window [] = record (new_reply 0) { cb_present = true } ∷ []
start_window (r ∷ rs) = r ∷ rs

check_started : ℕ → List Reply → Check
check_started xid w =
    if ltb (back_xid w) xid
    then (let pushed = w ++ new_reply xid ∷ [] in
        ok (if ltb xid (front_xid pushed) then forgotten else new) none pushed)
    else if ltb xid (front_xid w)
    then ok forgotten none w
    else scan_window xid w

pub checkduplicate : ℕ → List Reply → Check
unfolding check_started
checkduplicate xid w = check_started xid (start_window w)

-- `rpcs::add_reply`, on the window of one client.
pub add_reply : ℕ → List ℕ → ℕ → List Reply → List Reply
add_reply xid b sz [] = []
add_reply xid b sz (r ∷ rs) =
    (if xid == r.xid then record r { buf = b; sz = sz; cb_present = true } else r)
    ∷ add_reply xid b sz rs
