-- ===== src/Rpc/ReplyWindow/Reordered.antt =====
-- What `rpcs::checkduplicate_and_update` does when a request arrives after a later one: the new
-- entry is inserted before `reply_iter`, and `reply_iter_after` is stale after the window moved.
use y_f_s.Base.{
  ℕ, ◌+◌, ◌^◌, ◌<◌, ◌≤◌, ◌≡◌, true, false, List, [], ◌∷◌, ◌++◌, append-nil, append_assoc, All,
  arith, none,
}
use y_f_s.Rpc.ReplyWindow.{
  new, done, Reply, new_reply, ok, back_xid, move_window, visit, scan, scan_moved, scan_window,
  checkduplicate,
}

-- On a window that begins with `a`, `b` and `c` in ascending order, `a` without its reply, a late
-- request `y` between `b` and `c` is answered NEW but put before `b`, and a copy of the request
-- `b`, which was seen before, is then answered NEW.
pub late_request_repeats :
    (a b c : Reply) (rest : List Reply) (y : ℕ)
    → a.cb_present ≡ false
    → a.xid < b.xid
    → b.xid < y
    → y < c.xid
    → c.xid ≤ back_xid (c ∷ rest)
    → let w = a ∷ new_reply y ∷ b ∷ c ∷ rest in
      (checkduplicate y (a ∷ b ∷ c ∷ rest) ≡ ok new none w)
      × (checkduplicate b.xid w ≡ ok new none (new_reply b.xid ∷ w))
unfolding checkduplicate scan_window scan_moved move_window visit scan
late_request_repeats a b c rest y p h k l m = (ground arith, ground arith)

scan_above :
    (y : ℕ) (p : Reply) (pre rest : List Reply)
    → p.xid ≤ y
    → All (λ r. y < r.xid) rest
    → scan y (p ∷ pre) rest ≡ ok done none (p ∷ pre ++ rest)
unfolding scan visit
scan_above y p pre [] h k = rw append-nil
scan_above y p pre (r ∷ rest) h k =
    ground (arith, scan_above y p (pre ++ r ∷ []) rest h k.1, append_assoc pre (r ∷ []) rest)

-- On a window that begins with `a`, which has its reply, and its successor `b`, followed by xids
-- above `y` only, a late request `y` above `b` that never came before is answered DONE with `*b`
-- and `*sz` not set.
pub late_request_unset :
    (a b c : Reply) (rest : List Reply) (y : ℕ)
    → a.cb_present ≡ true
    → b.xid ≡ a.xid + 1
    → b.xid < 2 ^ 32
    → b.xid < y
    → All (λ r. y < r.xid) (c ∷ rest)
    → c.xid ≤ back_xid (c ∷ rest)
    → checkduplicate y (a ∷ b ∷ c ∷ rest) ≡ ok done none (b ∷ c ∷ rest)
unfolding checkduplicate scan_window scan_moved move_window visit
late_request_unset a b c rest y p h s k l m = ground (arith, scan_above y b [] (c ∷ rest))
