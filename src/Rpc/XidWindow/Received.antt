-- ===== src/Rpc/XidWindow/Received.antt =====
-- What `rpcc::update_xid_rep` does to the set of the xids that a window records, for one reply and
-- for any history of replies.
use y_f_s.Base.{
  ℕ, ◌+◌, ◌^◌, ◌<◌, ◌≤◌, ◌≡◌, refl, ◌∙◌, true, false, ◌||◌, List, [], ◌∷◌, elem, ◌==◌, arith,
}
use native.Mathlib.Decide.{dec_le}
use y_f_s.Rpc.XidWindow.{
  new_window, insert_xid, compress_from, update_xid_rep, front, has, From, Small, IsWindow,
}
use y_f_s.Rpc.XidWindow.Compress.{Compressed, compress_from-Compressed}

elem-insert_xid : (r xid : ℕ) (xs : List ℕ) → elem r (insert_xid xid xs) ≡ ((xid == r) || elem r xs)
unfolding insert_xid
elem-insert_xid r xid [] = refl
elem-insert_xid r xid (x ∷ xs) = ground (arith, elem-insert_xid r xid xs)

From-insert_xid : (lo xid : ℕ) (xs : List ℕ) → lo ≤ xid → From lo xs → From lo (insert_xid xid xs)
unfolding insert_xid
From-insert_xid lo xid [] h s = (h, tt)
From-insert_xid lo xid (x ∷ xs) h s = ground (arith, From-insert_xid x xid xs)

Small-insert_xid : (xid : ℕ) (xs : List ℕ) → xid < 2 ^ 32 → Small xs → Small (insert_xid xid xs)
unfolding insert_xid
Small-insert_xid xid [] h s = (h, tt)
Small-insert_xid xid (x ∷ xs) h s = ground (arith, Small-insert_xid xid xs)

-- A larger xid is inserted behind the front, and the loop starts there.
update_behind :
    (xid p : ℕ) (ps : List ℕ)
    → p < xid
    → update_xid_rep xid (p ∷ ps) ≡ compress_from (p ∷ []) (insert_xid xid ps)
unfolding update_xid_rep
update_behind xid p ps h = ground arith

update_behind-Compressed :
    (xid p : ℕ) (ps : List ℕ)
    → p < xid
    → xid < 2 ^ 32
    → IsWindow (p ∷ ps)
    → Compressed (p ∷ insert_xid xid ps) (update_xid_rep xid (p ∷ ps))
update_behind-Compressed xid p ps h b v = rw (update_behind xid p ps h) (
    compress_from-Compressed p [] (insert_xid xid ps)
      (omega arith, From-insert_xid p xid ps (omega arith) v.sorted.1)
      (v.small.0, Small-insert_xid xid ps b v.small.1) refl)

-- A smaller or equal xid changes nothing.
update_below : (xid p : ℕ) (ps : List ℕ) → xid ≤ p → update_xid_rep xid (p ∷ ps) ≡ p ∷ ps
unfolding update_xid_rep
update_below xid p ps h = ground arith

-- A window that is not empty, ascending, of xids below 2 ^ 32 and without the successor of its
-- front is again such a window after a reply with any xid below 2 ^ 32.
pub update_xid_rep-IsWindow :
    (xid : ℕ) (w : List ℕ) → xid < 2 ^ 32 → IsWindow w → IsWindow (update_xid_rep xid w)
update_xid_rep-IsWindow xid [] b v = absurd (v.inhabited refl)
update_xid_rep-IsWindow xid (p ∷ ps) b v = elim (dec_le xid p) [
  | yes h ↦ rw (update_below xid p ps h) v
  | no h ↦ (update_behind-Compressed xid p ps (omega arith) b v).window
]

-- After a reply with an xid below 2 ^ 32, such a window tells of exactly this xid and those it
-- told of before that their replies have come, where it tells so of its members and of every xid
-- up to its front.
pub has-update_xid_rep :
    (r xid : ℕ) (w : List ℕ)
    → xid < 2 ^ 32
    → IsWindow w
    → has r (update_xid_rep xid w) ≡ ((xid == r) || has r w)
has-update_xid_rep r xid [] b v = absurd (v.inhabited refl)
has-update_xid_rep r xid (p ∷ ps) b v = elim (dec_le xid p) [
  | yes h ↦ rw (update_below xid p ps h) (ground arith)
  | no h ↦
      (update_behind-Compressed xid p ps (omega arith) b v).same r
      ∙ ground (arith, elem-insert_xid r xid ps)
]

pub new_window-IsWindow : IsWindow new_window
new_window-IsWindow = record {
  inhabited = λ e. cc;
  sorted = omega arith;
  small = omega arith;
  tight = refl;
}

-- The window after a history of replies, oldest first.
unfoldable pub receive_all : List ℕ → List ℕ → List ℕ
receive_all w [] = w
receive_all w (xid ∷ xids) = receive_all (update_xid_rep xid w) xids

pub receive_all-IsWindow :
    (w xids : List ℕ) → Small xids → IsWindow w → IsWindow (receive_all w xids)
unfolding receive_all
receive_all-IsWindow w [] b v = v
receive_all-IsWindow w (xid ∷ xids) b v =
    receive_all-IsWindow (update_xid_rep xid w) xids b.1 (update_xid_rep-IsWindow xid w b.0 v)

pub has-receive_all :
    (r : ℕ) (w xids : List ℕ)
    → Small xids
    → IsWindow w
    → has r (receive_all w xids) ≡ (elem r xids || has r w)
unfolding receive_all
has-receive_all r w [] b v = refl
has-receive_all r w (xid ∷ xids) b v =
    has-receive_all r (update_xid_rep xid w) xids b.1 (update_xid_rep-IsWindow xid w b.0 v)
    ∙ ground (arith, has-update_xid_rep r xid w)

not_has_next : (w : List ℕ) → IsWindow w → has (front w + 1) w ≡ false
not_has_next w v = ground (arith, v.tight)

-- For any sequence of replies with xids below 2 ^ 32, the client's front, which it sends with its
-- next call, is exact: the client has the reply to each xid from 1 up to it, and none to the next
-- xid.
pub front-receive_all :
    (xids : List ℕ)
    → Small xids
    → let n = front (receive_all new_window xids) in
      ((r : ℕ) → 1 ≤ r → r ≤ n → elem r xids ≡ true) × (elem (n + 1) xids ≡ false)
front-receive_all xids b = (
  λ r lo hi. ground (arith, has-receive_all r new_window xids b new_window-IsWindow),
  ground (
    arith,
    has-receive_all (front (receive_all new_window xids) + 1) new_window xids b new_window-IsWindow,
    not_has_next _ (receive_all-IsWindow new_window xids b new_window-IsWindow),
  ),
)
