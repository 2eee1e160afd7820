-- ===== src/Rpc/ReplyWindow/InOrder.antt =====
-- What `rpcs::checkduplicate_and_update` answers while the xids of the window are consecutive.
use y_f_s.Base.{
  ℕ, suc, ◌+◌, ◌^◌, ◌<◌, ◌≤◌, ◌≡◌, ◌∙◌, ◌⊎◌, inl, inr, List, [], ◌∷◌, ◌++◌, append_assoc, length,
  ltb, ◌==◌, if◌then◌else◌, Bool-cases, ltb→lt, arith, Option, none, some,
}
use y_f_s.Rpc.ReplyWindow.{
  new, in_progress, done, forgotten, Reply, new_reply, Check, fault, ok, front_xid, back_xid,
  move_window, visit, scan, scan_moved, scan_window, checkduplicate, add_reply,
}

-- The xids are `lo`, `lo + 1`, and so on.
abbrev pub Run : ℕ → List Reply → Type 0
Run lo [] = Unit
Run lo (r ∷ rs) = (r.xid ≡ lo) × Run (suc lo) rs

pub add_reply-Run :
    (lo xid : ℕ) (b : List ℕ) (sz : ℕ) (w : List Reply) → Run lo w → Run lo (add_reply xid b sz w)
unfolding add_reply
add_reply-Run lo xid b sz [] h = tt
add_reply-Run lo xid b sz (r ∷ rs) h = ground (arith, add_reply-Run (suc lo) xid b sz rs)

pub back-Run :
    (lo : ℕ) (r : Reply) (rs : List Reply) → Run lo (r ∷ rs) → back_xid (r ∷ rs) ≡ lo + length rs
back-Run lo r [] h = omega arith
back-Run lo r (s ∷ rs) h = omega (arith, back-Run (suc lo) s rs h.1)

pub Run-snoc :
    (lo : ℕ) (w : List Reply) (r : Reply) → Run lo w → r.xid ≡ lo + length w → Run lo (w ++ r ∷ [])
Run-snoc lo [] r h e = ground arith
Run-snoc lo (s ∷ w) r h e = (h.0, Run-snoc (suc lo) w r h.1 (omega arith))

-- The entry of an xid, or its default where there is none.
abbrev pub entry : ℕ → List Reply → Reply
entry xid [] = new_reply xid
entry xid (r ∷ rs) = if xid == r.xid then r else entry xid rs

-- The answer for an entry.
abbrev pub answer : Reply → List Reply → Check
answer r w = if r.cb_present then ok done (some (r.buf, r.sz)) w else ok in_progress none w

visit_hit :
    (xid : ℕ) (p : Reply) (pre : List Reply) (r : Reply) (after : Option ℕ) (rest : List Reply)
    (next : Check)
    → p.xid ≤ xid
    → xid ≡ r.xid
    → visit xid (p ∷ pre) r after rest next ≡ answer r (p ∷ pre ++ r ∷ rest)
unfolding visit
visit_hit xid p pre r after rest next f e = ground arith

visit_miss :
    (xid : ℕ) (p : Reply) (pre : List Reply) (r : Reply) (a : ℕ) (rest : List Reply) (next : Check)
    → p.xid ≤ xid
    → r.xid < xid
    → a ≤ xid
    → visit xid (p ∷ pre) r (some a) rest next ≡ next
unfolding visit
visit_miss xid p pre r a rest next f h k = ground arith

-- From any place in the window the loop runs to the entry of the xid.
pub scan-Run :
    (xid lo : ℕ) (p : Reply) (pre rest : List Reply)
    → Run lo rest
    → p.xid ≤ xid
    → lo ≤ xid
    → xid < lo + length rest
    → scan xid (p ∷ pre) rest ≡ answer (entry xid rest) (p ∷ pre ++ rest)
unfolding scan
scan-Run xid lo p pre [] h f l b = absurd (omega arith)
scan-Run xid lo p pre (r ∷ []) h f l b =
    ground (arith, visit_hit xid p pre r none [] (scan xid (p ∷ (pre ++ r ∷ [])) []))
scan-Run xid lo p pre (r ∷ a ∷ rest) h f l b = elim (Bool-cases (xid == r.xid)) [
  | inl e ↦ ground (
    arith,
    visit_hit xid p pre r (some a.xid) (a ∷ rest) (scan xid (p ∷ (pre ++ r ∷ [])) (a ∷ rest)),
  )
  | inr e ↦
      visit_miss xid p pre r a.xid (a ∷ rest) _ f (ground arith) (ground arith)
      ∙ scan-Run xid (suc lo) p (pre ++ r ∷ []) (a ∷ rest) h.1 f (ground arith) (omega arith)
      ∙ rw (e, append_assoc pre (r ∷ []) (a ∷ rest))
]

-- So does the first round, after the window has moved.
scan_moved-Run :
    (xid lo after : ℕ) (r : Reply) (rest : List Reply)
    → Run lo (r ∷ rest)
    → after ≤ suc lo
    → lo ≤ xid
    → xid ≤ lo + length rest
    → scan_moved xid after (r ∷ rest) ≡ answer (entry xid (r ∷ rest)) (r ∷ rest)
unfolding scan_moved visit
scan_moved-Run xid lo after r rest h k l b =
    ground (arith, scan-Run xid (suc lo) r [] rest h.1 (ground arith))

scan_moved-below :
    (xid after : ℕ) (r : Reply) (rest : List Reply)
    → xid < r.xid
    → scan_moved xid after (r ∷ rest) ≡ ok forgotten none (r ∷ rest)
unfolding scan_moved visit
scan_moved-below xid after r rest h = ground arith

-- The window after its first entry was dropped, which is done where that has its reply and is not
-- the last.
abbrev pub trim : List Reply → List Reply
trim [] = []
trim (r ∷ []) = r ∷ []
trim (r ∷ a ∷ rest) = if r.cb_present then a ∷ rest else r ∷ a ∷ rest

move_window-trim :
    (lo : ℕ) (r a : Reply) (rest : List Reply)
    → Run lo (r ∷ a ∷ rest)
    → lo + 1 < 2 ^ 32
    → move_window a.xid (r ∷ a ∷ rest) ≡ trim (r ∷ a ∷ rest)
unfolding move_window
move_window-trim lo r a rest h b = ground arith

pub trim-Run : (lo : ℕ) (w : List Reply) → Run lo w → Run lo (trim w) ⊎ Run (suc lo) (trim w)
trim-Run lo [] h = inl tt
trim-Run lo (r ∷ []) h = inl h
trim-Run lo (r ∷ a ∷ rest) h = ground arith

-- The answer to an xid that the window spans.
abbrev pub answer_seen : ℕ → List Reply → Check
answer_seen xid w = if ltb xid (front_xid w) then ok forgotten none w else answer (entry xid w) w

scan_moved-seen :
    (xid lo after : ℕ) (r : Reply) (rest : List Reply)
    → Run lo (r ∷ rest)
    → after ≤ suc lo
    → xid ≤ lo + length rest
    → scan_moved xid after (r ∷ rest) ≡ answer_seen xid (r ∷ rest)
scan_moved-seen xid lo after r rest h k b = elim (Bool-cases (ltb xid r.xid)) [
  | inl e ↦ scan_moved-below xid after r rest (ltb→lt xid r.xid e) ∙ rw e
  | inr e ↦ scan_moved-Run xid lo after r rest h k (ground arith) b ∙ rw e
]

scan_window-Run :
    (xid lo : ℕ) (r a : Reply) (rest : List Reply)
    → Run lo (r ∷ a ∷ rest)
    → lo + 1 < 2 ^ 32
    → xid ≤ lo + suc (length rest)
    → scan_window xid (r ∷ a ∷ rest) ≡ answer_seen xid (trim (r ∷ a ∷ rest))
unfolding scan_window
scan_window-Run xid lo r a rest h s b =
    rw (move_window-trim lo r a rest h s) (elim (Bool-cases r.cb_present) [
      | inl e ↦ simp e (scan_moved-seen xid (suc lo) a.xid a rest h.1 (ground arith) (omega arith))
      | inr e ↦ simp e (scan_moved-seen xid lo a.xid r (a ∷ rest) h (ground arith) b)
    ])

-- A window of consecutive xids answers NEW to the next xid and appends it, calls all below its
-- front FORGOTTEN, and answers every other xid from its entry, in the trimmed window.
pub checkduplicate-seen :
    (xid lo : ℕ) (r a : Reply) (rest : List Reply)
    → Run lo (r ∷ a ∷ rest)
    → lo ≤ xid
    → lo + 1 < 2 ^ 32
    → xid ≤ lo + suc (length rest)
    → checkduplicate xid (r ∷ a ∷ rest) ≡ answer_seen xid (trim (r ∷ a ∷ rest))
unfolding checkduplicate
checkduplicate-seen xid lo r a rest h l s b =
    ground (arith, back-Run lo r (a ∷ rest) h, scan_window-Run xid lo r a rest h s b)

pub checkduplicate-old :
    (xid lo : ℕ) (r : Reply) (rest : List Reply)
    → Run lo (r ∷ rest)
    → xid < lo
    → checkduplicate xid (r ∷ rest) ≡ ok forgotten none (r ∷ rest)
unfolding checkduplicate
checkduplicate-old xid lo r rest h l = ground (arith, back-Run lo r rest h)

pub checkduplicate-next :
    (xid lo : ℕ) (r : Reply) (rest : List Reply)
    → Run lo (r ∷ rest)
    → lo + length rest < xid
    → checkduplicate xid (r ∷ rest) ≡ ok new none (r ∷ rest ++ new_reply xid ∷ [])
unfolding checkduplicate
checkduplicate-next xid lo r rest h l = ground (arith, back-Run lo r rest h)

-- A window of one entry: an entry with its reply makes the code read through the end iterator.
pub checkduplicate-one :
    (r : Reply)
    → checkduplicate r.xid (r ∷ []) ≡ (if r.cb_present then fault else ok in_progress none (r ∷ []))
unfolding checkduplicate scan_window visit
checkduplicate-one r = ground arith
