-- ===== src/Rpc/ReplyWindow/AtMostOnce.antt =====
-- At-most-once execution by `rpcs::dispatch`, which runs a handler where
-- `rpcs::checkduplicate_and_update` answers NEW, for clients whose xids arrive in order.
use Prim.Native.Nat.{max}
use y_f_s.Base.{
  ℕ, suc, ◌+◌, ◌^◌, ◌<◌, ◌≤◌, ◌≡◌, refl, ap, ◌∙◌, ◌≢◌, inl, inr, true, List, [], ◌∷◌, ◌++◌, length,
  length-append, Bool-cases, arith, some,
}
use native.Mathlib.Decide.{dec_lt}
use y_f_s.Rpc.ReplyWindow.{
  new, in_progress, done, forgotten, Reply, new_reply, Check, fault, ok, start_window,
  checkduplicate, add_reply,
}
use y_f_s.Rpc.ReplyWindow.InOrder.{
  Run, Run-snoc, add_reply-Run, trim, answer, answer_seen, entry, checkduplicate-seen,
  checkduplicate-old, checkduplicate-next, checkduplicate-one,
}

-- What happens to the window of one client: a request arrives, or a handler returns.
pub data Event : Type 0 where
  request : ℕ → Event
  reply : ℕ → List ℕ → ℕ → Event

-- The xids for which a handler runs, in order, up to a fault.
abbrev pub after_check : ℕ → (List Reply → List ℕ) → Check → List ℕ
after_check xid later fault = []
after_check xid later (ok new out w) = xid ∷ later w
after_check xid later (ok in_progress out w) = later w
after_check xid later (ok done out w) = later w
after_check xid later (ok forgotten out w) = later w

unfoldable pub executed : List Event → List Reply → List ℕ
executed [] w = []
executed (request xid ∷ es) w = after_check xid (executed es) (checkduplicate xid w)
executed (reply xid b sz ∷ es) w = executed es (add_reply xid b sz w)

-- No request skips an xid: each is at most one above the highest so far, `hi`.
abbrev pub InOrder : ℕ → List Event → Type 0
InOrder hi [] = Unit
InOrder hi (request xid ∷ es) = (xid ≤ hi + 1) × (xid < 2 ^ 32) × InOrder (max hi xid) es
InOrder hi (reply xid b sz ∷ es) = InOrder hi es

-- Strictly ascending, so no xid stands twice.
abbrev pub Ascending : ℕ → List ℕ → Type 0
Ascending lo [] = Unit
Ascending lo (x ∷ xs) = (lo ≤ x) × Ascending (suc x) xs

-- A window of consecutive xids up to `hi`.
abbrev pub Window : ℕ → List Reply → Type 0
Window hi [] = ⊥
Window hi (r ∷ rs) = Run r.xid (r ∷ rs) × (hi ≡ r.xid + length rs)

-- Only the next xid is answered NEW, and it raises the highest xid.
abbrev pub Keeps : ℕ → ℕ → Check → Type 0
Keeps hi xid fault = Unit
Keeps hi xid (ok new out w) = (xid ≡ hi + 1) × Window (hi + 1) w
Keeps hi xid (ok in_progress out w) = (xid ≤ hi) × Window hi w
Keeps hi xid (ok done out w) = (xid ≤ hi) × Window hi w
Keeps hi xid (ok forgotten out w) = (xid ≤ hi) × Window hi w

answer_seen-Keeps :
    (hi xid : ℕ) (w : List Reply) → xid ≤ hi → Window hi w → Keeps hi xid (answer_seen xid w)
answer_seen-Keeps hi xid w b v = ground arith

tail-Window :
    (hi : ℕ) (r a : Reply) (rest : List Reply) → Window hi (r ∷ a ∷ rest) → Window hi (a ∷ rest)
tail-Window hi r a rest v = ((refl, rw v.0.1.0 v.0.1.1), omega (arith, v.0.1.0))

trim-Window : (hi : ℕ) (w : List Reply) → Window hi w → Window hi (trim w)
trim-Window hi [] v = v
trim-Window hi (r ∷ []) v = v
trim-Window hi (r ∷ a ∷ rest) v = elim (Bool-cases r.cb_present) [
  | inl e ↦ simp e (tail-Window hi r a rest v)
  | inr e ↦ simp e v
]

snoc-Window :
    (hi : ℕ) (w : List Reply) → Window hi w → Window (hi + 1) (w ++ new_reply (hi + 1) ∷ [])
snoc-Window hi [] v = absurd v
snoc-Window hi (r ∷ rs) v = (
  (refl, Run-snoc (suc r.xid) rs (new_reply (hi + 1)) v.0.1 (omega arith)),
  omega (arith, length-append rs (new_reply (hi + 1) ∷ [])),
)

length-add_reply :
    (xid : ℕ) (b : List ℕ) (sz : ℕ) (w : List Reply) → length (add_reply xid b sz w) ≡ length w
unfolding add_reply
length-add_reply xid b sz [] = refl
length-add_reply xid b sz (r ∷ rs) = ap suc (length-add_reply xid b sz rs)

pub add_reply-Window :
    (hi xid : ℕ) (b : List ℕ) (sz : ℕ) (w : List Reply)
    → Window hi w
    → Window hi (add_reply xid b sz w)
unfolding add_reply
add_reply-Window hi xid b sz [] v = absurd v
add_reply-Window hi xid b sz (r ∷ rs) v =
    ground (arith, add_reply-Run (suc r.xid) xid b sz rs v.0.1, length-add_reply xid b sz rs)

next-Keeps :
    (hi xid : ℕ) (r : Reply) (rest : List Reply)
    → Window hi (r ∷ rest)
    → xid ≡ hi + 1
    → Keeps hi xid (checkduplicate xid (r ∷ rest))
next-Keeps hi xid r rest v e =
    rw (checkduplicate-next xid r.xid r rest v.0 (omega arith))
      (e, rw e (snoc-Window hi (r ∷ rest) v))

one-Keeps :
    (hi : ℕ) (r : Reply) → Window hi (r ∷ []) → Keeps hi r.xid (checkduplicate r.xid (r ∷ []))
one-Keeps hi r v = rw (checkduplicate-one r) (ground arith)

seen-Keeps :
    (hi xid : ℕ) (r : Reply) (rest : List Reply)
    → Window hi (r ∷ rest)
    → r.xid ≤ xid
    → xid ≤ hi
    → hi < 2 ^ 32
    → Keeps hi xid (checkduplicate xid (r ∷ rest))
seen-Keeps hi xid r [] v l h b = let e : xid ≡ r.xid = omega (arith, v.1) in rw e (one-Keeps hi r v)
seen-Keeps hi xid r (a ∷ rest) v l h b =
    rw (checkduplicate-seen xid r.xid r a rest v.0 l (omega (arith, v.1)) (omega arith))
      (answer_seen-Keeps hi xid (trim (r ∷ a ∷ rest)) h (trim-Window hi (r ∷ a ∷ rest) v))

-- On a window of consecutive xids up to `hi`, a request whose xid is at most `hi + 1` is answered
-- NEW only if its xid is `hi + 1`, and else its xid is at most `hi`; the window it leaves is one
-- of consecutive xids up to the higher of the two, unless the check faults.
pub checkduplicate-Keeps :
    (hi xid : ℕ) (w : List Reply)
    → Window hi w
    → xid ≤ hi + 1
    → hi < 2 ^ 32
    → Keeps hi xid (checkduplicate xid w)
checkduplicate-Keeps hi xid [] v n b = absurd v
checkduplicate-Keeps hi xid (r ∷ rest) v n b = elim (dec_lt hi xid) [
  | yes above ↦ next-Keeps hi xid r rest v (omega arith)
  | no below ↦ elim (dec_lt xid r.xid) [
    | yes old ↦ rw (checkduplicate-old xid r.xid r rest v.0 old) (omega arith, v)
    | no seen ↦ seen-Keeps hi xid r rest v (omega arith) (omega arith) b
  ]
]

-- From one request on, where the rest of the history is known to be in order.
after_check-Ascending :
    (hi xid : ℕ) (later : List Reply → List ℕ) (c : Check)
    → Keeps hi xid c
    → ((h : ℕ) (w : List Reply) → h ≡ max hi xid → Window h w → Ascending (suc h) (later w))
    → Ascending (suc hi) (after_check xid later c)
after_check-Ascending hi xid later fault k rest = tt
after_check-Ascending hi xid later (ok new out w) k rest =
    (omega (arith, k.0), rw (k.0) (rw k.0 at (rest xid w (omega (arith, k.0)) (rw k.0 k.1))))
after_check-Ascending hi xid later (ok in_progress out w) k rest = rest hi w (omega arith) k.1
after_check-Ascending hi xid later (ok done out w) k rest = rest hi w (omega arith) k.1
after_check-Ascending hi xid later (ok forgotten out w) k rest = rest hi w (omega arith) k.1

-- Any history.
executed-Ascending :
    (es : List Event) (hi : ℕ) (w : List Reply)
    → Window hi w
    → hi < 2 ^ 32
    → InOrder hi es
    → Ascending (suc hi) (executed es w)
unfolding executed
executed-Ascending [] hi w v t i = tt
executed-Ascending (reply xid b sz ∷ es) hi w v t i =
    executed-Ascending es hi (add_reply xid b sz w) (add_reply-Window hi xid b sz w v) t i
executed-Ascending (request xid ∷ es) hi w v t i =
    after_check-Ascending hi xid (executed es) (checkduplicate xid w)
      (checkduplicate-Keeps hi xid w v i.0 t)
      (λ h w' e v'. executed-Ascending es h w' v' (omega (arith, e, i.1)) (rw e i.2))

pub started : Window 0 (start_window [])
started = omega arith

pub checkduplicate-new : (xid : ℕ) → checkduplicate xid [] ≡ checkduplicate xid (start_window [])
unfolding checkduplicate
checkduplicate-new xid = refl

pub add_reply-new : (xid : ℕ) (b : List ℕ) (sz : ℕ) → add_reply xid b sz [] ≡ []
unfolding add_reply
add_reply-new xid b sz = refl

-- For any history of requests and replies of a new client in which each request's xid is at most
-- one above the highest before it and below 2 ^ 32, the handlers run for strictly ascending xids:
-- never twice for one request, however often it comes. Where the check faults, the history ends.
pub executed_at_most_once : (es : List Event) → InOrder 0 es → Ascending 1 (executed es [])
unfolding executed
executed_at_most_once [] i = tt
executed_at_most_once (reply xid b sz ∷ es) i = rw add_reply-new (executed_at_most_once es i)
executed_at_most_once (request xid ∷ es) i = rw checkduplicate-new (
    unfold executed in
    executed-Ascending (request xid ∷ es) 0 (start_window []) started (omega arith) i)

-- The entry of a request after `add_reply`.
abbrev answered : ℕ → List ℕ → ℕ → Reply
answered xid b sz = record { xid = xid; cb_present = true; buf = b; sz = sz }

entry-add_reply :
    (lo xid : ℕ) (b : List ℕ) (sz : ℕ) (w : List Reply)
    → Run lo w
    → lo ≤ xid
    → xid < lo + length w
    → entry xid (add_reply xid b sz w) ≡ answered xid b sz
unfolding add_reply
entry-add_reply lo xid b sz [] v l h = absurd (omega arith)
entry-add_reply lo xid b sz (r ∷ rs) v l h =
    ground (arith, entry-add_reply (suc lo) xid b sz rs v.1)

answer_seen-trim :
    (xid lo : ℕ) (e : Reply) (w : List Reply)
    → Run lo w
    → w ≢ []
    → lo < xid
    → entry xid w ≡ e
    → answer_seen xid (trim w) ≡ answer e (trim w)
answer_seen-trim xid lo e [] v n l q = absurd (n refl)
answer_seen-trim xid lo e (r ∷ []) v n l q = ground arith
answer_seen-trim xid lo e (r ∷ a ∷ rest) v n l q = ground arith

-- On a window of at least two entries with consecutive xids, up to one below 2 ^ 32, a request
-- above the first entry whose reply was recorded by `add_reply` is answered DONE with this reply,
-- and the window that is left has consecutive xids up to the same one.
pub recorded_reply_resent :
    (hi xid : ℕ) (b : List ℕ) (sz : ℕ) (r a : Reply) (rest : List Reply)
    → Window hi (r ∷ a ∷ rest)
    → hi < 2 ^ 32
    → r.xid < xid
    → xid ≤ hi
    → (w : List Reply) × (checkduplicate xid (add_reply xid b sz (r ∷ a ∷ rest))
        ≡ ok done (some (b, sz)) w)
      × Window hi w
unfolding add_reply
recorded_reply_resent hi xid b sz r a rest v t l h = (
  trim w,
  checkduplicate-seen xid r.xid _ _ _ run (omega arith) (omega (arith, v.1))
        (omega (arith, v.1, length-add_reply xid b sz rest))
      ∙ answer_seen-trim xid r.xid (answered xid b sz) w run (λ e. cc) l
          (entry-add_reply r.xid xid b sz (r ∷ a ∷ rest) v.0 (omega arith) (omega (arith, v.1))),
  trim-Window hi w kept,
)
  where
    w : List Reply
    w = add_reply xid b sz (r ∷ a ∷ rest)

    run : Run r.xid w
    run = add_reply-Run r.xid xid b sz (r ∷ a ∷ rest) v.0

    kept : Window hi w
    kept = add_reply-Window hi xid b sz (r ∷ a ∷ rest) v
