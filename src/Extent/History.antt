-- ===== src/Extent/History.antt =====
-- extent_smain.cc: the extent server's calls, as one step on its state, and histories of them.
use y_f_s.Base.{ℕ, Option, none, some, List, [], ◌∷◌}
use y_f_s.Extent.{Status, Attr, no_attr, Server, put, get, getattr, remove, resize, putbuf, getbuf}

-- The handlers that `main` registers, with their arguments.
pub data Call : Type 0 where
  call_put : (id : ℕ) (buf : List ℕ) → Call
  call_get : (id : ℕ) → Call
  call_getattr : (id : ℕ) → Call
  call_remove : (id : ℕ) → Call
  call_resize : (id new_size : ℕ) → Call
  call_putbuf : (id off : ℕ) (buf : List ℕ) → Call
  call_getbuf : (id ask_size off : ℕ) → Call

-- What the reply holds: the status, and the bytes and attributes that are returned by reference.
pub record Answer : Type 0 where
  pub status : Status
  pub bytes : List ℕ
  pub attr : Attr

abbrev pub plain : Status × Server → Answer × Server
plain (r, s) = (record { status = r; bytes = []; attr = no_attr }, s)

abbrev pub with_bytes : Status × List ℕ × Server → Answer × Server
with_bytes (r, b, s) = (record { status = r; bytes = b; attr = no_attr }, s)

abbrev pub with_attr : Status × Attr × Server → Answer × Server
with_attr (r, a, s) = (record { status = r; bytes = []; attr = a }, s)

abbrev pub plain? : Option (Status × Server) → Option (Answer × Server)
plain? none = none
plain? (some p) = some (plain p)

module _ (max_size : ℕ) where
  -- One call at the time `now`. A string that is returned by reference is empty before the call.
  unfoldable pub step : ℕ → Call → Server → Option (Answer × Server)
  step now (call_put id buf) s = some (plain (put id buf now s))
  step now (call_get id) s = some (with_bytes (get id [] now s))
  step now (call_getattr id) s = some (with_attr (getattr id s))
  step now (call_remove id) s = some (plain (remove id s))
  step now (call_resize id n) s = plain? (resize max_size id n now now s)
  step now (call_putbuf id off buf) s = plain? (putbuf max_size id off buf now s)
  step now (call_getbuf id n off) s = some (with_bytes (getbuf id n off [] now s))

  abbrev pub after : Answer → Option (List Answer × Server) → Option (List Answer × Server)
  after a none = none
  after a (some (rest, s)) = some (a ∷ rest, s)

  -- A history of calls with their times, until one of them throws.
  unfoldable pub run : List (ℕ × Call) → Server → Option (List Answer × Server)
  run [] s = some ([], s)
  run ((now, c) ∷ cs) s = elim (step now c s) [ none ↦ none | some (a, s') ↦ after a (run cs s') ]
