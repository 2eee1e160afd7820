-- ===== src/Rpc/Connection/Refs.antt =====
-- rpc/connection.cc, the references to a connection: `incref`, `decref` and `closeconn`, and the
-- age of connections.
use y_f_s.Base.{
  ℕ, ◌+◌, ◌-◌, ◌<◌, ◌≡◌, refl, ◌∙◌, Bool, true, false, ◌&&◌, Option, none, some, List, [], ◌∷◌, ltb,
  ◌==◌, if◌then◌else◌, minus, arith,
}
use y_f_s.Rpc.Connection.{Connection}

pub incref : Connection → Connection
incref c = record c { refno = c.refno + 1 }

-- `decref`: a failed VERIFY, or the connection and whether it was deleted.
pub decref : Connection → Option (Connection × Bool)
decref c =
    if c.refno == 0
    then none
    else some (record c { refno = c.refno - 1 }, (c.refno - 1 == 0) && c.dead)

-- `closeconn`: whether it shuts the stream down and removes the callbacks.
pub closeconn : Connection → Connection × Bool
closeconn c = if c.dead then (c, false) else (record c { dead = true }, true)

pub record Timeval : Type 0 where
  pub tv_sec : ℕ
  pub tv_usec : ℕ

pub compare_age : Timeval → Timeval → ℕ
compare_age a b =
    if ltb b.tv_sec a.tv_sec
    then 1
    else if ltb a.tv_sec b.tv_sec
    then minus 1
    else if ltb b.tv_usec a.tv_usec
    then 1
    else if ltb a.tv_usec b.tv_usec
    then minus 1
    else 0

pub data Event : Type 0 where
  take give close : Event

-- A run on a connection, until it is deleted or a VERIFY fails.
pub data Run : Type 0 where
  alive : Connection → Run
  deleted : Run
  failed : Run

abbrev pub given : Option (Connection × Bool) → (Connection → Run) → Run
given none later = failed
given (some (c, false)) later = later c
given (some (c, true)) later = deleted

unfoldable pub run : List Event → Connection → Run
run [] c = alive c
run (take ∷ es) c = run es (incref c)
run (give ∷ es) c = given (decref c) (run es)
run (close ∷ es) c = run es (closeconn c).0

-- Somebody holds a reference at every moment, with `n` references at the start.
abbrev pub Held : ℕ → List Event → Type 0
Held n [] = 0 < n
Held n (take ∷ es) = (0 < n) × Held (n + 1) es
Held n (give ∷ es) = (1 < n) × Held (n - 1) es
Held n (close ∷ es) = (0 < n) × Held n es

abbrev pub references : ℕ → List Event → ℕ
references n [] = n
references n (take ∷ es) = references (n + 1) es
references n (give ∷ es) = references (n - 1) es
references n (close ∷ es) = references n es

abbrev pub AliveWith : ℕ → Run → Type 0
AliveWith n (alive c) = c.refno ≡ n
AliveWith n deleted = ⊥
AliveWith n failed = ⊥

decref-held :
    (c : Connection) → 1 < c.refno → decref c ≡ some (record c { refno = c.refno - 1 }, false)
unfolding decref
decref-held c h =
    let some_left : (c.refno == 0) ≡ false = ground arith in
    let more_left : (c.refno - 1 == 0) ≡ false = ground arith in rw (some_left, more_left)

closeconn-refno : (c : Connection) → (closeconn c).0.refno ≡ c.refno
unfolding closeconn
closeconn-refno c = ground arith

run-Held :
    (es : List Event) (n : ℕ) (c : Connection)
    → c.refno ≡ n
    → Held n es
    → AliveWith (references n es) (run es c)
unfolding run incref
run-Held [] n c e h = e
run-Held (take ∷ es) n c e h = run-Held es (n + 1) _ (omega arith) h.1
run-Held (give ∷ es) n c e h =
    rw (decref-held c (omega arith)) (run-Held es (n - 1) _ (omega arith) h.1)
run-Held (close ∷ es) n c e h = run-Held es n _ (closeconn-refno c ∙ e) h.1

-- Whatever the order in which references are taken and given back and the connection is closed: as
-- long as somebody holds a reference, it is neither deleted nor does a VERIFY fail, and it counts
-- the references that are held.
pub references_keep_alive :
    (es : List Event) (c : Connection)
    → Held c.refno es
    → AliveWith (references c.refno es) (run es c)
references_keep_alive es c h = run-Held es c.refno c refl h
