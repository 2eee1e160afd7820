-- ===== src/Rpc/Client/Channel.antt =====
-- rpc/rpc.cc, `rpcc::get_refconn` and the references to connections that a call takes. A connection
-- is a number; a new one has one reference, which is that of `chan_`.
use y_f_s.Base.{
  ℕ, ◌+◌, ◌≡◌, refl, inl, inr, Bool, Option, none, some, List, [], ◌∷◌, ◌++◌, if◌then◌else◌,
  Bool-cases, arith,
}
use y_f_s.Rpc.Server.{incref, decref, Refs}
use y_f_s.Rpc.Server.References.{one, gained, lost, append-refs}

-- What a call of `get_refconn` meets: which connections are dead, and what `connect_to_dst` returns.
pub record Meeting : Type 0 where
  pub dead : ℕ → Bool
  pub connected : Option ℕ

-- `chan_` and the caller's `ch`, with the references taken and given back and the new connections.
pub record Channel : Type 0 where
  pub chan : Option ℕ
  pub ch : Option ℕ
  pub refs : Refs
  pub made : List ℕ

abbrev pub new_one : Option ℕ → List ℕ
new_one none = []
new_one (some c) = c ∷ []

-- The two parts of `get_refconn`: `chan_` is renewed where there is none or it is dead, and `ch`
-- follows it, unless there is none still.
pub renew : Meeting → Option ℕ → Option ℕ → Channel
renew t none ch = record { chan = t.connected; ch = ch; refs = []; made = new_one t.connected }
renew t (some c) ch =
    if t.dead c
    then record { chan = t.connected; ch = ch; refs = decref c ∷ []; made = new_one t.connected }
    else record { chan = some c; ch = ch; refs = []; made = [] }

pub take_over : Option ℕ → Option ℕ → Option ℕ × Refs
take_over none ch = (ch, [])
take_over (some c) none = (some c, incref c ∷ [])
take_over (some c) (some old) = (some c, decref old ∷ incref c ∷ [])

pub get_refconn : Meeting → Option ℕ → Option ℕ → Channel
unfolding renew take_over
get_refconn t chan ch =
    let r = renew t chan ch in
    let (ch', refs) = take_over r.chan ch in
    record { chan = r.chan; ch = ch'; refs = r.refs ++ refs; made = r.made }

-- The end of `call1`.
pub give_back : Option ℕ → Refs
give_back none = []
give_back (some c) = decref c ∷ []

-- One call, with a `get_refconn` for each of its transmissions.
pub call_channel : List Meeting → Option ℕ → Option ℕ → Channel
unfolding get_refconn give_back
call_channel [] chan ch = record { chan = chan; ch = none; refs = give_back ch; made = [] }
call_channel (t ∷ ts) chan ch =
    let g = get_refconn t chan ch in
    let later = call_channel ts g.chan g.ch in
    record later { refs = g.refs ++ later.refs; made = g.made ++ later.made }

abbrev pub held_by : ℕ → Option ℕ → ℕ
held_by x none = 0
held_by x (some c) = one x c

abbrev pub times : ℕ → List ℕ → ℕ
times x [] = 0
times x (c ∷ cs) = one x c + times x cs

times-append : (x : ℕ) (r s : List ℕ) → times x (r ++ s) ≡ times x r + times x s
times-append x [] s = omega arith
times-append x (c ∷ r) s = omega (arith, times-append x r s)

times-new_one : (x : ℕ) (c : Option ℕ) → times x (new_one c) ≡ held_by x c
times-new_one x none = refl
times-new_one x (some c) = omega arith

renew-balanced :
    (x : ℕ) (t : Meeting) (chan ch : Option ℕ)
    → let r = renew t chan ch in
      held_by x chan + gained x r.refs + times x r.made ≡ lost x r.refs + held_by x r.chan
unfolding renew
renew-balanced x t none ch = omega (arith, times-new_one x t.connected)
renew-balanced x t (some c) ch = elim (Bool-cases (t.dead c)) [
  | inl dead ↦ rw dead (omega (arith, times-new_one x t.connected))
  | inr alive ↦ rw alive (omega arith)
]

take_over-balanced :
    (x : ℕ) (chan ch : Option ℕ)
    → let (ch', refs) = take_over chan ch in
      held_by x ch + gained x refs ≡ lost x refs + held_by x ch'
unfolding take_over
take_over-balanced x none ch = omega arith
take_over-balanced x (some c) none = omega arith
take_over-balanced x (some c) (some old) = omega arith

call-balanced :
    (x : ℕ) (ts : List Meeting) (chan ch : Option ℕ)
    → let g = call_channel ts chan ch in
      held_by x chan + held_by x ch + gained x g.refs + times x g.made
      ≡ lost x g.refs + held_by x g.chan
unfolding call_channel give_back get_refconn
call-balanced x [] chan none = omega arith
call-balanced x [] chan (some c) = omega arith
call-balanced x (t ∷ ts) chan ch =
    let r = renew t chan ch in
    let (ch', refs) = take_over r.chan ch in
    let later = call_channel ts r.chan ch' in
    omega (
      arith,
      renew-balanced x t chan ch,
      take_over-balanced x r.chan ch,
      call-balanced x ts r.chan ch',
      append-refs x r.refs refs,
      append-refs x (r.refs ++ refs) later.refs,
      times-append x r.made later.made,
    )

-- A call that transmits any number of times, whichever connections are dead by then and whether or
-- not new ones can be made, gives back every reference that it takes: what `chan_` had of a
-- connection, what the call takes, and the first references of new connections, are together what
-- is given back and what `chan_` has at the end.
pub call_gives_back :
    (x : ℕ) (ts : List Meeting) (chan : Option ℕ)
    → let g = call_channel ts chan none in
      held_by x chan + gained x g.refs + times x g.made ≡ lost x g.refs + held_by x g.chan
call_gives_back x ts chan = omega (arith, call-balanced x ts chan none)
