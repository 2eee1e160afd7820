-- ===== src/Lock/Client/Agrees.antt =====
-- The operations on one lock, against the threads that hold it by the outcomes of their calls.
use y_f_s.Base.{
  ℕ, ◌≡◌, refl, inl, inr, Bool, true, false, Option, none, some, List, [], ◌∷◌, ◌==◌, if◌then◌else◌,
  elem, Bool-cases, arith,
}
use y_f_s.Lock.Client.{
  LockState, none_held, free, locked, acquiring, releasing, CacheLock, Acquire, got, retry_wait_at,
  retry_wait, enter_at, called, Signal, release_at, revoke_at, retry_at, release_call,
  releaser_begin_at, releaser_wake_at, releaser_end_at,
}
use y_f_s.Lock.Client.Steps.{
  Outcome, granted, sleeps, in_call, freed, done, refused, broken, acquire_outcome,
}

abbrev pub add : ℕ → List ℕ → List ℕ
add t hs = if elem t hs then hs else t ∷ hs

abbrev pub drop_thread : ℕ → List ℕ → List ℕ
drop_thread t [] = []
drop_thread t (h ∷ hs) = if h == t then drop_thread t hs else h ∷ drop_thread t hs

-- The threads whose `acquire` returned and that have not released: by the outcomes alone.
abbrev pub moved : ℕ → Outcome → List ℕ → List ℕ
moved t granted hs = add t hs
moved t freed hs = drop_thread t hs
moved t sleeps hs = hs
moved t in_call hs = hs
moved t done hs = hs
moved t refused hs = hs
moved t broken hs = hs

-- What the table says: the owner of a lock in the state LOCKED.
abbrev pub holders_at : LockState → ℕ → List ℕ
holders_at locked owner = owner ∷ []
holders_at free owner = []
holders_at none_held owner = []
holders_at acquiring owner = []
holders_at releasing owner = []

abbrev pub recorded : Option CacheLock → List ℕ
recorded none = []
recorded (some l) = holders_at l.state l.owner

-- The operations on one lock agree with the outcomes.
abbrev pub lock_of : CacheLock → List ℕ
lock_of l = holders_at l.state l.owner

abbrev pub Agrees : ℕ → CacheLock → Acquire × CacheLock → Type 0
Agrees t l (a, l') = lock_of l' ≡ moved t (acquire_outcome a) (lock_of l)

pub retry_wait-Agrees :
    (t : ℕ) (s : LockState) (l : CacheLock) → l.state ≡ s → Agrees t l (retry_wait_at s t l)
unfolding retry_wait_at got
retry_wait-Agrees t free l e = ground (arith, e)
retry_wait-Agrees t none_held l e = ground (arith, e)
retry_wait-Agrees t locked l e = refl
retry_wait-Agrees t acquiring l e = refl
retry_wait-Agrees t releasing l e = refl

pub enter-Agrees :
    (t : ℕ) (s : LockState) (l : CacheLock) → l.state ≡ s → Agrees t l (enter_at s t l)
unfolding enter_at retry_wait got
enter-Agrees t free l e = ground (arith, e)
enter-Agrees t none_held l e = ground (arith, e)
enter-Agrees t acquiring l e = retry_wait-Agrees t l.state l refl
enter-Agrees t releasing l e = retry_wait-Agrees t l.state l refl
enter-Agrees t locked l e = elim (Bool-cases (l.owner == t)) [
  | inl mine ↦ ground (arith, e)
  | inr other ↦ rw other (retry_wait-Agrees t l.state l refl)
]

pub called-Agrees :
    (t : ℕ) (again : Bool) (l : CacheLock)
    → (again ≡ false → l.state ≡ acquiring)
    → Agrees t l (called again t l)
unfolding called retry_wait got
called-Agrees t true l h = retry_wait-Agrees t l.state l refl
called-Agrees t false l h = ground (arith, h refl)

abbrev pub Frees : ℕ → CacheLock → Option (CacheLock × Signal) → Type 0
Frees t l none = Unit
Frees t l (some (l', signal)) = lock_of l' ≡ drop_thread t (lock_of l)

pub release_agrees :
    (t lid : ℕ) (s : LockState) (l : CacheLock) → l.state ≡ s → Frees t l (release_at s t lid l)
unfolding release_at
release_agrees t lid free l e = tt
release_agrees t lid none_held l e = tt
release_agrees t lid acquiring l e = tt
release_agrees t lid releasing l e = tt
release_agrees t lid locked l e = elim (Bool-cases (l.owner == t)) [
  | inl mine ↦ rw mine (ground (arith, e))
  | inr other ↦ rw other tt
]

pub revoke_agrees :
    (s : LockState) (l : CacheLock) → l.state ≡ s → lock_of (revoke_at s l).1 ≡ lock_of l
unfolding revoke_at
revoke_agrees free l e = ground (arith, e)
revoke_agrees none_held l e = refl
revoke_agrees locked l e = refl
revoke_agrees acquiring l e = refl
revoke_agrees releasing l e = refl

abbrev pub Retries : CacheLock → Option CacheLock → Type 0
Retries l none = Unit
Retries l (some l') = lock_of l' ≡ lock_of l

pub retry_agrees : (s : LockState) (l : CacheLock) → l.state ≡ s → Retries l (retry_at s l)
unfolding retry_at
retry_agrees acquiring l e = ground (arith, e)
retry_agrees free l e = tt
retry_agrees none_held l e = tt
retry_agrees locked l e = tt
retry_agrees releasing l e = tt

pub begin_agrees :
    (s : LockState) (l : CacheLock) → l.state ≡ s → lock_of (releaser_begin_at s l).1 ≡ lock_of l
unfolding releaser_begin_at release_call
begin_agrees releasing l e = ground (arith, e)
begin_agrees free l e = refl
begin_agrees none_held l e = refl
begin_agrees locked l e = refl
begin_agrees acquiring l e = refl

pub wake_agrees :
    (s : LockState) (l : CacheLock) → l.state ≡ s → lock_of (releaser_wake_at s l).1 ≡ lock_of l
unfolding releaser_wake_at release_call
wake_agrees free l e = ground (arith, e)
wake_agrees releasing l e = refl
wake_agrees none_held l e = refl
wake_agrees locked l e = refl
wake_agrees acquiring l e = refl

abbrev pub Ends : CacheLock → Option (CacheLock × Bool × List Signal) → Type 0
Ends l none = Unit
Ends l (some (l', again, signals)) = lock_of l' ≡ lock_of l

pub end_agrees :
    (ok : Bool) (lid : ℕ) (s : LockState) (l : CacheLock)
    → l.state ≡ s
    → Ends l (releaser_end_at s ok lid l)
unfolding releaser_end_at
end_agrees true lid releasing l e = ground (arith, e)
end_agrees false lid releasing l e = refl
end_agrees ok lid free l e = tt
end_agrees ok lid none_held l e = tt
end_agrees ok lid locked l e = tt
end_agrees ok lid acquiring l e = tt
