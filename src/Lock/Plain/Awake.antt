-- ===== src/Lock/Plain/Awake.antt =====
-- The callers that sleep for a lock of lock_server.cc.
use y_f_s.Base.{
  ℕ, ◌-◌, ◌≡◌, refl, ap, ◌∙◌, inl, inr, Bool, true, false, ◌||◌, Option, none, some, List, [], ◌∷◌,
  ltb, ◌==◌, lookup, insert, lookup-insert, lookup-insert_self, arith, Option-cases, Bool-cases,
}
use y_f_s.Lock.Plain.{
  LockState, free, locked, is_locked, State, new_server, try_lock, enter, acquire_at, acquire,
  again_at, set_count, sleep_for, sleep, run_again, acquire_again, wake, release, release_signal,
  Event, acquires, runs, sleeps, wakes, releases, signals, grant_if, grant_if?, or_same, step,
}
use y_f_s.Lock.Plain.Exclusive.{held}

abbrev pub is_for : ℕ → Option ℕ → Bool
is_for lid none = false
is_for lid (some l) = l == lid

-- A caller sleeps for the lock, or is about to.
abbrev pub waits_for : ℕ → State → Bool
waits_for lid s = ltb 0 (s.asleep lid) || is_for lid s.between

-- Then it is held, or a woken caller or a signal is on its way.
abbrev pub will_wake : ℕ → State → Bool
will_wake lid s = held lid s || (ltb 0 (s.woken lid) || ltb 0 (s.signalling lid))

abbrev pub Wakes : ℕ → State → Type 0
Wakes lid s = waits_for lid s ≡ true → will_wake lid s ≡ true

try_lock-Wakes :
    (lid l : ℕ) (s : State)
    → ((l == lid) ≡ false → Wakes lid s)
    → s.between ≡ none
    → Wakes lid (grant_if l (try_lock l s)).1
unfolding try_lock
try_lock-Wakes lid l s h o = elim (Bool-cases (held l s)) [
  | inl e ↦
      rw (e, try_lock)
        (elim (Bool-cases (l == lid)) [
          | inl same ↦ ground (arith, same, e)
          | inr ne ↦ ground (arith, ne, h ne, ap (is_for lid) o)
        ])
  | inr e ↦
      rw (e, try_lock)
        (elim (Bool-cases (l == lid)) [
          | inl same ↦ ground (arith, same, lookup-insert l lid locked s.lockstate_table)
          | inr ne ↦ ground (arith, ne, h ne, lookup-insert l lid locked s.lockstate_table)
        ])
]

acquire-Wakes :
    (lid l : ℕ) (o : Option ℕ) (s : State)
    → s.between ≡ o
    → Wakes lid s
    → Wakes lid (grant_if? l (acquire_at o l s) s).1
unfolding acquire_at enter
acquire-Wakes lid l (some other) s idle h = h
acquire-Wakes lid l none s idle h = elim (Option-cases (lookup l s.lockstate_table)) [
  | inl f ↦
      let t = record s { lockstate_table = insert l free s.lockstate_table } in
      rw (f, enter)
        (try_lock-Wakes lid l t
          (λ ne. ground (arith, ne, h, lookup-insert l lid free s.lockstate_table)) idle)
  | inr (k, f) ↦ rw (f, enter) (try_lock-Wakes lid l s (λ ne. h) idle)
]

acquire_again-Wakes :
    (lid l : ℕ) (o : Option ℕ) (s : State)
    → s.between ≡ o
    → Wakes lid s
    → Wakes lid (grant_if? l (again_at o l s) s).1
unfolding again_at run_again
acquire_again-Wakes lid l (some other) s idle h = h
acquire_again-Wakes lid l none s idle h = elim (Bool-cases (ltb 0 (s.woken l))) [
  | inl e ↦
      rw (e, run_again)
        (try_lock-Wakes lid l (record s { woken = set_count l (s.woken l - 1) s.woken })
          (λ ne. ground (arith, ne, h)) idle)
  | inr e ↦ rw (e, run_again) h
]

sleep-Wakes :
    (lid : ℕ) (o : Option ℕ) (s : State)
    → s.between ≡ o
    → Wakes lid s
    → Wakes lid (or_same (sleep_for o s) s)
unfolding sleep_for
sleep-Wakes lid none s e h = h
sleep-Wakes lid (some l) s e h = ground (arith, h, ap (is_for lid) e)

wake-Wakes : (lid l : ℕ) (s : State) → Wakes lid s → Wakes lid (wake l s)
unfolding wake
wake-Wakes lid l s h = elim (Bool-cases (ltb 0 (s.asleep l))) [
  | inl e ↦ rw (e, wake) (ground (arith, h))
  | inr e ↦ rw (e, wake) h
]

release-Wakes : (lid l : ℕ) (s : State) → Wakes lid s → Wakes lid (release l s)
unfolding release
release-Wakes lid l s h = elim (Option-cases (lookup l s.lockstate_table)) [
  | inl f ↦ rw (f, release) h
  | inr (k, f) ↦ rw (f, release) (ground (arith, h, lookup-insert l lid free s.lockstate_table))
]

signal-Wakes :
    (lid l : ℕ) (s : State)
    → is_for l s.between ≡ false
    → Wakes lid s
    → Wakes lid (or_same (release_signal l s) s)
unfolding release_signal wake
signal-Wakes lid l s b h = elim (Bool-cases (ltb 0 (s.signalling l))) [
  | inr e ↦ rw (e, release_signal) h
  | inl e ↦
      rw (e, release_signal)
        (elim (Bool-cases (ltb 0 (s.asleep l))) [
          | inl a ↦ rw (a, wake) (ground (arith, h, a))
          | inr a ↦
              rw (a, wake)
                (elim (Bool-cases (l == lid)) [
                  | inl same ↦
                      let q : l ≡ lid = ground arith in ground (arith, a, rw q at b, ap s.asleep q)
                  | inr ne ↦ ground (arith, ne, h)
                ])
        ])
]

-- No signal is sent for a lock between a test of it that failed and the wait that follows.
abbrev pub InTime : Event → State → Type 0
InTime (signals l) s = is_for l s.between ≡ false
InTime (acquires l) s = Unit
InTime (runs l) s = Unit
InTime sleeps s = Unit
InTime (wakes l) s = Unit
InTime (releases l) s = Unit

step-Wakes : (lid : ℕ) (e : Event) (s : State) → InTime e s → Wakes lid s → Wakes lid (step e s).1
unfolding step sleep acquire acquire_again
step-Wakes lid (acquires l) s t h = acquire-Wakes lid l s.between s refl h
step-Wakes lid (runs l) s t h = acquire_again-Wakes lid l s.between s refl h
step-Wakes lid sleeps s t h = sleep-Wakes lid s.between s refl h
step-Wakes lid (wakes l) s t h = wake-Wakes lid l s h
step-Wakes lid (releases l) s t h = release-Wakes lid l s h
step-Wakes lid (signals l) s t h = signal-Wakes lid l s t h

unfoldable pub steps : List Event → State → State
steps [] s = s
steps (e ∷ es) s = steps es (step e s).1

abbrev pub AllInTime : List Event → State → Type 0
AllInTime [] s = Unit
AllInTime (e ∷ es) s = InTime e s × AllInTime es (step e s).1

steps-Wakes :
    (lid : ℕ) (es : List Event) (s : State) → AllInTime es s → Wakes lid s → Wakes lid (steps es s)
unfolding steps
steps-Wakes lid [] s t h = h
steps-Wakes lid (e ∷ es) s t h = steps-Wakes lid es _ t.1 (step-Wakes lid e s t.0 h)

-- In a new server, after any steps in which no signal of a release falls between a test of `acquire`
-- for the same lock that failed and the wait that follows: while a caller sleeps for a lock or is
-- about to, the lock is held, a woken caller is about to test it again, or a release is about to
-- signal.
pub sleepers_will_wake :
    (lid : ℕ) (es : List Event)
    → AllInTime es new_server
    → waits_for lid (steps es new_server) ≡ true
    → will_wake lid (steps es new_server) ≡ true
unfolding new_server
sleepers_will_wake lid es t = steps-Wakes lid es new_server t (ground arith)

-- The server while a thread is between its failed test and its wait
abbrev tested : ℕ → State → State
tested lid s = record s { between = some lid }

failed_test :
    (lid : ℕ) (s : State) (k : LockState)
    → held lid s ≡ true
    → lookup lid s.lockstate_table ≡ some k
    → s.between ≡ none
    → step (acquires lid) s ≡ (none, tested lid s)
unfolding step acquire acquire_at enter try_lock
failed_test lid s k h f o =
    ap (λ b. grant_if? lid (acquire_at b lid s) s) o
    ∙ rw (f, enter)
        (let l : is_locked (lookup lid s.lockstate_table) ≡ true = h in rw (l, try_lock) refl)

-- That server after the release, its signal and the wait
lost_wait :
    (lid : ℕ) (s : State) (k : LockState)
    → lookup lid s.lockstate_table ≡ some k
    → s.asleep lid ≡ 0
    → s.woken lid ≡ 0
    → s.signalling lid ≡ 0
    → let t = steps (releases lid ∷ signals lid ∷ sleeps ∷ []) (tested lid s) in
      (t.asleep lid ≡ 1) × (will_wake lid t ≡ false)
unfolding steps step release release_signal wake sleep sleep_for
lost_wait lid s k f a w g =
    rw (f, release) (ground (arith, a, w, g, lookup-insert_self lid free s.lockstate_table))

-- Where a release falls between a test and its wait, the wait is not woken: in a server with a lock
-- that is held, for which nobody sleeps, is woken or signals, and where the mutex is open, another
-- `acquire` tests it, the holder's `release` runs, and the wait begins. Then the caller sleeps while
-- the lock is free, nobody is woken and no signal is on its way.
pub signal_before_wait_lost :
    (lid : ℕ) (s : State)
    → held lid s ≡ true
    → s.between ≡ none
    → s.asleep lid ≡ 0
    → s.woken lid ≡ 0
    → s.signalling lid ≡ 0
    → let t = steps (acquires lid ∷ releases lid ∷ signals lid ∷ sleeps ∷ []) s in
      (t.asleep lid ≡ 1) × (will_wake lid t ≡ false)
unfolding steps step lookup
signal_before_wait_lost lid s h o a w g = elim (Option-cases (lookup lid s.lockstate_table)) [
  | inl f ↦ absurd (ground (arith, h, ap is_locked f))
  | inr (k, f) ↦ rw (failed_test lid s k h f o) (lost_wait lid s k f a w g)
]
