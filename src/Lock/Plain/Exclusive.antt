-- ===== src/Lock/Plain/Exclusive.antt =====
-- The holders of a lock of lock_server.cc.
use y_f_s.Base.{
  ℕ, ◌+◌, ◌-◌, ◌≤◌, ◌≡◌, refl, inl, inr, Bool, true, Option, none, some, List, [], ◌∷◌, ltb, ◌==◌,
  if◌then◌else◌, lookup, insert, lookup-insert, arith, Option-cases, Bool-cases,
}
use y_f_s.Lock.Plain.{
  free, locked, is_locked, State, new_server, try_lock, enter, acquire_at, acquire, again_at,
  set_count, sleep_for, sleep, run_again, acquire_again, wake, release, release_signal, Event,
  acquires, runs, sleeps, wakes, releases, signals, grant_if, grant_if?, or_same, step,
}

-- How many callers of `acquire` have the lock since it was last released
abbrev pub count_grant : ℕ → ℕ → Option ℕ → ℕ
count_grant lid n none = n
count_grant lid n (some l) = if l == lid then n + 1 else n

abbrev pub holders_after : ℕ → ℕ → Event → Option ℕ → ℕ
holders_after lid n (releases l) g = if l == lid then 0 else n
holders_after lid n (acquires l) g = count_grant lid n g
holders_after lid n (runs l) g = count_grant lid n g
holders_after lid n sleeps g = n
holders_after lid n (wakes l) g = n
holders_after lid n (signals l) g = n

abbrev pub held : ℕ → State → Bool
held lid s = is_locked (lookup lid s.lockstate_table)

-- At most one holder, and then the lock is locked.
abbrev pub Held : ℕ → ℕ → State → Type 0
Held lid n s = (n ≤ 1) × (n ≡ 1 → held lid s ≡ true)

try_lock-Held :
    (lid n l : ℕ) (s : State)
    → Held lid n s
    → let r = grant_if l (try_lock l s) in Held lid (count_grant lid n r.0) r.1
unfolding try_lock
try_lock-Held lid n l s h = elim (Bool-cases (held l s)) [
  | inl e ↦ rw (e, try_lock) h
  | inr e ↦
      rw (e, try_lock)
        (elim (Bool-cases (l == lid)) [
          | inl same ↦ ground (arith, same, e, h, lookup-insert l lid locked s.lockstate_table)
          | inr ne ↦ ground (arith, ne, h, lookup-insert l lid locked s.lockstate_table)
        ])
]

-- A new entry is not seen by the others.
enter-Held :
    (lid n l : ℕ) (s : State)
    → Held lid n s
    → let r = grant_if l (enter l s) in Held lid (count_grant lid n r.0) r.1
unfolding enter
enter-Held lid n l s h = elim (Option-cases (lookup l s.lockstate_table)) [
  | inl f ↦
      let t = record s { lockstate_table = insert l free s.lockstate_table } in
      let fresh : Held lid n t = ground (arith, f, h, lookup-insert l lid free s.lockstate_table) in
      rw (f, enter) (try_lock-Held lid n l t fresh)
  | inr (k, f) ↦ rw (f, enter) (try_lock-Held lid n l s h)
]

acquire-Held :
    (lid n l : ℕ) (o : Option ℕ) (s : State)
    → Held lid n s
    → let r = grant_if? l (acquire_at o l s) s in Held lid (count_grant lid n r.0) r.1
unfolding acquire_at
acquire-Held lid n l none s h = enter-Held lid n l s h
acquire-Held lid n l (some other) s h = h

acquire_again-Held :
    (lid n l : ℕ) (o : Option ℕ) (s : State)
    → Held lid n s
    → let r = grant_if? l (again_at o l s) s in Held lid (count_grant lid n r.0) r.1
unfolding again_at run_again
acquire_again-Held lid n l (some other) s h = h
acquire_again-Held lid n l none s h = elim (Bool-cases (ltb 0 (s.woken l))) [
  | inl e ↦
      rw (e, run_again)
        (try_lock-Held lid n l (record s { woken = set_count l (s.woken l - 1) s.woken }) h)
  | inr e ↦ rw (e, run_again) h
]

release-Held :
    (lid n l : ℕ) (s : State) → Held lid n s → Held lid (if l == lid then 0 else n) (release l s)
unfolding release
release-Held lid n l s h = elim (Option-cases (lookup l s.lockstate_table)) [
  | inl f ↦ rw (f, release) (ground (arith, h))
  | inr (k, f) ↦ rw (f, release) (ground (arith, h, lookup-insert l lid free s.lockstate_table))
]

-- The other steps leave the table alone.
wake-table : (l : ℕ) (s : State) → (wake l s).lockstate_table ≡ s.lockstate_table
unfolding wake
wake-table l s = ground arith

sleep-table :
    (o : Option ℕ) (s : State) → (or_same (sleep_for o s) s).lockstate_table ≡ s.lockstate_table
unfolding sleep_for
sleep-table none s = refl
sleep-table (some l) s = refl

signal-table :
    (l : ℕ) (s : State) → (or_same (release_signal l s) s).lockstate_table ≡ s.lockstate_table
unfolding release_signal
signal-table l s = elim (Bool-cases (ltb 0 (s.signalling l))) [
  | inl e ↦
      rw (e, release_signal)
        (wake-table l (record s { signalling = set_count l (s.signalling l - 1) s.signalling }))
  | inr e ↦ rw (e, release_signal) refl
]

step-Held :
    (lid n : ℕ) (e : Event) (s : State)
    → Held lid n s
    → let r = step e s in Held lid (holders_after lid n e r.0) r.1
unfolding step sleep acquire acquire_again
step-Held lid n (acquires l) s h = acquire-Held lid n l s.between s h
step-Held lid n (runs l) s h = acquire_again-Held lid n l s.between s h
step-Held lid n sleeps s h = rw (sleep-table s.between s) h
step-Held lid n (wakes l) s h = rw (wake-table l s) h
step-Held lid n (releases l) s h = release-Held lid n l s h
step-Held lid n (signals l) s h = rw (signal-table l s) h

-- The steps, with the number of holders of a lock
unfoldable pub run : ℕ → List Event → ℕ × State → ℕ × State
run lid [] (n, s) = (n, s)
run lid (e ∷ es) (n, s) = let r = step e s in run lid es (holders_after lid n e r.0, r.1)

run-Held :
    (lid : ℕ) (es : List Event) (n : ℕ) (s : State)
    → Held lid n s
    → let r = run lid es (n, s) in Held lid r.0 r.1
unfolding run
run-Held lid [] n s h = h
run-Held lid (e ∷ es) n s h = run-Held lid es _ _ (step-Held lid n e s h)

-- Whatever calls, waits, releases, signals and wake-ups come in whatever order to a new server, where
-- a release can come between a test of `acquire` and its wait: no lock is granted to a second caller
-- before it has been released, and while a caller has it, it is locked.
pub exclusive_holder :
    (lid : ℕ) (es : List Event)
    → let r = run lid es (0, new_server) in (r.0 ≤ 1) × (r.0 ≡ 1 → held lid r.1 ≡ true)
unfolding new_server
exclusive_holder lid es = run-Held lid es 0 new_server (ground arith)
