-- ===== src/Lock/Client/Exclusive.antt =====
-- Which threads of a client hold a lock.
use y_f_s.Base.{
  ℕ, ◌+◌, ◌≤◌, ◌≡◌, refl, ap, sym, ◌∙◌, inl, inr, Bool, true, false, Option, none, some, List, [],
  ◌∷◌, ◌==◌, if◌then◌else◌, length, Table, lookup, lookup-insert, lookup-empty, Bool-cases,
  Option-cases, arith,
}
use y_f_s.Lock.Client.{
  LockState, none_held, free, locked, acquiring, releasing, CacheLock, Client, Acquire, new_lock,
  retry_wait, enter, called, Signal, release_lock, Releaser, failed, waits, calls, timed_out,
}
use y_f_s.Lock.Client.Agrees.{
  drop_thread, moved, holders_at, recorded, lock_of, Agrees, Frees, Retries, Ends,
  retry_wait-Agrees, enter-Agrees, called-Agrees, release_agrees, revoke_agrees, retry_agrees,
  begin_agrees, wake_agrees, end_agrees,
}
use y_f_s.Lock.Client.Steps.{
  Outcome, broken, Effect, Event, acquire, wake, answer, release, revoke, revoke_wake, retry, turn,
  begin, tick, answer_release, step, run, new_client, entry, put, with_lock, acquire_effect,
  release_effect, revoke_effect, retry_effect, releaser_effect, end_effect, acquire_outcome,
  releaser_turn,
}

abbrev pub moved_by : ℕ → Event → Outcome → List ℕ → List ℕ
moved_by lid (acquire t i) o hs = if i == lid then moved t o hs else hs
moved_by lid (wake t i) o hs = if i == lid then moved t o hs else hs
moved_by lid (answer again t i) o hs = if i == lid then moved t o hs else hs
moved_by lid (release t i) o hs = if i == lid then moved t o hs else hs
moved_by lid (revoke i) o hs = hs
moved_by lid (revoke_wake i) o hs = hs
moved_by lid (retry i) o hs = hs
moved_by lid turn o hs = hs
moved_by lid (begin i) o hs = hs
moved_by lid (tick i) o hs = hs
moved_by lid (answer_release ok i) o hs = hs

unfoldable pub holders : ℕ → List Event → Client → List ℕ → List ℕ
holders lid [] c hs = hs
holders lid (e ∷ es) c hs =
    let f = step e c in holders lid es f.client (moved_by lid e f.outcome hs)

-- A call of `acquire` that does not return RETRY returns while the client still waits for it: the
-- server has not asked for a retry before.
abbrev pub StillAcquiring : Option CacheLock → Type 0
StillAcquiring none = Unit
StillAcquiring (some l) = l.state ≡ acquiring

abbrev pub InTime : Event → Client → Type 0
InTime (answer false t i) c = StillAcquiring (lookup i c.cachelock_table)
InTime (answer true t i) c = Unit
InTime (acquire t i) c = Unit
InTime (wake t i) c = Unit
InTime (release t i) c = Unit
InTime (revoke i) c = Unit
InTime (revoke_wake i) c = Unit
InTime (retry i) c = Unit
InTime turn c = Unit
InTime (begin i) c = Unit
InTime (tick i) c = Unit
InTime (answer_release ok i) c = Unit

abbrev pub AllInTime : List Event → Client → Type 0
AllInTime [] c = Unit
AllInTime (e ∷ es) c = InTime e c × AllInTime es (step e c).client

-- A step that puts a lock with the same holders changes none.
put_keeps :
    (i lid : ℕ) (l : CacheLock) (c : Client)
    → lock_of l ≡ recorded (lookup i c.cachelock_table)
    → recorded (lookup lid (put i l c).cachelock_table) ≡ recorded (lookup lid c.cachelock_table)
put_keeps i lid l c e = rw (lookup-insert i lid l c.cachelock_table) (elim (Bool-cases (i == lid)) [
  | inl same ↦ let q : i ≡ lid = ground arith in rw same (rw (← q) e)
  | inr other ↦ rw other
])

-- A thread's step on a lock.
acquire_effect-Agrees :
    (t i lid : ℕ) (l : CacheLock) (r : Acquire × CacheLock) (c : Client)
    → lock_of l ≡ recorded (lookup i c.cachelock_table)
    → Agrees t l r
    → let f = acquire_effect i c r in
      let hs = recorded (lookup lid c.cachelock_table) in
      recorded (lookup lid f.client.cachelock_table)
      ≡ (if i == lid then moved t f.outcome hs else hs)
acquire_effect-Agrees t i lid l (a, l') c e h =
    rw (lookup-insert i lid l' c.cachelock_table) (elim (Bool-cases (i == lid)) [
      | inl same ↦
          let q : i ≡ lid = ground arith in
          rw same (rw (← q) (h ∙ ap (moved t (acquire_outcome a)) e))
      | inr other ↦ rw other
    ])

release_effect_agrees :
    (t i lid : ℕ) (l : CacheLock) (r : Option (CacheLock × Signal)) (c : Client)
    → lock_of l ≡ recorded (lookup i c.cachelock_table)
    → Frees t l r
    → let f = release_effect i c r in
      let hs = recorded (lookup lid c.cachelock_table) in
      recorded (lookup lid f.client.cachelock_table)
      ≡ (if i == lid then moved t f.outcome hs else hs)
release_effect_agrees t i lid l none c e h = ground arith
release_effect_agrees t i lid l (some (l', signal)) c e h =
    rw (lookup-insert i lid l' c.cachelock_table) (elim (Bool-cases (i == lid)) [
      | inl same ↦ let q : i ≡ lid = ground arith in rw same (rw (← q) (h ∙ ap (drop_thread t) e))
      | inr other ↦ rw other
    ])

-- One step agrees with its outcome.
abbrev StepAgrees : ℕ → Event → Client → Type 0
StepAgrees lid e c =
    recorded (lookup lid (step e c).client.cachelock_table)
    ≡ moved_by lid e (step e c).outcome (recorded (lookup lid c.cachelock_table))

acquire-agrees : (lid t i : ℕ) (c : Client) → StepAgrees lid (acquire t i) c
unfolding step enter
acquire-agrees lid t i c = go (lookup i c.cachelock_table) refl
  where
    go :
        (o : Option CacheLock)
        → lookup i c.cachelock_table ≡ o
        → let f = acquire_effect i c (enter t (entry o)) in
          let hs = recorded (lookup lid c.cachelock_table) in
          recorded (lookup lid f.client.cachelock_table)
          ≡ (if i == lid then moved t f.outcome hs else hs)
    go none e =
        acquire_effect-Agrees t i lid new_lock (enter t new_lock) c (rw e)
          (enter-Agrees t none_held (record new_lock { wait_threads = 1 }) refl)
    go (some l) e =
        acquire_effect-Agrees t i lid l (enter t l) c (rw e)
          (enter-Agrees t l.state (record l { wait_threads = l.wait_threads + 1 }) refl)

waker-Agrees :
    (lid t i : ℕ) (c : Client) (f : CacheLock → Acquire × CacheLock)
    → ((l : CacheLock) → lookup i c.cachelock_table ≡ some l → Agrees t l (f l))
    → let g = with_lock (lookup i c.cachelock_table) c broken (λ l. acquire_effect i c (f l)) in
      let hs = recorded (lookup lid c.cachelock_table) in
      recorded (lookup lid g.client.cachelock_table)
      ≡ (if i == lid then moved t g.outcome hs else hs)
waker-Agrees lid t i c f h = elim (Option-cases (lookup i c.cachelock_table)) [
  | inl gone ↦ rw gone (ground arith)
  | inr (l, e) ↦ rw e (acquire_effect-Agrees t i lid l (f l) c (rw e) (h l e))
]

release-agrees : (lid t i : ℕ) (c : Client) → StepAgrees lid (release t i) c
unfolding step release_lock
release-agrees lid t i c = elim (Option-cases (lookup i c.cachelock_table)) [
  | inl gone ↦ rw gone (ground arith)
  | inr (l, e) ↦ rw e (
      release_effect_agrees t i lid l (release_lock t i l) c (rw e)
        (release_agrees t i l.state l refl))
]

-- The steps of no thread of the program's.
quiet :
    (lid i : ℕ) (c : Client) (o : Outcome) (g : CacheLock → Effect)
    → ((l : CacheLock)
        → lookup i c.cachelock_table ≡ some l
        → recorded (lookup lid (g l).client.cachelock_table)
          ≡ recorded (lookup lid c.cachelock_table))
    → recorded (lookup lid (with_lock (lookup i c.cachelock_table) c o g).client.cachelock_table)
      ≡ recorded (lookup lid c.cachelock_table)
quiet lid i c o g h = elim (Option-cases (lookup i c.cachelock_table)) [
  | inl gone ↦ rw gone
  | inr (l, e) ↦ rw e (h l e)
]

revoke_effect-keeps :
    (lid i : ℕ) (c : Client) (r : Bool × CacheLock)
    → lock_of r.1 ≡ recorded (lookup i c.cachelock_table)
    → recorded (lookup lid (revoke_effect i c r).client.cachelock_table)
      ≡ recorded (lookup lid c.cachelock_table)
revoke_effect-keeps lid i c (true, l) e = put_keeps i lid l c e
revoke_effect-keeps lid i c (false, l) e = put_keeps i lid l c e

releaser_effect-keeps :
    (lid i : ℕ) (c : Client) (r : Releaser × CacheLock × List Signal)
    → lock_of r.1 ≡ recorded (lookup i c.cachelock_table)
    → recorded (lookup lid (releaser_effect i c r).client.cachelock_table)
      ≡ recorded (lookup lid c.cachelock_table)
releaser_effect-keeps lid i c (failed, l, signals) e = refl
releaser_effect-keeps lid i c (waits, l, signals) e = put_keeps i lid l c e
releaser_effect-keeps lid i c (calls, l, signals) e = put_keeps i lid l c e

retry_effect-keeps :
    (lid i : ℕ) (c : Client) (l : CacheLock) (r : Option CacheLock)
    → lock_of l ≡ recorded (lookup i c.cachelock_table)
    → Retries l r
    → recorded (lookup lid (retry_effect i c r).client.cachelock_table)
      ≡ recorded (lookup lid c.cachelock_table)
retry_effect-keeps lid i c l none e h = refl
retry_effect-keeps lid i c l (some l') e h = put_keeps i lid l' c (h ∙ e)

end_effect-keeps :
    (lid i : ℕ) (c : Client) (l : CacheLock) (r : Option (CacheLock × Bool × List Signal))
    → lock_of l ≡ recorded (lookup i c.cachelock_table)
    → Ends l r
    → recorded (lookup lid (end_effect i c r).client.cachelock_table)
      ≡ recorded (lookup lid c.cachelock_table)
end_effect-keeps lid i c l none e h = refl
end_effect-keeps lid i c l (some (l', again, signals)) e h = put_keeps i lid l' c (h ∙ e)

turn-table :
    (queue : List ℕ) (c : Client)
    → (releaser_turn queue c).client.cachelock_table ≡ c.cachelock_table
unfolding releaser_turn
turn-table [] c = refl
turn-table (i ∷ rest) c = refl

step-agrees : (lid : ℕ) (e : Event) (c : Client) → InTime e c → StepAgrees lid e c
unfolding step retry_wait
step-agrees lid (acquire t i) c h = acquire-agrees lid t i c
step-agrees lid (release t i) c h = release-agrees lid t i c
step-agrees lid (wake t i) c h =
    waker-Agrees lid t i c (retry_wait t) (λ l e. retry_wait-Agrees t l.state l refl)
step-agrees lid (answer true t i) c h =
    waker-Agrees lid t i c (called true t) (λ l e. called-Agrees t true l (λ k. cc))
step-agrees lid (answer false t i) c h =
    waker-Agrees lid t i c (called false t) (λ l e. called-Agrees t false l (λ k. rw e at h))
step-agrees lid (revoke i) c h = quiet lid i c _ _ (λ l e.
    revoke_effect-keeps lid i c _
      (revoke_agrees l.state (record l { ifrevoke = true }) refl ∙ rw e))
step-agrees lid (revoke_wake i) c h =
    quiet lid i c _ _ (λ l e. revoke_effect-keeps lid i c _ (revoke_agrees l.state l refl ∙ rw e))
step-agrees lid (retry i) c h =
    quiet lid i c _ _ (λ l e. retry_effect-keeps lid i c l _ (rw e) (retry_agrees l.state l refl))
step-agrees lid turn c h =
    ap (λ (m : Table CacheLock). recorded (lookup lid m)) (turn-table c.releaser_queue c)
step-agrees lid (begin i) c h =
    quiet lid i c _ _ (λ l e. releaser_effect-keeps lid i c _ (begin_agrees l.state l refl ∙ rw e))
step-agrees lid (tick i) c h =
    quiet lid i c _ _
      (λ l e. releaser_effect-keeps lid i c _ (wake_agrees l.state (timed_out l) refl ∙ rw e))
step-agrees lid (answer_release ok i) c h =
    quiet lid i c _ _ (λ l e. end_effect-keeps lid i c l _ (rw e) (end_agrees ok i l.state l refl))

holders-agrees :
    (lid : ℕ) (es : List Event) (c : Client)
    → AllInTime es c
    → holders lid es c (recorded (lookup lid c.cachelock_table))
      ≡ recorded (lookup lid (run es c).cachelock_table)
unfolding holders run
holders-agrees lid [] c h = refl
holders-agrees lid (e ∷ es) c h =
    ap (holders lid es (step e c).client) (sym (step-agrees lid e c h.0))
    ∙ holders-agrees lid es _ h.1

recorded-le : (o : Option CacheLock) → length (recorded o) ≤ 1
recorded-le none = omega arith
recorded-le (some l) = go l.state
  where
    go : (s : LockState) → length (holders_at s l.owner) ≤ 1
    go locked = omega arith
    go free = omega arith
    go none_held = omega arith
    go acquiring = omega arith
    go releasing = omega arith

-- In a new client, after any steps of its threads, of the server's calls and of the releaser, where
-- each call of `acquire` that does not return RETRY returns while its lock is still in the state
-- ACQUIRING: at most one thread holds a lock, by the calls of `acquire` that have returned and the
-- calls of `release` that returned OK; it is the lock's owner, and the lock is in the state LOCKED.
pub one_holder :
    (lid : ℕ) (es : List Event)
    → AllInTime es new_client
    → (length (holders lid es new_client []) ≤ 1)
      × (holders lid es new_client [] ≡ recorded (lookup lid (run es new_client).cachelock_table))
one_holder lid es h =
    let same = ap (holders lid es new_client) start ∙ holders-agrees lid es new_client h in
    (rw same (recorded-le _), same)
  where
    start : [] ≡ recorded (lookup lid new_client.cachelock_table)
    start = rw lookup-empty
