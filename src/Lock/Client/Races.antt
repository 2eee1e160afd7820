-- ===== src/Lock/Client/Races.antt =====
-- Orders of steps in which the client's locks go wrong.
use y_f_s.Base.{
  ℕ, ◌≡◌, ◌≢◌, refl, ap, true, false, some, [], ◌∷◌, ◌++◌, lookup, lookup-insert_self, ==_refl,
  arith,
}
use y_f_s.Lock.Client.{
  acquiring, releasing, CacheLock, Client, got, enter_at, enter, called, retry_at, releaser_end_at,
}
use y_f_s.Lock.Client.Steps.{acquire, answer, retry, answer_release, step}
use y_f_s.Lock.Client.Exclusive.{holders}

-- Where a lock is in the state ACQUIRING, and the server's retry comes, another thread acquires the
-- lock, and then the first thread's call returns anything but RETRY, such as a failure of the RPC,
-- both threads hold the lock.
pub late_answer_doubles :
    (lid t u : ℕ) (l : CacheLock) (c : Client)
    → t ≢ u
    → lookup lid c.cachelock_table ≡ some l
    → l.state ≡ acquiring
    → holders lid (retry lid ∷ acquire u lid ∷ answer false t lid ∷ []) c [] ≡ t ∷ u ∷ []
unfolding holders step retry_at enter enter_at called got
late_answer_doubles lid t u l c n e a =
    rw (e, a) (simp (lookup-insert_self, ==_refl) (ground arith))

-- A release that the server does not answer with OK is queued for the releaser again, but no thread
-- is signalled, and the lock stays in the state RELEASING.
pub failed_release_sleeps :
    (lid : ℕ) (l : CacheLock) (c : Client)
    → lookup lid c.cachelock_table ≡ some l
    → l.state ≡ releasing
    → let f = step (answer_release false lid) c in
      (f.signals ≡ [])
      × (f.client.releaser_queue ≡ c.releaser_queue ++ lid ∷ [])
      × (lookup lid f.client.cachelock_table ≡ some l)
unfolding step releaser_end_at
failed_release_sleeps lid l c e r =
    let q : releaser_end_at l.state false lid l ≡ some (l, true, []) =
      ap (λ s. releaser_end_at s false lid l) r in
    rw e (rw q (refl, refl, lookup-insert_self lid l c.cachelock_table))
