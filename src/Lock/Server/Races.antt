-- ===== src/Lock/Server/Races.antt =====
-- Steps of lock_server_cache.cc around a release, a full thread pool and a failed retry.
use y_f_s.Base.{
  ℕ, ◌≡◌, refl, ap, ◌∙◌, Bool, true, false, none, some, List, [], ◌∷◌, ◌++◌, elem, elem-append,
  if◌then◌else◌, lookup, lookup-insert, arith,
}
use y_f_s.Lock.Server.{
  ok, Lock, retryer_rpc, State, entry, fresh_lock, set_lock, add_job, acquire, retryer,
  retryer_rpc_end, retryer_turn, retryer_next,
}

abbrev pub owner_of : ℕ → State → List ℕ
owner_of lid s = elim (lookup lid s.lock_table) [ none ↦ [] | some l ↦ l.owner_cl ]

acquire-free :
    (lid : ℕ) (id : List ℕ) (s : State) (l : Lock)
    → lookup lid s.lock_table ≡ some l
    → l.owner_cl ≡ []
    → acquire lid id s ≡ (ok, set_lock lid (record l { owner_cl = id }) s)
unfolding acquire entry
acquire-free lid id s l f free = rw (f, acquire, entry) (rw (free, acquire) refl)

retryer-grants :
    (accepted : Bool) (lid : ℕ) (client : List ℕ) (rest : List (List ℕ)) (queue : List ℕ)
    (s : State) (l : Lock)
    → lookup lid s.lock_table ≡ some l
    → l.waiting_cls ≡ client ∷ rest
    → s.retryer_queue ≡ lid ∷ queue
    → s.retryer_asleep ≡ false
    → retryer accepted s
      ≡ some (
          add_job accepted
            (retryer_rpc lid)
            (set_lock lid (record l { owner_cl = client }) (record s { retryer_queue = queue })))
unfolding retryer retryer_turn entry
retryer-grants accepted lid client rest queue s l f w q e =
    let popped = record s { retryer_queue = queue } in
    let grant : Lock → List (List ℕ) → State = λ k cs. elim cs [
      | [] ↦ set_lock lid k popped
      | c ∷ others ↦
          add_job accepted (retryer_rpc lid) (set_lock lid (record k { owner_cl = c }) popped)
    ] in
    let found : entry (fresh_lock 0) lid s ≡ l = rw (f, entry) refl in
    ap (λ b. if b then none else some (retryer_next accepted s.retryer_queue s)) e
    ∙ ap (λ x. some (retryer_next accepted x s)) q
    ∙ ap (λ k. some (grant k k.waiting_cls)) found
    ∙ ap (λ cs. some (grant l cs)) w

-- A lock that was released while clients wait for it can be acquired by another client before the
-- retryer grants it to the first of them: the new client is told that it has the lock, and the
-- retryer's turn then gives it to the waiting client all the same.
pub grant_overwritten :
    (lid : ℕ) (id client : List ℕ) (rest : List (List ℕ)) (queue : List ℕ) (s : State) (l : Lock)
    → lookup lid s.lock_table ≡ some l
    → l.owner_cl ≡ []
    → l.waiting_cls ≡ client ∷ rest
    → s.retryer_queue ≡ lid ∷ queue
    → s.retryer_asleep ≡ false
    → ((acquire lid id s).0 ≡ ok)
      × (owner_of lid (acquire lid id s).1 ≡ id)
      × ((t : State) × (retryer true (acquire lid id s).1 ≡ some t)
          × (owner_of lid t ≡ client)
          × (t.jobs ≡ s.jobs ++ (retryer_rpc lid ∷ [])))
grant_overwritten lid id client rest queue s l f free w q awake =
    let taken = record l { owner_cl = id } in
    let s' = set_lock lid taken s in
    let here : lookup lid s'.lock_table ≡ some taken =
      ground (arith, lookup-insert lid lid taken s.lock_table) in
    let got = retryer-grants true lid client rest queue s' taken here w q awake in
    let taken_next = acquire-free lid id s l f free in
    (
      ap (λ r. r.0) taken_next,
      ap (λ r. owner_of lid r.1) taken_next ∙ ground (arith, here),
      (
        _,
        ap (λ r. retryer true r.1) taken_next ∙ got,
        ground (arith, lookup-insert lid lid (record taken { owner_cl = client }) s'.lock_table),
        refl,
      ),
    )

-- Where the pool refuses the retryer's job, the first waiting client becomes the owner but no job
-- will tell it, and the lock's key has left the retryer's queue.
pub grant_forgotten :
    (lid : ℕ) (client : List ℕ) (rest : List (List ℕ)) (queue : List ℕ) (s : State) (l : Lock)
    → lookup lid s.lock_table ≡ some l
    → l.waiting_cls ≡ client ∷ rest
    → s.retryer_queue ≡ lid ∷ queue
    → s.retryer_asleep ≡ false
    → (t : State) × (retryer false s ≡ some t)
      × (owner_of lid t ≡ client)
      × (t.jobs ≡ s.jobs)
      × (t.retryer_queue ≡ queue)
grant_forgotten lid client rest queue s l f w q awake = (
  _,
  retryer-grants false lid client rest queue s l f w q awake,
  ground (arith, lookup-insert lid lid (record l { owner_cl = client }) s.lock_table),
  refl,
  refl,
)

-- If the retryer's thread sleeps when the call that tells a client of its grant fails, the lock
-- is free again and its key stands in the retryer's queue, but the thread is not woken and cannot
-- take a turn.
pub failed_retry_sleeps :
    (lid : ℕ) (accepted : Bool) (s : State) (l : Lock)
    → lookup lid s.lock_table ≡ some l
    → l.id ≡ lid
    → s.retryer_asleep ≡ true
    → (t : State) × (retryer_rpc_end false lid s ≡ some t)
      × (owner_of lid t ≡ [])
      × (elem lid t.retryer_queue ≡ true)
      × (retryer accepted t ≡ none)
unfolding retryer_rpc_end retryer
failed_retry_sleeps lid accepted s l f same asleep =
    let t =
      set_lock lid (record l { owner_cl = [] })
        (record s { retryer_queue = s.retryer_queue ++ (l.id ∷ []) }) in
    (
      t,
      rw (f, retryer_rpc_end) refl,
      ground (arith, lookup-insert lid lid (record l { owner_cl = [] }) s.lock_table),
      ground (arith, same, elem-append lid s.retryer_queue (l.id ∷ [])),
      ap (λ b. if b then none else some (retryer_next accepted t.retryer_queue t)) asleep,
    )
