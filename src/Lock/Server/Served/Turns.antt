-- ===== src/Lock/Server/Served/Turns.antt =====
-- The invariant at the turns of the threads of lock_server_cache.cc and the ends of its jobs.
use mathlib.Core.Path.{subst}
use y_f_s.Base.{
  ℕ, ◌≡◌, refl, inl, inr, Bool, true, false, ◌||◌, none, some, List, [], ◌∷◌, ◌++◌, is_empty, elem,
  elem-append, if◌then◌else◌, ◌==◌, lookup, arith, Option-cases, List-cases, Bool-cases,
}
use y_f_s.Lock.Server.{
  Lock, Job, retryer_rpc, revoker_rpc, State, entry, fresh_lock, add_job, retryer, revoker,
  retryer_rpc_end, revoker_rpc_end, retryer_turn, revoker_turn, retryer_next, revoker_next,
}
use y_f_s.Lock.Server.Steps.{Leaves}
use y_f_s.Lock.Server.Served.{AllNamed, Served, AllServed, insert-Inv}

add_job-AllServed :
    (accepted : Bool) (j : Job) (s : State) → AllServed s → AllServed (add_job accepted j s)
add_job-AllServed true j s h = h
add_job-AllServed false j s h = h

known_entry :
    (fresh : Lock) (lid : ℕ) (s : State)
    → AllServed s
    → (elem lid s.retryer_queue || elem lid s.revoker_queue) ≡ true
    → Served s.retryer_queue lid (entry fresh lid s)
unfolding entry
known_entry fresh lid s h e = elim (Option-cases (lookup lid s.lock_table)) [
  | inl f ↦ absurd (ground (arith, h.1 lid, f, e))
  | inr (l, f) ↦ rw (f, entry) (h.0 lid l f)
]

elem-tail : (lid : ℕ) (q : List ℕ) (j : ℕ) → (lid == j) ≡ false → elem j q ≡ elem j (lid ∷ q)
elem-tail lid q j ne = ground (arith, ne)

retryer_turn-AllServed :
    (accepted : Bool) (lid : ℕ) (queue : List ℕ) (s : State)
    → s.retryer_queue ≡ lid ∷ queue
    → AllServed s
    → AllServed (retryer_turn accepted lid queue s)
unfolding retryer_turn
retryer_turn-AllServed accepted lid queue s q h =
    let l = entry (fresh_lock 0) lid s in
    let known : (elem lid s.retryer_queue || elem lid s.revoker_queue) ≡ true = ground (arith, q) in
    let served = known_entry (fresh_lock 0) lid s h known in
    elim (List-cases l.waiting_cls) [
      | inl e ↦
          rw (e, retryer_turn)
            (insert-Inv s.retryer_queue _ queue _ lid _ s.lock_table h (other q) (λ j ne. refl)
              (served.0, served.1, λ x y. absurd (ground (arith, e, y))))
      | inr (client, rest, e) ↦
          let named : AllNamed (client ∷ rest) = subst AllNamed e served.1 in
          rw (e, retryer_turn)
            (add_job-AllServed accepted (retryer_rpc lid) _ (
              insert-Inv s.retryer_queue _ queue _ lid _ s.lock_table h (other q) (λ j ne. refl)
                (served.0, served.1, λ x y. absurd (ground (arith, named.0, x)))))
    ]
  where
    other :
        s.retryer_queue ≡ lid ∷ queue
        → (j : ℕ) → (lid == j) ≡ false
        → elem j queue ≡ elem j s.retryer_queue
    other q j ne = ground (arith, q, ne)

revoker_turn-AllServed :
    (accepted : Bool) (lid : ℕ) (queue : List ℕ) (s : State)
    → s.revoker_queue ≡ lid ∷ queue
    → AllServed s
    → AllServed (revoker_turn accepted lid queue s)
unfolding revoker_turn
revoker_turn-AllServed accepted lid queue s q h =
    let l = entry (fresh_lock 0) lid s in
    let known : (elem lid s.retryer_queue || elem lid s.revoker_queue) ≡ true = ground (arith, q) in
    let popped =
      insert-Inv _ s.revoker_queue _ queue lid l s.lock_table h (λ j ne. refl) (other q)
        (known_entry (fresh_lock 0) lid s h known) in
    elim (Bool-cases (is_empty l.waiting_cls)) [
      | inl e ↦ rw (e, revoker_turn) popped
      | inr e ↦ rw (e, revoker_turn) (add_job-AllServed accepted (revoker_rpc lid) _ popped)
    ]
  where
    other :
        s.revoker_queue ≡ lid ∷ queue
        → (j : ℕ) → (lid == j) ≡ false
        → elem j queue ≡ elem j s.revoker_queue
    other q j ne = ground (arith, q, ne)

retryer_next-AllServed :
    (accepted : Bool) (q : List ℕ) (s : State)
    → s.retryer_queue ≡ q
    → AllServed s
    → AllServed (retryer_next accepted q s)
retryer_next-AllServed accepted [] s e h = h
retryer_next-AllServed accepted (lid ∷ queue) s e h =
    retryer_turn-AllServed accepted lid queue s e h

pub retryer-AllServed :
    (accepted : Bool) (s : State) → AllServed s → Leaves AllServed (retryer accepted s)
unfolding retryer
retryer-AllServed accepted s h =
    go s.retryer_asleep (retryer_next-AllServed accepted s.retryer_queue s refl h)
  where
    go :
        (b : Bool)
        → AllServed (retryer_next accepted s.retryer_queue s)
        → Leaves AllServed (if b then none else some (retryer_next accepted s.retryer_queue s))
    go true k = tt
    go false k = k

revoker_next-AllServed :
    (accepted : Bool) (q : List ℕ) (s : State)
    → s.revoker_queue ≡ q
    → AllServed s
    → AllServed (revoker_next accepted q s)
revoker_next-AllServed accepted [] s e h = h
revoker_next-AllServed accepted (lid ∷ queue) s e h =
    revoker_turn-AllServed accepted lid queue s e h

pub revoker-AllServed :
    (accepted : Bool) (s : State) → AllServed s → Leaves AllServed (revoker accepted s)
unfolding revoker
revoker-AllServed accepted s h =
    go s.revoker_asleep (revoker_next-AllServed accepted s.revoker_queue s refl h)
  where
    go :
        (b : Bool)
        → AllServed (revoker_next accepted s.revoker_queue s)
        → Leaves AllServed (if b then none else some (revoker_next accepted s.revoker_queue s))
    go true k = tt
    go false k = k

-- A popped client leaves the others with their names, and the owner as it is.
popped-Served :
    (q : List ℕ) (lid : ℕ) (l : Lock) (client : List ℕ) (rest : List (List ℕ))
    → l.waiting_cls ≡ client ∷ rest
    → Served q lid l
    → Served q lid (record l { waiting_cls = rest })
popped-Served q lid l client rest e h =
    let named : AllNamed (client ∷ rest) = subst AllNamed e h.1 in
    (h.0, named.1, λ x y. h.2 x (ground (arith, e)))

own_push :
    (id lid : ℕ) (q : List ℕ) (j : ℕ)
    → id ≡ lid
    → (lid == j) ≡ false
    → elem j (q ++ (id ∷ [])) ≡ elem j q
own_push id lid q j same ne = ground (arith, same, ne, elem-append j q (id ∷ []))

pub retryer_rpc_end-AllServed :
    (answered : Bool) (lid : ℕ) (s : State)
    → AllServed s
    → Leaves AllServed (retryer_rpc_end answered lid s)
unfolding retryer_rpc_end
retryer_rpc_end-AllServed true lid s h = elim (Option-cases (lookup lid s.lock_table)) [
  | inl f ↦ rw (f, retryer_rpc_end) tt
  | inr (l, f) ↦ elim (List-cases l.waiting_cls) [
    | inl w ↦ rw (f, retryer_rpc_end) (rw (w, retryer_rpc_end) tt)
    | inr (client, rest, w) ↦
        let served = h.0 lid l f in
        let left = popped-Served s.retryer_queue lid l client rest w served in
        let same : l.id ≡ lid = served.0 in
        elim (Bool-cases (is_empty rest)) [
          | inl e ↦
              rw (f, retryer_rpc_end)
                (rw (w, retryer_rpc_end)
                  (rw (e, retryer_rpc_end)
                    (insert-Inv _ _ _ _ lid _ s.lock_table h (λ j ne. refl) (λ j ne. refl) left)))
          | inr e ↦
              rw (f, retryer_rpc_end)
                (rw (w, retryer_rpc_end)
                  (rw (e, retryer_rpc_end)
                    (insert-Inv _ s.revoker_queue _ _ lid _ s.lock_table h (λ j ne. refl)
                      (λ j ne. own_push l.id lid s.revoker_queue j same ne) left)))
        ]
  ]
]
retryer_rpc_end-AllServed false lid s h = elim (Option-cases (lookup lid s.lock_table)) [
  | inl f ↦ rw (f, retryer_rpc_end) tt
  | inr (l, f) ↦
      let served = h.0 lid l f in
      let pushed : elem lid (s.retryer_queue ++ (l.id ∷ [])) ≡ true =
        ground (arith, served.0, elem-append lid s.retryer_queue (l.id ∷ [])) in
      rw (f, retryer_rpc_end)
        (insert-Inv s.retryer_queue _ _ _ lid _ s.lock_table h
          (λ j ne. own_push l.id lid s.retryer_queue j served.0 ne) (λ j ne. refl)
          (served.0, served.1, λ x y. pushed))
]

pub revoker_rpc_end-AllServed :
    (answered : Bool) (lid : ℕ) (s : State)
    → AllServed s
    → Leaves AllServed (revoker_rpc_end answered lid s)
unfolding revoker_rpc_end
revoker_rpc_end-AllServed answered lid s h = elim (Option-cases (lookup lid s.lock_table)) [
  | inl f ↦ rw (f, revoker_rpc_end) tt
  | inr (l, f) ↦ rw (f, revoker_rpc_end) (go answered l f)
]
  where
    go :
        (b : Bool) (l : Lock)
        → lookup lid s.lock_table ≡ some l
        → AllServed (if b then s else record s { revoker_queue = s.revoker_queue ++ (l.id ∷ []) })
    go true l f = h
    go false l f = (
      h.0,
      λ j e. ground (arith, f, (h.0 lid l f).0, h.1 j, elem-append j s.revoker_queue (l.id ∷ [])),
    )
