-- ===== src/Lock/Server/Turns.antt =====
-- What each step of lock_server_cache.cc does to the clients that wait for a lock.
use y_f_s.Base.{
  ℕ, ◌≡◌, refl, ap, sym, ◌∙◌, inl, inr, Bool, true, false, not, ◌&&◌, Option, none, some, List, [],
  ◌∷◌, ◌++◌, append-nil, is_empty, str_eq, if◌then◌else◌, ◌==◌, Table, lookup, insert,
  lookup-insert, arith, Option-cases, List-cases, Bool-cases,
}
use y_f_s.Lock.Server.{
  ok, retry, Lock, Job, retryer_rpc, revoker_rpc, State, entry, fresh_lock, add_job, acquire,
  release, retryer, revoker, retryer_rpc_end, revoker_rpc_end, retryer_turn, revoker_turn,
  retryer_next, revoker_next,
}
use y_f_s.Lock.Server.Steps.{
  Event, acquires, releases, retryer_turns, revoker_turns, retry_ends, revoke_ends, with_job, step,
  Leaves,
}

abbrev pub waiting_of : ℕ → Table Lock → List (List ℕ)
waiting_of lid m = elim (lookup lid m) [ none ↦ [] | some l ↦ l.waiting_cls ]

-- The clients that wait for the lock
abbrev pub waits : ℕ → State → List (List ℕ)
waits lid s = waiting_of lid s.lock_table

abbrev pub one_if : Bool → List ℕ → List (List ℕ)
one_if b c = if b then c ∷ [] else []

abbrev pub owned_of : ℕ → Table Lock → Bool
owned_of lid m = elim (lookup lid m) [ none ↦ false | some l ↦ not (is_empty l.owner_cl) ]

-- Whether the lock has an owner
abbrev pub has_owner : ℕ → State → Bool
has_owner lid s = owned_of lid s.lock_table

abbrev pub first : List (List ℕ) → List (List ℕ)
first [] = []
first (c ∷ cs) = c ∷ []

-- The client that asks for the lock while it has an owner
abbrev pub asks_late : ℕ → Event → State → List (List ℕ)
asks_late lid (acquires l id) s = one_if (l == lid && has_owner l s) id
asks_late lid _ s = []

-- What an `acquire` answers: to wait, exactly where the lock has an owner.
abbrev pub Answered : Event → State → Type 0
Answered (acquires l id) s = (acquire l id s).0 ≡ (if has_owner l s then retry else ok)
Answered _ s = Unit

-- The client whose wait for the lock the step ends
abbrev pub granted : ℕ → Event → State → List (List ℕ)
granted lid (retry_ends true l) s = if l == lid then first (waits lid s) else []
granted lid _ s = []

abbrev pub InTurn : ℕ → Event → State → State → Type 0
InTurn lid e s s' = waits lid s ++ asks_late lid e s ≡ granted lid e s ++ waits lid s'

waiting_of-insert :
    (lid l : ℕ) (k : Lock) (m : Table Lock)
    → waiting_of lid (insert l k m) ≡ (if l == lid then k.waiting_cls else waiting_of lid m)
waiting_of-insert lid l k m = ground (arith, lookup-insert l lid k m)

waiting_of_same :
    (l lid : ℕ) (m : Table Lock) → (l == lid) ≡ true → waiting_of lid m ≡ waiting_of l m
waiting_of_same l lid m e = let same : l ≡ lid = ground (arith, e) in rw same refl

waits-entry :
    (fresh : Lock) (l : ℕ) (s : State)
    → fresh.waiting_cls ≡ []
    → (entry fresh l s).waiting_cls ≡ waits l s
unfolding entry
waits-entry fresh l s e = ground (arith, e)

-- An entry that is written back with the same waiting clients
waits_kept :
    (lid l : ℕ) (k : Lock) (m : Table Lock)
    → k.waiting_cls ≡ waiting_of l m
    → waiting_of lid (insert l k m) ≡ waiting_of lid m
waits_kept lid l k m w = ground (arith, w, waiting_of-insert lid l k m, waiting_of_same l lid m)

-- An entry that is written back with one more client
waits_appended :
    (lid l : ℕ) (id : List ℕ) (k : Lock) (m : Table Lock)
    → k.waiting_cls ≡ waiting_of l m ++ (id ∷ [])
    → waiting_of lid m ++ one_if (l == lid && true) id ≡ waiting_of lid (insert l k m)
waits_appended lid l id k m w = elim (Bool-cases (l == lid)) [
  | inl same ↦
      ap (λ x. x ++ one_if (l == lid && true) id) (waiting_of_same l lid m same)
      ∙ ground (arith, same, w, waiting_of-insert lid l k m)
  | inr ne ↦ ground (arith, ne, append-nil (waiting_of lid m), waiting_of-insert lid l k m)
]

-- An entry that is written back without its first waiting client
waits_popped :
    (lid l : ℕ) (c : List ℕ) (k : Lock) (m : Table Lock)
    → waiting_of l m ≡ c ∷ k.waiting_cls
    → waiting_of lid m ++ []
      ≡ (if l == lid then first (waiting_of lid m) else []) ++ waiting_of lid (insert l k m)
waits_popped lid l c k m w = elim (Bool-cases (l == lid)) [
  | inl same ↦
      let at_lid : waiting_of lid m ≡ c ∷ k.waiting_cls = waiting_of_same l lid m same ∙ w in
      let new : waiting_of lid (insert l k m) ≡ k.waiting_cls =
        ground (arith, same, waiting_of-insert lid l k m) in
      append-nil _ ∙ rw (at_lid) (rw (same) (rw new refl))
  | inr ne ↦ ground (arith, ne, append-nil (waiting_of lid m), waiting_of-insert lid l k m)
]

has_owner-entry :
    (fresh : Lock) (l : ℕ) (s : State)
    → fresh.owner_cl ≡ []
    → has_owner l s ≡ not (is_empty (entry fresh l s).owner_cl)
unfolding entry
has_owner-entry fresh l s e = ground (arith, e)

pub step-Answered : (e : Event) (s : State) → Answered e s
unfolding acquire
step-Answered (acquires l id) s =
    rw (has_owner-entry (fresh_lock l) l s refl)
      (elim (Bool-cases (is_empty (entry (fresh_lock l) l s).owner_cl)) [
        | inl e ↦ rw e refl
        | inr e ↦ rw e refl
      ])
step-Answered (releases l id) s = tt
step-Answered (retryer_turns b) s = tt
step-Answered (revoker_turns b) s = tt
step-Answered (retry_ends b l) s = tt
step-Answered (revoke_ends b l) s = tt

none_late :
    (lid l : ℕ) (id : List ℕ) (s : State)
    → waits lid s ++ one_if (l == lid && false) id ≡ waits lid s
none_late lid l id s = ground (arith, append-nil (waits lid s))

acquire-InTurn :
    (lid l : ℕ) (id : List ℕ) (s : State) → InTurn lid (acquires l id) s (acquire l id s).1
unfolding acquire
acquire-InTurn lid l id s =
    let k = entry (fresh_lock l) l s in
    let here = waits-entry (fresh_lock l) l s refl in
    rw (has_owner-entry (fresh_lock l) l s refl) (elim (Bool-cases (is_empty k.owner_cl)) [
      | inl e ↦ rw (e, acquire) (none_late lid l id s ∙ sym (waits_kept lid l _ s.lock_table here))
      | inr e ↦ elim (Bool-cases (is_empty k.waiting_cls)) [
        | inl w ↦
            rw (e, acquire)
              (rw (w, acquire)
                (waits_appended lid l id _ s.lock_table (ap (λ x. x ++ (id ∷ [])) here)))
        | inr w ↦
            rw (e, acquire)
              (rw (w, acquire)
                (waits_appended lid l id _ s.lock_table (ap (λ x. x ++ (id ∷ [])) here)))
      ]
    ])

release-InTurn :
    (lid l : ℕ) (id : List ℕ) (s : State) → InTurn lid (releases l id) s (release l id s).1
unfolding release
release-InTurn lid l id s = elim (Option-cases (lookup l s.lock_table)) [
  | inl f ↦ rw (f, release) (append-nil _)
  | inr (k, f) ↦ elim (Bool-cases (str_eq k.owner_cl id)) [
    | inl e ↦
        rw (f, release)
          (rw (e, release)
            (append-nil _ ∙ sym (waits_kept lid l _ s.lock_table (ground (arith, f)))))
    | inr e ↦ rw (f, release) (rw (e, release) (append-nil _))
  ]
]

waits-add_job :
    (accepted : Bool) (j : Job) (lid : ℕ) (s : State)
    → waits lid (add_job accepted j s) ≡ waits lid s
waits-add_job true j lid s = refl
waits-add_job false j lid s = refl

retryer_next-waits :
    (accepted : Bool) (q : List ℕ) (lid : ℕ) (s : State)
    → waits lid s ≡ waits lid (retryer_next accepted q s)
unfolding retryer_turn
retryer_next-waits accepted [] lid s = refl
retryer_next-waits accepted (l ∷ q) lid s =
    let here = waits-entry (fresh_lock 0) l s refl in
    elim (List-cases (entry (fresh_lock 0) l s).waiting_cls) [
      | inl w ↦ rw (w, retryer_turn) (sym (waits_kept lid l _ s.lock_table here))
      | inr (c, cs, w) ↦
          rw (w, retryer_turn)
            (sym
              (waits-add_job accepted (retryer_rpc l) lid _ ∙ waits_kept lid l _ s.lock_table here))
    ]

revoker_next-waits :
    (accepted : Bool) (q : List ℕ) (lid : ℕ) (s : State)
    → waits lid s ≡ waits lid (revoker_next accepted q s)
unfolding revoker_turn
revoker_next-waits accepted [] lid s = refl
revoker_next-waits accepted (l ∷ q) lid s =
    let here = waits-entry (fresh_lock 0) l s refl in
    elim (Bool-cases (is_empty (entry (fresh_lock 0) l s).waiting_cls)) [
      | inl w ↦ rw (w, revoker_turn) (sym (waits_kept lid l _ s.lock_table here))
      | inr w ↦
          rw (w, revoker_turn)
            (sym
              (waits-add_job accepted (revoker_rpc l) lid _ ∙ waits_kept lid l _ s.lock_table here))
    ]

-- A thread's turn, where its thread is awake
awake :
    (b : Bool) (w : List (List ℕ)) (lid : ℕ) (s : State)
    → w ≡ waits lid s
    → Leaves (λ t. w ++ [] ≡ waits lid t) (if b then none else some s)
awake true w lid s e = tt
awake false w lid s e = append-nil w ∙ e

retry_end_ok :
    (lid l : ℕ) (s : State) → Leaves (InTurn lid (retry_ends true l) s) (retryer_rpc_end true l s)
unfolding retryer_rpc_end
retry_end_ok lid l s = elim (Option-cases (lookup l s.lock_table)) [
  | inl f ↦ rw (f, retryer_rpc_end) tt
  | inr (k, f) ↦ elim (List-cases k.waiting_cls) [
    | inl w ↦ rw (f, retryer_rpc_end) (rw (w, retryer_rpc_end) tt)
    | inr (c, cs, w) ↦
        let here : waits l s ≡ c ∷ cs = ground (arith, f, w) in
        let popped = waits_popped lid l c (record k { waiting_cls = cs }) s.lock_table here in
        elim (Bool-cases (is_empty cs)) [
          | inl e ↦
              rw (f, retryer_rpc_end) (rw (w, retryer_rpc_end) (rw (e, retryer_rpc_end) popped))
          | inr e ↦
              rw (f, retryer_rpc_end) (rw (w, retryer_rpc_end) (rw (e, retryer_rpc_end) popped))
        ]
  ]
]

retry_end_failed :
    (lid l : ℕ) (s : State) → Leaves (InTurn lid (retry_ends false l) s) (retryer_rpc_end false l s)
unfolding retryer_rpc_end
retry_end_failed lid l s = elim (Option-cases (lookup l s.lock_table)) [
  | inl f ↦ rw (f, retryer_rpc_end) tt
  | inr (k, f) ↦
      rw (f, retryer_rpc_end)
        (append-nil _ ∙ sym (waits_kept lid l _ s.lock_table (ground (arith, f))))
]

revoke_end-InTurn :
    (answered : Bool) (lid l : ℕ) (s : State)
    → Leaves (InTurn lid (revoke_ends answered l) s) (revoker_rpc_end answered l s)
unfolding revoker_rpc_end
revoke_end-InTurn true lid l s = elim (Option-cases (lookup l s.lock_table)) [
  | inl f ↦ rw (f, revoker_rpc_end) tt
  | inr (k, f) ↦ rw (f, revoker_rpc_end) (append-nil _)
]
revoke_end-InTurn false lid l s = elim (Option-cases (lookup l s.lock_table)) [
  | inl f ↦ rw (f, revoker_rpc_end) tt
  | inr (k, f) ↦ rw (f, revoker_rpc_end) (append-nil _)
]

with_job-InTurn :
    (f : State → Option State) (lid : ℕ) (e : Event) (s : State) (jobs : Option (List Job))
    → ((js : List Job) → Leaves (InTurn lid e s) (f (record s { jobs = js })))
    → Leaves (InTurn lid e s) (with_job f s jobs)
with_job-InTurn f lid e s none h = tt
with_job-InTurn f lid e s (some js) h = h js

-- A step serves the waiting clients in their order.
pub step-InTurn : (lid : ℕ) (e : Event) (s : State) → Leaves (InTurn lid e s) (step e s)
unfolding step retryer revoker
step-InTurn lid (acquires l id) s = acquire-InTurn lid l id s
step-InTurn lid (releases l id) s = release-InTurn lid l id s
step-InTurn lid (retryer_turns b) s =
    awake s.retryer_asleep (waits lid s) lid _ (retryer_next-waits b s.retryer_queue lid s)
step-InTurn lid (revoker_turns b) s =
    awake s.revoker_asleep (waits lid s) lid _ (revoker_next-waits b s.revoker_queue lid s)
step-InTurn lid (retry_ends true l) s =
    with_job-InTurn (retryer_rpc_end true l) lid (retry_ends true l) s _
      (λ js. retry_end_ok lid l (record s { jobs = js }))
step-InTurn lid (retry_ends false l) s =
    with_job-InTurn (retryer_rpc_end false l) lid (retry_ends false l) s _
      (λ js. retry_end_failed lid l (record s { jobs = js }))
step-InTurn lid (revoke_ends b l) s =
    with_job-InTurn (revoker_rpc_end b l) lid (revoke_ends b l) s _
      (λ js. revoke_end-InTurn b lid l (record s { jobs = js }))
