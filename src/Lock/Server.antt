-- ===== src/Lock/Server.antt =====
-- lock_server_cache.cc and lock_server_cache.h: the lock server whose clients keep their locks until
-- it revokes them. Every piece of code between a lock and an unlock of its mutex is one step, also
-- one turn of the loops of its two threads. `none` is a step that cannot be taken now, or that is
-- undefined.
pub mod Steps
pub mod Served
pub mod Wakeups
pub mod Turns
pub mod Fifo
pub mod Races
mod Tests
use y_f_s.Base.{
  ℕ, ◌≡◌, Bool, true, false, Option, none, some, List, [], ◌∷◌, ◌++◌, length, is_empty, str_eq,
  if◌then◌else◌, ◌==◌, Table, lookup, insert,
}

-- `lock_protocol::xxstatus`
pub data Status : Type 0 where
  ok retry rpcerr noent ioerr : Status

-- `struct lock`. A client is the bytes of its address, and no owner is the empty string.
pub record Lock : Type 0 where
  pub id : ℕ
  pub owner_cl : List ℕ
  pub waiting_cls : List (List ℕ)

-- A job of the pool's threads, with the lock that it points to.
pub data Job : Type 0 where
  retryer_rpc revoker_rpc : (target : ℕ) → Job

-- A thread that has found its queue empty sleeps in `pthread_cond_wait`, until it is signalled.
pub record State : Type 0 where
  pub nacquire : ℕ
  pub lock_table : Table Lock
  pub retryer_queue : List ℕ
  pub revoker_queue : List ℕ
  pub retryer_asleep : Bool
  pub revoker_asleep : Bool
  pub jobs : List Job

-- `nacquire` is never set: it is what the memory held.
pub new_server : ℕ → State
new_server nacquire = record {
  nacquire = nacquire;
  lock_table = [];
  retryer_queue = [];
  revoker_queue = [];
  retryer_asleep = false;
  revoker_asleep = false;
  jobs = [];
}

-- `lock_table[lid]`, with what a new entry holds where there is none
pub entry : Lock → ℕ → State → Lock
entry fresh lid s = elim (lookup lid s.lock_table) [ none ↦ fresh | some l ↦ l ]

abbrev pub fresh_lock : ℕ → Lock
fresh_lock lid = record { id = lid; owner_cl = []; waiting_cls = [] }

abbrev pub set_lock : ℕ → Lock → State → State
set_lock lid l s = record s { lock_table = insert lid l s.lock_table }

pub acquire : ℕ → List ℕ → State → Status × State
acquire lid id s =
    let reqlock = entry (fresh_lock lid) lid s in
    if is_empty reqlock.owner_cl then (ok, set_lock lid (record reqlock { owner_cl = id }) s) else (
      retry,
      set_lock lid (record reqlock { waiting_cls = reqlock.waiting_cls ++ (id ∷ []) })
          (if is_empty reqlock.waiting_cls
            then record s { revoker_queue = s.revoker_queue ++ (lid ∷ []); revoker_asleep = false }
            else s),
    )

pub release : ℕ → List ℕ → State → Status × State
release lid id s = elim (lookup lid s.lock_table) [
  | none ↦ (ioerr, s)
  | some l ↦
      if str_eq l.owner_cl id
      then (
        ok,
        set_lock lid (record l { owner_cl = [] })
            (record s { retryer_queue = s.retryer_queue ++ (lid ∷ []); retryer_asleep = false }),
      )
      else (ioerr, s)
]

pub stat : ℕ → State → Status × ℕ
stat lid s = (ok, s.nacquire)

-- `addObjJob`: the pool takes the job or not.
abbrev pub add_job : Bool → Job → State → State
add_job accepted j s = if accepted then record s { jobs = s.jobs ++ (j ∷ []) } else s

-- A turn of `retryer`: the thread falls asleep at an empty queue, and is not here while it sleeps.
pub retryer_turn : Bool → ℕ → List ℕ → State → State
retryer_turn accepted lid queue s =
    let retrylock = entry (fresh_lock 0) lid s in
    let popped = record s { retryer_queue = queue } in
    elim retrylock.waiting_cls [
      | [] ↦ set_lock lid retrylock popped
      | client ∷ rest ↦
          add_job accepted (retryer_rpc lid)
            (set_lock lid (record retrylock { owner_cl = client }) popped)
    ]

abbrev pub retryer_next : Bool → List ℕ → State → State
retryer_next accepted [] s = record s { retryer_asleep = true }
retryer_next accepted (lid ∷ queue) s = retryer_turn accepted lid queue s

pub retryer : Bool → State → Option State
retryer accepted s =
    if s.retryer_asleep then none else some (retryer_next accepted s.retryer_queue s)

-- A turn of `revoker`
pub revoker_turn : Bool → ℕ → List ℕ → State → State
revoker_turn accepted lid queue s =
    let revokelock = entry (fresh_lock 0) lid s in
    let popped = set_lock lid revokelock (record s { revoker_queue = queue }) in
    if is_empty revokelock.waiting_cls then popped else add_job accepted (revoker_rpc lid) popped

abbrev pub revoker_next : Bool → List ℕ → State → State
revoker_next accepted [] s = record s { revoker_asleep = true }
revoker_next accepted (lid ∷ queue) s = revoker_turn accepted lid queue s

pub revoker : Bool → State → Option State
revoker accepted s =
    if s.revoker_asleep then none else some (revoker_next accepted s.revoker_queue s)

-- The end of `retryer_rpc`, after its call: `answered` tells whether the client's answer is OK. The
-- queue of waiting clients may not be empty where one is popped.
pub retryer_rpc_end : Bool → ℕ → State → Option State
retryer_rpc_end answered lid s = elim (lookup lid s.lock_table) [
  | none ↦ none
  | some l ↦
      if answered
      then elim l.waiting_cls [
        | [] ↦ none
        | client ∷ rest ↦
            let popped = set_lock lid (record l { waiting_cls = rest }) s in
            some (
              if is_empty rest then popped else record popped {
                revoker_queue = s.revoker_queue ++ (l.id ∷ []);
                revoker_asleep = false;
              })
      ]
      else some (
          set_lock lid (record l { owner_cl = [] })
            (record s { retryer_queue = s.retryer_queue ++ (l.id ∷ []) }))
]

-- The end of `revoker_rpc`
pub revoker_rpc_end : Bool → ℕ → State → Option State
revoker_rpc_end answered lid s = elim (lookup lid s.lock_table) [
  | none ↦ none
  | some l ↦
      some (if answered then s else record s { revoker_queue = s.revoker_queue ++ (l.id ∷ []) })
]
