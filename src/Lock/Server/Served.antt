-- ===== src/Lock/Server/Served.antt =====
-- The invariant of lock_server_cache.cc on free locks and the retryer's queue, and its handlers.
pub mod Turns
use mathlib.Core.Path.{subst, subst₂}
use mathlib.Core.Option.{some-injective}
use y_f_s.Base.{
  ℕ, ◌≡◌, refl, ap, sym, ◌∙◌, ◌⊎◌, ◌≢◌, inl, inr, Bool, true, false, ◌||◌, Option, none, some, List,
  [], ◌∷◌, ◌++◌, is_empty, str_eq, elem, elem-append, if◌then◌else◌, ◌==◌, Table, lookup, insert,
  lookup-insert, lookup-empty, arith, Option-cases, List-cases, Bool-cases,
}
use y_f_s.Lock.Server.{
  Status, Lock, Job, retryer_rpc, revoker_rpc, State, new_server, entry, fresh_lock, set_lock,
  add_job, acquire, release, retryer, revoker, retryer_rpc_end, revoker_rpc_end, retryer_turn,
  revoker_turn, retryer_next, revoker_next,
}
use y_f_s.Lock.Server.Steps.{
  Event, acquires, releases, retryer_turns, revoker_turns, retry_ends, revoke_ends, take_job,
  with_job, step, run, Leaves, and_then,
}

abbrev pub AllNamed : List (List ℕ) → Type 0
AllNamed [] = Unit
AllNamed (c ∷ cs) = (is_empty c ≡ false) × AllNamed cs

-- A lock knows its key, its waiting clients have names, and if it is free while one waits, its key
-- stands in `queue`.
abbrev pub Served : List ℕ → ℕ → Lock → Type 0
Served queue lid l =
    (l.id ≡ lid)
    × AllNamed l.waiting_cls
    × (is_empty l.owner_cl ≡ true → is_empty l.waiting_cls ≡ false → elem lid queue ≡ true)

abbrev pub has_key : ℕ → Table Lock → Bool
has_key j m = elim (lookup j m) [ none ↦ false | some l ↦ true ]

-- All locks are as they should be, and the queues hold keys of the table only.
abbrev pub Inv : List ℕ → List ℕ → Table Lock → Type 0
Inv retries revokes m =
    ((j : ℕ) (k : Lock) → lookup j m ≡ some k → Served retries j k)
    × ((j : ℕ) → (elem j retries || elem j revokes) ≡ true → has_key j m ≡ true)

abbrev pub AllServed : State → Type 0
AllServed s = Inv s.retryer_queue s.revoker_queue s.lock_table

AllNamed-append :
    (cs : List (List ℕ)) (c : List ℕ) → AllNamed cs → is_empty c ≡ false → AllNamed (cs ++ (c ∷ []))
AllNamed-append [] c h k = (k, tt)
AllNamed-append (d ∷ cs) c h k = (h.0, AllNamed-append cs c h.1 k)

-- One lock changes, and with it at most its own key's places in the queues.
pub insert-Inv :
    (q r q' r' : List ℕ) (lid : ℕ) (l : Lock) (m : Table Lock)
    → Inv q r m
    → ((j : ℕ) → (lid == j) ≡ false → elem j q' ≡ elem j q)
    → ((j : ℕ) → (lid == j) ≡ false → elem j r' ≡ elem j r)
    → Served q' lid l
    → Inv q' r' (insert lid l m)
insert-Inv q r q' r' lid l m h a b served = (others, keys)
  where
    others : (j : ℕ) (k : Lock) → lookup j (insert lid l m) ≡ some k → Served q' j k
    others j k f = elim (Bool-cases (lid == j)) [
      | inl e ↦
          let same : lid ≡ j = ground (arith, e) in
          let new : some l ≡ some k = ground (arith, e, f, lookup-insert lid j l m) in
          subst₂ (λ a b. Served q' a b) same (some-injective l k new) served
      | inr ne ↦
          let old : lookup j m ≡ some k = ground (arith, ne, f, lookup-insert lid j l m) in
          let was = h.0 j k old in (was.0, was.1, λ x y. a j ne ∙ was.2 x y)
    ]

    keys : (j : ℕ) → (elem j q' || elem j r') ≡ true → has_key j (insert lid l m) ≡ true
    keys j e = ground (arith, lookup-insert lid j l m, a j, b j, h.1 j)

entry-Served :
    (fresh : Lock) (lid : ℕ) (s : State)
    → fresh ≡ fresh_lock lid
    → AllServed s
    → Served s.retryer_queue lid (entry fresh lid s)
unfolding entry
entry-Served fresh lid s same h = elim (Option-cases (lookup lid s.lock_table)) [
  | inl f ↦ rw (f, entry) (rw same (refl, tt, λ x y. cc))
  | inr (l, f) ↦ rw (f, entry) (h.0 lid l f)
]

pub elem-push :
    (lid : ℕ) (q : List ℕ) (j : ℕ) → (lid == j) ≡ false → elem j (q ++ (lid ∷ [])) ≡ elem j q
elem-push lid q j ne = ground (arith, ne, elem-append j q (lid ∷ []))

elem-last : (lid : ℕ) (q : List ℕ) → elem lid (q ++ (lid ∷ [])) ≡ true
elem-last lid q = ground (arith, elem-append lid q (lid ∷ []))

pub acquire-AllServed :
    (lid : ℕ) (id : List ℕ) (s : State)
    → is_empty id ≡ false
    → AllServed s
    → AllServed (acquire lid id s).1
unfolding acquire
acquire-AllServed lid id s n h =
    let l = entry (fresh_lock lid) lid s in
    let served = entry-Served (fresh_lock lid) lid s refl h in
    elim (Bool-cases (is_empty l.owner_cl)) [
      | inl e ↦
          rw (e, acquire)
            (insert-Inv _ _ _ _ lid _ s.lock_table h (λ j ne. refl) (λ j ne. refl)
              (served.0, served.1, λ x y. absurd cc))
      | inr e ↦
          let waits : Served s.retryer_queue lid
              (record l { waiting_cls = l.waiting_cls ++ (id ∷ []) }) =
            (served.0, AllNamed-append l.waiting_cls id served.1 n, λ x y. absurd cc) in
          elim (Bool-cases (is_empty l.waiting_cls)) [
            | inl w ↦
                rw (e, acquire)
                  (rw (w, acquire)
                    (insert-Inv _ _ _ _ lid _ s.lock_table h (λ j ne. refl)
                      (λ j ne. elem-push lid s.revoker_queue j ne) waits))
            | inr w ↦
                rw (e, acquire)
                  (rw (w, acquire)
                    (insert-Inv _ _ _ _ lid _ s.lock_table h (λ j ne. refl) (λ j ne. refl) waits))
          ]
    ]

pub release-AllServed :
    (lid : ℕ) (id : List ℕ) (s : State) → AllServed s → AllServed (release lid id s).1
unfolding release
release-AllServed lid id s h = elim (Option-cases (lookup lid s.lock_table)) [
  | inl f ↦ rw (f, release) h
  | inr (l, f) ↦
      let q = s.retryer_queue ++ (lid ∷ []) in
      let was = h.0 lid l f in
      elim (Bool-cases (str_eq l.owner_cl id)) [
        | inl e ↦
            rw (f, release)
              (rw (e, release)
                (insert-Inv _ _ q _ lid _ s.lock_table h
                  (λ j ne. elem-push lid s.retryer_queue j ne) (λ j ne. refl)
                  (was.0, was.1, λ x y. elem-last lid s.retryer_queue)))
        | inr e ↦ rw (f, release) (rw (e, release) h)
      ]
]
