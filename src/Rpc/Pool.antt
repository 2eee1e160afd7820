-- ===== src/Rpc/Pool.antt =====
-- rpc/fifo.h and rpc/thr_pool.cc: the bounded queue, and the jobs that a pool's threads take from
-- it. Each function is a pass of a loop that holds the queue's mutex.
pub mod Order
mod Tests
use y_f_s.Base.{
  ℕ, zero, suc, ◌*◌, ◌%◌, ◌^◌, Bool, true, false, not, ◌&&◌, ◌||◌, Option, none, some, List, [],
  ◌∷◌, ◌++◌, length, ltb, ◌==◌, is_empty, if◌then◌else◌,
}

-- `max_` is 0 for a queue without a limit.
pub record Fifo {ℓ} (T : Type ℓ) : Type ℓ where
  pub q : List T
  pub max : ℕ

-- `enq`: the element is in and `non_empty_c_` is signalled; or the thread waits on `has_space_c_`;
-- or the result is false.
pub data Enq {ℓ} (T : Type ℓ) : Type ℓ where
  entered : Fifo T → Enq T
  waits : Enq T
  rejected : Enq T

module _ {ℓ} {T : Type ℓ} where
  pub enq : T → Bool → Fifo T → Enq T
  enq e blocking f =
      if (f.max == 0) || ltb (length f.q) f.max
      then entered (record f { q = f.q ++ e ∷ [] })
      else if blocking
      then waits
      else rejected

  -- `deq`: the thread waits on `non_empty_c_`; or the element, the queue, and whether
  -- `has_space_c_` is signalled.
  pub deq_from : List T → ℕ → Option (T × Fifo T × Bool)
  deq_from [] max = none
  deq_from (e ∷ q) max = some (e, record { q = q; max = max }, not (max == 0) && ltb (length q) max)

  pub deq : Fifo T → Option (T × Fifo T × Bool)
  unfolding deq_from
  deq f = deq_from f.q f.max

  -- `size` returns a `bool`.
  pub size : Fifo T → Bool
  size f = not (is_empty f.q)

-- `job_t`: a function and its argument, by their addresses. The null function ends a thread.
pub record Job : Type 0 where
  pub f : ℕ
  pub a : ℕ

pub record ThrPool : Type 0 where
  pub nthreads : ℕ
  pub blockadd : Bool
  pub jobq : Fifo Job

pub new_pool : ℕ → Bool → ThrPool
new_pool sz blocking = record {
  nthreads = sz;
  blockadd = blocking;
  jobq = record { q = []; max = 100 * sz };
}

abbrev pub poison : Job
poison = record { f = 0; a = 0 }

pub add_job : Job → ThrPool → Enq Job
unfolding enq
add_job j p = enq j p.blockadd p.jobq

-- One pass of a thread: it waits, runs a job, or ends.
pub data Worker : Type 0 where
  idle : Worker
  runs : Job → ThrPool → Worker
  ends : ThrPool → Worker

abbrev pub take_result : ThrPool → Option (Job × Fifo Job × Bool) → Worker
take_result p none = idle
take_result p (some (j, q, signal)) =
    if j.f == 0 then ends (record p { jobq = q }) else runs j (record p { jobq = q })

pub take_job : ThrPool → Worker
unfolding deq
take_job p = take_result p (deq p.jobq)

-- The destructor queues a null job for each thread; it waits where the queue is full.
pub poison_all : ℕ → ThrPool → ThrPool
unfolding enq
poison_all zero p = p
poison_all (suc n) p = elim (enq poison true p.jobq) [
  | entered q ↦ poison_all n (record p { jobq = q })
  | waits ↦ p
  | rejected ↦ p
]
