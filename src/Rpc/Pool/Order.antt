-- ===== src/Rpc/Pool/Order.antt =====
-- The queue of rpc/fifo.h gives its elements back in order, and keeps its limit.
use y_f_s.Base.{
  ℕ, ◌≡◌, refl, ap, ◌∙◌, inl, inr, Bool, true, ◌||◌, Option, none, some, List, [], ◌∷◌, ◌++◌,
  append_assoc, length, length-append, leb, ltb, ◌==◌, Bool-cases, arith,
}
use y_f_s.Rpc.Pool.{Fifo, Enq, entered, waits, rejected, enq, deq_from, deq}

-- A pass of a thread in `enq` or `deq`.
pub data Op (T : Type 0) : Type 0 where
  put : T → Bool → Op T
  get : Op T

-- The queue, and what entered it and left it, oldest first.
pub record History (T : Type 0) : Type 0 where
  pub fifo : Fifo T
  pub came : List T
  pub left : List T

module _ {T : Type 0} where
  abbrev pub after_put : T → History T → Enq T → History T
  after_put e h (entered f) = record h { fifo = f; came = h.came ++ e ∷ [] }
  after_put e h waits = h
  after_put e h rejected = h

  abbrev pub after_get : History T → Option (T × Fifo T × Bool) → History T
  after_get h none = h
  after_get h (some (e, f, signal)) = record h { fifo = f; left = h.left ++ e ∷ [] }

  unfoldable pub step : Op T → History T → History T
  step (put e blocking) h = after_put e h (enq e blocking h.fifo)
  step get h = after_get h (deq h.fifo)

  unfoldable pub run : List (Op T) → History T → History T
  run [] h = h
  run (o ∷ os) h = run os (step o h)

  -- What came is what left, and then what is in the queue, which keeps its limit.
  pub record InOrder (max : ℕ) (h : History T) : Type 0 where
    pub order : h.came ≡ h.left ++ h.fifo.q
    pub limit : h.fifo.max ≡ max
    pub bounded : ((max == 0) || leb (length h.fifo.q) max) ≡ true

  put-InOrder :
      (e : T) (blocking : Bool) (max : ℕ) (h : History T)
      → InOrder max h
      → InOrder max (step (put e blocking) h)
  unfolding step enq
  put-InOrder e blocking max h v =
      elim (Bool-cases ((h.fifo.max == 0) || ltb (length h.fifo.q) h.fifo.max)) [
        | inl room ↦ rw room (record {
          order = rw v.order (append_assoc h.left h.fifo.q (e ∷ []));
          limit = v.limit;
          bounded = ground (arith, v.limit, length-append h.fifo.q (e ∷ []));
        })
        | inr full ↦ rw full (elim (Bool-cases blocking) [ inl b ↦ rw b v | inr b ↦ rw b v ])
      ]

  get-InOrder : (max : ℕ) (h : History T) → InOrder max h → InOrder max (step get h)
  unfolding step deq
  get-InOrder max h v = go h.fifo.q refl
    where
      go : (q : List T) → h.fifo.q ≡ q → InOrder max (after_get h (deq_from q h.fifo.max))
      go [] e = v
      go (x ∷ q) e = record {
        order = v.order ∙ rw (e, append_assoc h.left (x ∷ []) q);
        limit = v.limit;
        bounded = ground (arith, v.bounded, ap length e);
      }

  run-InOrder :
      (os : List (Op T)) (max : ℕ) (h : History T) → InOrder max h → InOrder max (run os h)
  unfolding run
  run-InOrder [] max h v = v
  run-InOrder (put e blocking ∷ os) max h v = run-InOrder os max _ (put-InOrder e blocking max h v)
  run-InOrder (get ∷ os) max h v = run-InOrder os max _ (get-InOrder max h v)

  abbrev pub fresh : ℕ → History T
  fresh max = record { fifo = record { q = []; max = max }; came = []; left = [] }

  -- In any sequence of passes of `enq` and `deq` on a new queue, what has left the queue and then
  -- what is in it are exactly the elements that entered it, in their order, and the queue never
  -- holds more than its limit, where it has one.
  pub fifo-InOrder : (os : List (Op T)) (max : ℕ) → InOrder max (run os (fresh max))
  fifo-InOrder os max =
      run-InOrder os max (fresh max) (record { order = refl; limit = refl; bounded = ground arith })
