-- ===== src/Rpc/Pool/Tests.antt =====
-- A queue of two places at work, and the theorem on it there.
use y_f_s.Base.{ℕ, ◌≡◌, refl, true, false, List, [], ◌∷◌}
use y_f_s.Rpc.Pool.{enq, deq, deq_from}
use y_f_s.Rpc.Pool.Order.{Op, put, get, run, step, fresh, InOrder, fifo-InOrder}

abbrev passes : List (Op ℕ)
passes = put 5 false ∷ put 6 true ∷ put 7 false ∷ put 7 true ∷ get ∷ put 8 true ∷ get ∷ []

run-passes :
    run passes (fresh 2)
    ≡ record { fifo = record { q = 8 ∷ []; max = 2 }; came = 5 ∷ 6 ∷ 8 ∷ []; left = 5 ∷ 6 ∷ [] }
unfolding run step enq deq deq_from
run-passes = refl

fifo-InOrder_example : InOrder 2 (run passes (fresh 2))
fifo-InOrder_example = fifo-InOrder passes 2
