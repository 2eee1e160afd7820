-- ===== src/Rpc/XidWindow/Tests.antt =====
-- Runs of the client's window of replies, and the theorems on it at concrete inputs.
use y_f_s.Base.{ℕ, ◌+◌, ◌≤◌, ◌≡◌, refl, true, false, [], ◌∷◌, elem, arith}
use y_f_s.Rpc.XidWindow.{new_window, pop_while, compress_from, update_xid_rep, front}
use y_f_s.Rpc.XidWindow.Received.{receive_all, front-receive_all}

replies_received : receive_all new_window (1 ∷ 3 ∷ 3 ∷ 5 ∷ 2 ∷ []) ≡ 3 ∷ 3 ∷ 5 ∷ []
unfolding receive_all update_xid_rep compress_from pop_while
replies_received = refl

front-receive_all_example :
    let n = front (receive_all new_window (2 ∷ 1 ∷ [])) in
    ((r : ℕ) → 1 ≤ r → r ≤ n → elem r (2 ∷ 1 ∷ []) ≡ true) × (elem (n + 1) (2 ∷ 1 ∷ []) ≡ false)
front-receive_all_example = front-receive_all (2 ∷ 1 ∷ []) (omega arith)
