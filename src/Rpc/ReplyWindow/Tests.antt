-- ===== src/Rpc/ReplyWindow/Tests.antt =====
-- Runs of the server's window of requests, and the theorems on it at concrete inputs.
use y_f_s.Base.{ℕ, ◌≡◌, refl, true, List, [], ◌∷◌, arith, none}
use y_f_s.Rpc.ReplyWindow.{
  new, Reply, new_reply, fault, ok, move_window, visit, scan, scan_moved, scan_window,
  checkduplicate, add_reply,
}
use y_f_s.Rpc.ReplyWindow.AtMostOnce.{Event, request, reply, executed}
use y_f_s.Rpc.ReplyWindow.Reordered.{late_request_repeats}

-- Two requests, the first sent again before and after its handler returned.
abbrev history : List Event
history =
    request 1
    ∷ request 1
    ∷ request 2
    ∷ reply 1 (7 ∷ []) 1
    ∷ request 1
    ∷ reply 2 [] 0
    ∷ request 1
    ∷ request 2
    ∷ []

executed-history : executed history [] ≡ 1 ∷ 2 ∷ []
unfolding executed checkduplicate scan_window move_window scan_moved visit scan add_reply
executed-history = refl

abbrev running : ℕ → Reply
running = new_reply

abbrev returned : ℕ → Reply
returned xid = record { xid = xid; cb_present = true; buf = 9 ∷ []; sz = 1 }

-- A lone entry with its reply, asked for again.
lone_reply_fault : checkduplicate 4 (returned 4 ∷ []) ≡ fault
unfolding checkduplicate scan_window
lone_reply_fault = refl

late_request_repeats_example :
    let w = running 1 ∷ running 3 ∷ running 2 ∷ running 4 ∷ [] in
    (checkduplicate 3 (running 1 ∷ running 2 ∷ running 4 ∷ []) ≡ ok new none w)
    × (checkduplicate 2 w ≡ ok new none (running 2 ∷ w))
late_request_repeats_example =
    late_request_repeats (running 1) (running 2) (running 4) [] 3 refl (omega arith) (omega arith)
      (omega arith) (omega arith)
