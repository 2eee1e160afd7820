-- ===== src/Rpc/Connection/Tests.antt =====
-- Messages between two connections, and the theorems on connections at concrete inputs.
use y_f_s.Base.{ℕ, ◌≡◌, refl, true, List, [], ◌∷◌, ◌++◌, drop, arith}
use y_f_s.Rpc.Marshall.Writing.{be32}
use y_f_s.Rpc.Connection.{
  no_buf, Write, wrote, busy, new_connection, writepdu, write_cb, write_some, fill_size, send,
  try_send, start_write,
}
use y_f_s.Rpc.Connection.Reading.{feed, handed, joined, AllNonempty}
use y_f_s.Rpc.Connection.Sending.{send_all, callbacks, sent_is_handed}
use y_f_s.Rpc.Connection.Refs.{Event, take, give, close, run, AliveWith, references_keep_alive}

abbrev message : List ℕ
message = 0 ∷ 0 ∷ 0 ∷ 0 ∷ 21 ∷ 22 ∷ 23 ∷ []

-- Three writes, one of which finds the stream busy.
abbrev writes : List Write
writes = busy ∷ wrote 5 ∷ []

-- The reader gets the bytes cut in another place.
abbrev pieces : List (List ℕ)
pieces = (21 ∷ 22 ∷ []) ∷ (23 ∷ []) ∷ []

pieces-sent : be32 7 ++ joined pieces ≡ (send_all message 7 (wrote 2) writes new_connection).0
unfolding send_all callbacks send try_send start_write writepdu write_cb write_some fill_size
    new_connection
pieces-sent = refl

pieces-AllNonempty : AllNonempty pieces
pieces-AllNonempty = (λ e. cc, (λ e. cc, tt))

sent_is_handed_example :
    feed (λ b n. true) (be32 7) pieces new_connection
    ≡ handed ((be32 7 ++ drop 4 message, 7) ∷ []) (record new_connection { rpdu = no_buf })
unfolding new_connection
sent_is_handed_example =
    sent_is_handed (λ b n. true) message 7 (wrote 2) writes new_connection new_connection pieces
      refl refl refl (omega arith) (omega arith) tt refl refl refl pieces-sent pieces-AllNonempty
      refl

abbrev events : List Event
events = take ∷ close ∷ give ∷ close ∷ []

references_keep_alive_example : AliveWith 1 (run events new_connection)
unfolding new_connection
references_keep_alive_example =
    references_keep_alive events new_connection
      (omega arith, (omega arith, (omega arith, (omega arith, omega arith))))
