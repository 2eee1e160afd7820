-- ===== src/Rpc/Connection/Reading.antt =====
-- `connection::read_cb` and `readpdu` put a message together from the pieces in which the stream
-- delivers it.
use y_f_s.Base.{
  ℕ, ◌+◌, ◌^◌, ◌<◌, ◌≤◌, ◌≡◌, ◌≢◌, refl, Bool, true, false, ◌&&◌, Option, none, some, List, [], ◌∷◌,
  ◌++◌, ◌==◌, All, length, length-append, append_assoc, append-nil, leb, ltb, arith,
}
use y_f_s.Rpc.Connection.{
  max_pdu, Charbuf, no_buf, bytes, ntohl, returns, read_body, start_body, read_bytes, read_size,
  readpdu, Connection, ReadCb, done, crash, hand_over, after_read, read_cb,
}

-- What a run of callbacks hands to the manager.
pub data Handed : Type 0 where
  crashed : Handed
  handed : List (List ℕ × ℕ) → Connection → Handed

abbrev pub also : Option (List ℕ × ℕ) → Handed → Handed
also none r = r
also (some p) crashed = crashed
also (some p) (handed ps c) = handed (p ∷ ps) c

abbrev pub followed_by : ReadCb → (Connection → Handed) → Handed
followed_by crash later = crashed
followed_by (done p c) later = also p (later c)

-- One callback for each piece; a read of a size gets the four bytes `size`.
unfoldable pub feed : (List ℕ → ℕ → Bool) → List ℕ → List (List ℕ) → Connection → Handed
feed accept size [] c = handed [] c
feed accept size (piece ∷ rest) c =
    followed_by (read_cb accept (bytes size) (bytes piece) c) (feed accept size rest)

abbrev pub joined : List (List ℕ) → List ℕ
joined [] = []
joined (piece ∷ rest) = piece ++ joined rest

-- A connection in the middle of a message of `n` bytes.
abbrev within : List ℕ → ℕ → Connection → Connection
within p n c = record c { rpdu = record { buf = some p; sz = n; solong = length p } }

-- The buffer in it.
abbrev part : List ℕ → ℕ → Charbuf
part p n = record { buf = some p; sz = n; solong = length p }

read_body-part :
    (p piece : List ℕ) (n : ℕ)
    → length p + length piece ≤ n
    → read_body (bytes piece) (part p n) ≡ returns true (part (p ++ piece) n)
unfolding read_body read_bytes
read_body-part p piece n m =
    let fits : leb (length p + length piece) (n + 4) ≡ true = ground arith in
    let positive : ltb n (length p) ≡ false = ground arith in
    rw (positive, length-append p piece, fits)

readpdu-part :
    (p piece size : List ℕ) (n : ℕ)
    → n ≢ 0
    → length p + length piece ≤ n
    → readpdu (bytes size) (bytes piece) (part p n) ≡ returns true (part (p ++ piece) n)
unfolding readpdu
readpdu-part p piece size n z m =
    let some_size : (n == 0) ≡ false = ground arith in rw some_size (read_body-part p piece n m)

-- One more piece.
read_cb-part :
    (accept : List ℕ → ℕ → Bool) (size p piece : List ℕ) (n : ℕ) (c : Connection)
    → c.dead ≡ false
    → n ≢ 0
    → length p < n
    → length p + length piece ≤ n
    → read_cb accept (bytes size) (bytes piece) (within p n c)
      ≡ hand_over accept (within (p ++ piece) n c)
unfolding read_cb after_read
read_cb-part accept size p piece n c d z l m =
    let open_end : ltb (length p) n ≡ true = ground arith in
    rw (d, open_end, readpdu-part p piece size n z m)

hand_over-whole :
    (accept : List ℕ → ℕ → Bool) (p : List ℕ) (n : ℕ) (c : Connection)
    → length p ≡ n
    → accept p n ≡ true
    → hand_over accept (within p n c) ≡ done (some (p, n)) (record c { rpdu = no_buf })
unfolding hand_over
hand_over-whole accept p n c e a =
    let whole : (n == length p) ≡ true = ground arith in rw (whole, a)

hand_over-part :
    (accept : List ℕ → ℕ → Bool) (p : List ℕ) (n : ℕ) (c : Connection)
    → length p < n
    → hand_over accept (within p n c) ≡ done none (within p n c)
unfolding hand_over
hand_over-part accept p n c l = let short : (n == length p) ≡ false = ground arith in rw short

abbrev pub AllNonempty : List (List ℕ) → Type 0
AllNonempty = All (λ piece. piece ≢ [])

length-ne-nil : (xs : List ℕ) → xs ≢ [] → 0 < length xs
length-ne-nil [] h = absurd (h refl)
length-ne-nil (x ∷ xs) h = omega arith

-- The rest of a message, from the end of a callback on.
feed-rest :
    (accept : List ℕ → ℕ → Bool) (size : List ℕ) (rest : List (List ℕ)) (p : List ℕ) (n : ℕ)
    (c : Connection)
    → c.dead ≡ false
    → length p + length (joined rest) ≡ n
    → AllNonempty rest
    → accept (p ++ joined rest) n ≡ true
    → followed_by (hand_over accept (within p n c)) (feed accept size rest)
      ≡ handed ((p ++ joined rest, n) ∷ []) (record c { rpdu = no_buf })
unfolding feed
feed-rest accept size [] p n c d e ne a =
    rw (append-nil p) (rw (hand_over-whole accept p n c (omega arith) (rw (append-nil p) at a)))
feed-rest accept size (piece ∷ rest) p n c d e ne a =
    let whole = length-append piece (joined rest) in
    let more : 0 < length piece = length-ne-nil piece ne.0 in
    rw (hand_over-part accept p n c (omega (arith, whole))) (
      rw
        (read_cb-part accept size p piece n c d (omega (arith, whole)) (omega (arith, whole))
          (omega (arith, whole)))
        (rw (← append_assoc p piece (joined rest)) (
          feed-rest accept size rest (p ++ piece) n c d
            (omega (arith, whole, length-append p piece)) ne.1
            (rw (← append_assoc p piece (joined rest)) at a))))

start_body-part :
    (size piece : List ℕ) (n : ℕ)
    → length size ≡ 4
    → 4 + length piece ≤ n
    → n ≤ max_pdu
    → start_body (bytes piece) size n no_buf ≡ returns true (part (size ++ piece) n)
unfolding start_body read_body read_bytes
start_body-part size piece n s l m =
    let small : (ltb n (2 ^ 31) && ltb max_pdu n) ≡ false = ground arith in
    let positive : leb (2 ^ 31) n ≡ false = ground arith in
    let fits : leb (4 + length piece) (n + 4) ≡ true = ground arith in
    let some_count : ltb n 4 ≡ false = ground arith in
    rw (small, positive, some_count, length-append size piece, s, fits)

readpdu-start :
    (size piece : List ℕ)
    → length size ≡ 4
    → 4 + length piece ≤ ntohl size
    → ntohl size ≤ max_pdu
    → readpdu (bytes size) (bytes piece) no_buf ≡ returns true (part (size ++ piece) (ntohl size))
unfolding readpdu read_size
readpdu-start size piece s l m =
    let four : (length size == 4) ≡ true = ground arith in
    rw four (start_body-part size piece (ntohl size) s l m)

-- The first callback reads the size too.
read_cb-start :
    (accept : List ℕ → ℕ → Bool) (size piece : List ℕ) (c : Connection)
    → c.dead ≡ false
    → c.rpdu ≡ no_buf
    → length size ≡ 4
    → 4 + length piece ≤ ntohl size
    → ntohl size ≤ max_pdu
    → read_cb accept (bytes size) (bytes piece) c
      ≡ hand_over accept (within (size ++ piece) (ntohl size) c)
unfolding read_cb after_read
read_cb-start accept size piece c d r s l m = rw (d, r, readpdu-start size piece s l m)

-- A message of `n` bytes, the first four of which are its size, with 4 < n ≤ 10 MB, that reaches a
-- connection that is not dead and has no message begun: however the stream cuts what follows the
-- size into pieces, none of them empty, the manager gets exactly these n bytes once, if it accepts
-- them, and the connection is ready for the next message.
pub feed-frame :
    (accept : List ℕ → ℕ → Bool) (size : List ℕ) (pieces : List (List ℕ)) (c : Connection)
    → c.dead ≡ false
    → c.rpdu ≡ no_buf
    → length size ≡ 4
    → 4 < ntohl size
    → ntohl size ≤ max_pdu
    → 4 + length (joined pieces) ≡ ntohl size
    → AllNonempty pieces
    → accept (size ++ joined pieces) (ntohl size) ≡ true
    → feed accept size pieces c
      ≡ handed ((size ++ joined pieces, ntohl size) ∷ []) (record c { rpdu = no_buf })
unfolding feed
feed-frame accept size [] c d r s l m e ne a = absurd (omega arith)
feed-frame accept size (piece ∷ rest) c d r s l m e ne a =
    let whole = length-append piece (joined rest) in
    rw (read_cb-start accept size piece c d r s (omega (arith, whole)) m) (
      rw (← append_assoc size piece (joined rest)) (
        feed-rest accept size rest (size ++ piece) (ntohl size) c d
          (omega (arith, whole, length-append size piece)) ne.1
          (rw (← append_assoc size piece (joined rest)) at a)))
