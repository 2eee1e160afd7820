-- ===== src/Rpc/Connection/Sending.antt =====
-- `connection::send` and the calls of `write_cb` after it, and what a reader gets of it.
use y_f_s.Base.{
  ℕ, ◌+◌, ◌-◌, ◌^◌, ◌<◌, ◌≤◌, ◌≡◌, ◌≢◌, refl, sym, ap, ◌∙◌, Bool, true, false, none, some, List, [],
  ◌∷◌, ◌++◌, ◌==◌, length, drop, length-drop, append-nil, arith,
}
use y_f_s.Rpc.Marshall.Writing.{be32}
use y_f_s.Rpc.Connection.{
  max_pdu, Charbuf, no_buf, ntohl, Write, wrote, busy, broken, fill_size, writepdu, Connection,
  start_write, try_send, send, send_end, write_cb,
}
use y_f_s.Rpc.Connection.Writing.{
  taken, NoFailure, push, Sending, Step, push-Sending, busy-Step, wrote-Step,
}
use y_f_s.Rpc.Connection.Reading.{feed, feed-frame, handed, joined, AllNonempty}

-- The callbacks after `send`: the bytes that they put out.
unfoldable pub callbacks : List Write → Connection → List ℕ × Connection
callbacks [] c = ([], c)
callbacks (w ∷ ws) c =
    let (wakes, c', out) = write_cb w c in let (later, c'') = callbacks ws c' in (out ++ later, c'')

-- A connection that is not dead, with `b` to write.
abbrev alive : Charbuf → Connection → Connection
alive b c = record c { dead = false; wpdu = b }

-- The callbacks are a run of `writepdu` on a connection that stays alive.
Runs : List Write → Charbuf → Connection → Type 0
Runs ws b c = callbacks ws (alive b c) ≡ ((push ws b).0, alive (push ws b).1 c)

Step-Runs :
    (n m : ℕ) (t post : List ℕ) (w : Write) (ws : List Write) (b : Charbuf) (c : Connection)
    → n ≢ 0
    → b.sz ≡ n
    → (q : Step n m t post (writepdu w b)) → Runs ws (writepdu w b).wpdu c
    → Runs (w ∷ ws) b c
unfolding callbacks write_cb push Runs
Step-Runs n m t post w ws b c z e q later =
    let some_size : (b.sz == 0) ≡ false = ground arith in rw (some_size, q.fine) (rw later)

callbacks-Runs :
    (n : ℕ) (t : List ℕ) (ws : List Write) (pre post : List ℕ) (b : Charbuf) (c : Connection)
    → n ≢ 0
    → NoFailure ws
    → taken ws ≤ length post
    → Sending n t pre post b
    → Runs ws b c
unfolding callbacks push Runs
callbacks-Runs n t [] pre post b c z f l s = refl
callbacks-Runs n t (broken ∷ ws) pre post b c z f l s = absurd f
callbacks-Runs n t (busy ∷ ws) pre post b c z f l s =
    let q = busy-Step n t pre post b s in
    unfold Runs in
    Step-Runs n 0 t post busy ws b c z s.sz q
      (callbacks-Runs n t ws q.pre' q.post' _ c z f (omega (arith, q.count)) q.next)
callbacks-Runs n t (wrote m ∷ ws) pre post b c z f l s =
    let q = wrote-Step n m t pre post b (omega arith) s in
    unfold Runs in
    Step-Runs n m t post (wrote m) ws b c z s.sz q
      (callbacks-Runs n t ws q.pre' q.post' _ c z f (omega (arith, q.count)) q.next)

-- A buffer that `send` was given.
new-Sending :
    (n : ℕ) (m : List ℕ)
    → length m ≡ n
    → 4 ≤ n
    → Sending n (drop 4 m) [] (be32 n ++ drop 4 m) (record { buf = some m; sz = n; solong = 0 })
unfolding fill_size
new-Sending n m e l = record {
  filled = refl;
  frame = refl;
  sz = refl;
  whole = omega (arith, length-drop 4 m);
  solong = refl;
}

-- `send`, with the first write, and the callbacks after it.
unfoldable pub send_all : List ℕ → ℕ → Write → List Write → Connection → List ℕ × Connection
send_all m n w ws c =
    let (how, c', out) = send m n w c in let (later, c'') = callbacks ws c' in (out ++ later, c'')

abbrev to_send : List ℕ → ℕ → Charbuf
to_send m n = record { buf = some m; sz = n; solong = 0 }

send_all-push :
    (m : List ℕ) (n k : ℕ) (t post : List ℕ) (w : Write) (ws : List Write) (c : Connection)
    → c.dead ≡ false
    → c.wpdu.buf ≡ none
    → (q : Step n k t post (writepdu w (to_send m n)))
    → ((d : Connection) → Runs ws (writepdu w (to_send m n)).wpdu d)
    → send_all m n w ws c ≡ (
      (push (w ∷ ws) (to_send m n)).0,
      alive (push (w ∷ ws) (to_send m n)).1 (record c { waiters = c.waiters + 1 - 1 }),
    )
unfolding send_all send try_send start_write push Runs
send_all-push m n k t post w ws c d b q later =
    rw (d, b, q.fine) (rw (later (record c { waiters = c.waiters + 1 - 1 })))

nil_of_length : (xs : List ℕ) → length xs ≡ 0 → xs ≡ []
nil_of_length [] e = refl
nil_of_length (x ∷ xs) e = absurd (omega arith)

-- The first write of a message, whatever it takes.
first-Runs :
    (m : List ℕ) (n : ℕ) (w : Write) (ws : List Write) (c : Connection)
    → c.dead ≡ false
    → c.wpdu.buf ≡ none
    → length m ≡ n
    → 4 ≤ n
    → NoFailure (w ∷ ws)
    → taken (w ∷ ws) ≡ n
    → send_all m n w ws c ≡ (
      (push (w ∷ ws) (to_send m n)).0,
      alive (push (w ∷ ws) (to_send m n)).1 (record c { waiters = c.waiters + 1 - 1 }),
    )
first-Runs m n broken ws c d b e l f g = absurd f
first-Runs m n busy ws c d b e l f g =
    let s = new-Sending n m e l in
    let q = busy-Step n _ _ _ _ s in
    send_all-push m n 0 _ _ busy ws c d b q (λ x.
      callbacks-Runs n _ ws q.pre' q.post' _ x (omega arith) f
        (omega (arith, q.count, length-drop 4 m)) q.next)
first-Runs m n (wrote k) ws c d b e l f g =
    let s = new-Sending n m e l in
    let q = wrote-Step n k _ _ _ _ (omega (arith, length-drop 4 m)) s in
    send_all-push m n k _ _ (wrote k) ws c d b q (λ x.
      callbacks-Runs n _ ws q.pre' q.post' _ x (omega arith) f
        (omega (arith, q.count, length-drop 4 m)) q.next)

-- A message of at least 4 bytes on a connection that is not dead and sends nothing: in however many
-- writes the stream takes it, with or without EAGAIN between them, as long as they take as many
-- bytes as the message has, the stream gets the size and then the message from its fifth byte on,
-- and `send` returns true.
pub send_all-frame :
    (m : List ℕ) (n : ℕ) (w : Write) (ws : List Write) (c : Connection)
    → c.dead ≡ false
    → c.wpdu.buf ≡ none
    → length m ≡ n
    → 4 ≤ n
    → NoFailure (w ∷ ws)
    → taken (w ∷ ws) ≡ n
    → let (out, c') = send_all m n w ws c in (out ≡ be32 n ++ drop 4 m) × ((send_end c').0 ≡ true)
unfolding send_end
send_all-frame m n w ws c d b e l f g =
    let p =
      push-Sending n (drop 4 m) (w ∷ ws) [] (be32 n ++ drop 4 m) (to_send m n) f
        (omega (arith, length-drop 4 m)) (new-Sending n m e l) in
    let none_left = nil_of_length p.rest (omega (arith, p.count, length-drop 4 m)) in
    rw (first-Runs m n w ws c d b e l f g) (
      sym (append-nil _) ∙ rw none_left at p.out,
      ground (arith, p.solong, p.sz, ap length none_left),
    )

ntohl-be32 : (n : ℕ) → n < 2 ^ 32 → ntohl (be32 n) ≡ n
unfolding ntohl
ntohl-be32 n h = omega arith

-- A message of more than 4 bytes and at most 10 MB that one connection sends, neither dead nor
-- sending, in any writes without a failure that take all of it, reaches the manager of another that
-- is not dead and has no message begun, if it accepts it: however the stream is cut into pieces
-- after the four bytes of the size, the manager gets the size and the message from its fifth byte
-- on, with its length, once.
pub sent_is_handed :
    (accept : List ℕ → ℕ → Bool) (m : List ℕ) (n : ℕ) (w : Write) (ws : List Write)
    (c r : Connection) (pieces : List (List ℕ))
    → c.dead ≡ false
    → c.wpdu.buf ≡ none
    → length m ≡ n
    → 4 < n
    → n ≤ max_pdu
    → NoFailure (w ∷ ws)
    → taken (w ∷ ws) ≡ n
    → r.dead ≡ false
    → r.rpdu ≡ no_buf
    → be32 n ++ joined pieces ≡ (send_all m n w ws c).0
    → AllNonempty pieces
    → accept (be32 n ++ drop 4 m) n ≡ true
    → feed accept (be32 n) pieces r
      ≡ handed ((be32 n ++ drop 4 m, n) ∷ []) (record r { rpdu = no_buf })
sent_is_handed accept m n w ws c r pieces d b e l x f g rd rr j ne a =
    let (out, _) = send_all-frame m n w ws c d b e (omega arith) f g in
    let same : joined pieces ≡ drop 4 m = ap (drop 4) (j ∙ out) in
    let size = ntohl-be32 n (omega arith) in
    rw (← same) (
      rw size at (
        feed-frame accept (be32 n) pieces r rd rr refl (omega (arith, size)) (omega (arith, size))
          (omega (arith, size, ap length same, length-drop 4 m)) ne (rw (size, same) a)))
