-- ===== src/Rpc/Connection/Writing.antt =====
-- `connection::send`, `write_cb` and `writepdu` put a message on the stream, in as many writes as
-- it takes, and a reader gets it back.
use y_f_s.Base.{
  ℕ, ◌+◌, ◌≤◌, ◌≡◌, refl, ap, ◌∙◌, inl, inr, true, some, List, [], ◌∷◌, ◌++◌, ◌==◌, length, take,
  drop, length-append, length-drop, length-take, append_assoc, take-append-drop, drop-append,
  Bool-cases, arith,
}
use native.Mathlib.Nat.{zero-add}
use y_f_s.Rpc.Marshall.Writing.{be32}
use y_f_s.Rpc.Connection.{
  Charbuf, Write, wrote, busy, broken, Written, fill_size, write_some, writepdu,
}

-- What the writes take, with no failure among them.
abbrev pub taken : List Write → ℕ
taken [] = 0
taken (wrote n ∷ ws) = n + taken ws
taken (busy ∷ ws) = taken ws
taken (broken ∷ ws) = taken ws

abbrev pub NoFailure : List Write → Type 0
NoFailure [] = Unit
NoFailure (wrote n ∷ ws) = NoFailure ws
NoFailure (busy ∷ ws) = NoFailure ws
NoFailure (broken ∷ ws) = ⊥

-- A run of `writepdu`: the bytes that go out.
unfoldable pub push : List Write → Charbuf → List ℕ × Charbuf
push [] b = ([], b)
push (w ∷ ws) b = let r = writepdu w b in let (later, b') = push ws r.wpdu in (r.out ++ later, b')

-- A buffer of `n` bytes, with the size and then `t`, of which `pre` went out and `post` did not.
pub record Sending (n : ℕ) (t pre post : List ℕ) (b : Charbuf) : Type 0 where
  pub filled : (fill_size b).buf ≡ some (pre ++ post)
  pub frame : pre ++ post ≡ be32 n ++ t
  pub sz : b.sz ≡ n
  pub whole : n ≡ length pre + length post
  pub solong : b.solong ≡ length pre

fill_again :
    (n k : ℕ) (t : List ℕ)
    → (fill_size (record { buf = some (be32 n ++ t); sz = n; solong = k })).buf ≡ some (be32 n ++ t)
unfolding fill_size
fill_again n k t = ground arith

fill_size-same : (b : Charbuf) → ((fill_size b).sz ≡ b.sz) × ((fill_size b).solong ≡ b.solong)
unfolding fill_size
fill_size-same b = (ground arith, ground arith)

split-frame : (m : ℕ) (pre post : List ℕ) → (pre ++ take m post) ++ drop m post ≡ pre ++ post
split-frame m pre post = append_assoc pre (take m post) (drop m post) ∙ rw take-append-drop

refilled :
    (n k : ℕ) (t : List ℕ) (f : List ℕ) (b : Charbuf)
    → (fill_size b).buf ≡ some f
    → f ≡ be32 n ++ t
    → (fill_size b).sz ≡ n
    → (fill_size (record (fill_size b) { solong = k })).buf ≡ some f
refilled n k t f b e g h = rw (e, g, h) (fill_again n k t)

wrote-Sending :
    (n m : ℕ) (t pre post : List ℕ) (b : Charbuf)
    → m ≤ length post
    → Sending n t pre post b
    → Sending n t (pre ++ take m post) (drop m post) (write_some (wrote m) (fill_size b)).wpdu
unfolding write_some
wrote-Sending n m t pre post b l s = record {
  filled =
      rw (split-frame m pre post)
        (refilled n ((fill_size b).solong + m) t (pre ++ post) b s.filled s.frame size);
  frame = split-frame m pre post ∙ s.frame;
  sz = size;
  whole =
      omega
        (arith, s.whole, length-append pre (take m post), length-take m post, length-drop m post);
  solong =
      omega (
        arith,
        (fill_size-same b).1,
        s.solong,
        length-append pre (take m post),
        length-take m post,
      );
}
  where
    size : (fill_size b).sz ≡ n
    size = (fill_size-same b).0 ∙ s.sz

busy-Sending :
    (n : ℕ) (t pre post : List ℕ) (b : Charbuf)
    → Sending n t pre post b
    → Sending n t pre post (fill_size b)
busy-Sending n t pre post b s = record {
  filled = refilled n (fill_size b).solong t (pre ++ post) b s.filled s.frame size;
  frame = s.frame;
  sz = size;
  whole = s.whole;
  solong = (fill_size-same b).1 ∙ s.solong;
}
  where
    size : (fill_size b).sz ≡ n
    size = (fill_size-same b).0 ∙ s.sz

-- The bytes of one write.
wrote-out :
    (n m : ℕ) (t pre post : List ℕ) (b : Charbuf)
    → Sending n t pre post b
    → (write_some (wrote m) (fill_size b)).out ≡ take m post
unfolding write_some
wrote-out n m t pre post b s =
    rw (s.filled, (fill_size-same b).1, s.solong) (ap (take m) (drop-append pre post))

-- One `writepdu`: what goes out, and where the buffer stands then.
pub record Step (n m : ℕ) (t post : List ℕ) (r : Written) : Type 0 where
  pub pre' : List ℕ
  pub post' : List ℕ
  pub out : r.out ++ post' ≡ post
  pub count : length post' + m ≡ length post
  pub next : Sending n t pre' post' r.wpdu
  pub fine : r.returned ≡ true

pub wrote-Step :
    (n m : ℕ) (t pre post : List ℕ) (b : Charbuf)
    → m ≤ length post
    → Sending n t pre post b
    → Step n m t post (writepdu (wrote m) b)
unfolding writepdu write_some
wrote-Step n m t pre post b l s = elim (Bool-cases (b.solong == b.sz)) [
  | inl full ↦ rw full (record {
    pre' = pre;
    post' = post;
    out = refl;
    count = ground (arith, s.solong, s.sz, s.whole);
    next = s;
    fine = refl;
  })
  | inr more ↦ rw more (record {
    pre' = pre ++ take m post;
    post' = drop m post;
    out = rw (wrote-out n m t pre post b s) (take-append-drop m post);
    count = omega (arith, length-drop m post);
    next = wrote-Sending n m t pre post b l s;
    fine = refl;
  })
]

pub busy-Step :
    (n : ℕ) (t pre post : List ℕ) (b : Charbuf)
    → Sending n t pre post b
    → Step n 0 t post (writepdu busy b)
unfolding writepdu write_some
busy-Step n t pre post b s = elim (Bool-cases (b.solong == b.sz)) [
  | inl full ↦
      rw full (record {
        pre' = pre;
        post' = post;
        out = refl;
        count = omega arith;
        next = s;
        fine = refl;
      })
  | inr more ↦ rw more (record {
    pre' = pre;
    post' = post;
    out = refl;
    count = omega arith;
    next = busy-Sending n t pre post b s;
    fine = refl;
  })
]

-- A run of writes puts out what is left, in order.
pub record Pushed (n m : ℕ) (post : List ℕ) (r : List ℕ × Charbuf) : Type 0 where
  pub rest : List ℕ
  pub out : r.0 ++ rest ≡ post
  pub count : length rest + m ≡ length post
  pub solong : r.1.solong + length rest ≡ n
  pub sz : r.1.sz ≡ n

pushed :
    (n m k : ℕ) (t post : List ℕ) (w : Write) (ws : List Write) (b : Charbuf)
    (q : Step n m t post (writepdu w b))
    → ((q : Step n m t post (writepdu w b)) → Pushed n k q.post' (push ws (writepdu w b).wpdu))
    → Pushed n (m + k) post (push (w ∷ ws) b)
unfolding push
pushed n m k t post w ws b q later =
    let r = later q in
    record {
      rest = r.rest;
      out = append_assoc (writepdu w b).out _ r.rest ∙ rw r.out q.out;
      count = omega (arith, r.count, q.count);
      solong = r.solong;
      sz = r.sz;
    }

pub push-Sending :
    (n : ℕ) (t : List ℕ) (ws : List Write) (pre post : List ℕ) (b : Charbuf)
    → NoFailure ws
    → taken ws ≤ length post
    → Sending n t pre post b
    → Pushed n (taken ws) post (push ws b)
unfolding push
push-Sending n t [] pre post b f l s = record {
  rest = post;
  out = refl;
  count = omega arith;
  solong = omega (arith, s.solong, s.whole);
  sz = s.sz;
}
push-Sending n t (broken ∷ ws) pre post b f l s = absurd f
push-Sending n t (busy ∷ ws) pre post b f l s = rw zero-add at (
    pushed n 0 (taken ws) t post busy ws b (busy-Step n t pre post b s)
      (λ q. push-Sending n t ws q.pre' q.post' _ f (omega (arith, q.count)) q.next))
push-Sending n t (wrote m ∷ ws) pre post b f l s =
    pushed n m (taken ws) t post (wrote m) ws b (wrote-Step n m t pre post b (omega arith) s)
      (λ q. push-Sending n t ws q.pre' q.post' _ f (omega (arith, q.count)) q.next)
