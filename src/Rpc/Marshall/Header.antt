-- ===== src/Rpc/Marshall/Header.antt =====
-- `pack_req_header` and `pack_reply_header`, and the space of a new buffer that they fill.
use y_f_s.Base.{
  ℕ, zero, suc, ◌+◌, ◌-◌, ◌/◌, ◌%◌, ◌^◌, ◌≤◌, ◌≡◌, refl, ap, sym, ◌∙◌, List, [], ◌∷◌, ◌++◌,
  append_assoc, length, length-append, length-take, length-drop, set, take, drop, take-append-drop,
  arith,
}
use native.Mathlib.Nat.{zero-add, suc-add, sub-zero, suc-sub-suc}
use y_f_s.Rpc.Marshall.{
  Marshall, ReqHeader, ReplyHeader, rpc_sz, reserve_byte, rawbyte, pack, pack_req_header,
  pack_reply_header, get_content,
}
use y_f_s.Rpc.Marshall.Buffer.{IsBuffer, written}
use y_f_s.Rpc.Marshall.Writing.{be32}

-- The position is behind `pre`; the memory is full.
pub record Over (m : Marshall) (pre post : List ℕ) : Type 0 where
  pub holds : m.buf ≡ pre ++ post
  pub place : m.ind ≡ length pre
  pub sized : m.capa ≡ length pre + length post

set_at :
    (pre : List ℕ) (o x : ℕ) (post : List ℕ)
    → set (pre ++ o ∷ post) (length pre) x ≡ pre ++ x ∷ post
set_at [] o x post = refl
set_at (p ∷ pre) o x post = ap (◌∷◌ p) (set_at pre o x post)

Over-byte :
    (m : Marshall) (pre : List ℕ) (o x : ℕ) (post : List ℕ)
    → Over m pre (o ∷ post)
    → rawbyte x m ≡ record m { buf = pre ++ x ∷ post; ind = m.ind + 1 }
unfolding rawbyte reserve_byte
Over-byte m pre o x post v = ground (arith, v.holds, v.place, v.sized, set_at pre o x post)

rawbyte-Over :
    (m : Marshall) (pre : List ℕ) (o x : ℕ) (post : List ℕ)
    → Over m pre (o ∷ post)
    → Over (rawbyte x m) (pre ++ x ∷ []) post
rawbyte-Over m pre o x post v = rw (Over-byte m pre o x post v) (record {
  holds = sym (append_assoc pre (x ∷ []) post);
  place = omega (arith, v.place, length-append pre (x ∷ []));
  sized = omega (arith, v.sized, length-append pre (x ∷ []));
})

pack-Over :
    (m : Marshall) (pre old post : List ℕ) (x : ℕ)
    → length old ≡ 4
    → Over m pre (old ++ post)
    → Over (pack x m) (pre ++ be32 x) post
unfolding pack
pack-Over m pre (a ∷ b ∷ c ∷ d ∷ []) post x h v = simp append_assoc at (
    rawbyte-Over _ _ d (x % 256) post (
      rawbyte-Over _ _ c (x / 2 ^ 8 % 256) (d ∷ post) (
        rawbyte-Over _ _ b (x / 2 ^ 16 % 256) (c ∷ d ∷ post)
          (rawbyte-Over m pre a (x / 2 ^ 24 % 256) (b ∷ c ∷ d ∷ post) v))))
pack-Over m pre [] post x h v = absurd (omega arith)
pack-Over m pre (a ∷ []) post x h v = absurd (omega arith)
pack-Over m pre (a ∷ b ∷ []) post x h v = absurd (omega arith)
pack-Over m pre (a ∷ b ∷ c ∷ []) post x h v = absurd (omega arith)
pack-Over m pre (a ∷ b ∷ c ∷ d ∷ e ∷ old) post x h v = absurd (omega arith)

-- A word over whatever lies before the position.
Over-word :
    (m : Marshall) (pre post : List ℕ) (x : ℕ)
    → 4 ≤ length post
    → Over m pre post
    → Over (pack x m) (pre ++ be32 x) (drop 4 post)
Over-word m pre post x h v =
    pack-Over m pre (take 4 post) (drop 4 post) x (omega (arith, length-take 4 post))
      (rw take-append-drop v)

drop-nil : (n : ℕ) → drop {A = ℕ} n [] ≡ []
drop-nil zero = refl
drop-nil (suc n) = refl

drop-drop : (n k : ℕ) (xs : List ℕ) → drop n (drop k xs) ≡ drop (k + n) xs
drop-drop n zero xs = rw zero-add
drop-drop n (suc k) [] = drop-nil n ∙ sym (drop-nil (suc k + n))
drop-drop n (suc k) (x ∷ xs) = rw suc-add (drop-drop n k xs)

-- At the size of the message, before the header.
start-Over :
    (m : Marshall)
    → IsBuffer m
    → 24 ≤ m.capa
    → Over (record m { ind = rpc_sz }) (take 4 m.buf) (drop 4 m.buf)
start-Over m v s = record {
  holds = sym (take-append-drop 4 m.buf);
  place = omega (arith, length-take 4 m.buf, v.sized);
  sized = omega (arith, length-take 4 m.buf, length-drop 4 m.buf, v.sized);
}

-- The bytes of the two headers behind the size.
abbrev pub req_bytes : ReqHeader → List ℕ
req_bytes h =
    be32 h.xid ++ (be32 h.proc ++ (be32 h.clt_nonce ++ (be32 h.srv_nonce ++ be32 h.xid_rep)))

abbrev pub reply_bytes : ReplyHeader → List ℕ
reply_bytes h = be32 h.xid ++ be32 h.ret

pub pack_req_header-buf :
    (h : ReqHeader) (m : Marshall)
    → IsBuffer m
    → 24 ≤ m.capa
    → (pack_req_header h m).buf ≡ take 4 m.buf ++ (req_bytes h ++ drop 24 m.buf)
unfolding pack_req_header
pack_req_header-buf h m v s = simp append_assoc (
    simp (append_assoc, drop-drop) at
      (Over-word _ _ _ h.xid_rep (omega (arith, length-drop {0}, v.sized)) (
        Over-word _ _ _ h.srv_nonce (omega (arith, length-drop {0}, v.sized)) (
          Over-word _ _ _ h.clt_nonce (omega (arith, length-drop {0}, v.sized)) (
            Over-word _ _ _ h.proc (omega (arith, length-drop {0}, v.sized)) (
              Over-word _ _ _ h.xid (omega (arith, length-drop {0}, v.sized))
                (start-Over m v s)))))).holds)

pub pack_reply_header-buf :
    (h : ReplyHeader) (m : Marshall)
    → IsBuffer m
    → 24 ≤ m.capa
    → (pack_reply_header h m).buf ≡ take 4 m.buf ++ (reply_bytes h ++ drop 12 m.buf)
unfolding pack_reply_header
pack_reply_header-buf h m v s = simp append_assoc (
    simp (append_assoc, drop-drop) at
      (Over-word _ _ _ h.ret (omega (arith, length-drop {0}, v.sized))
        (Over-word _ _ _ h.xid (omega (arith, length-drop {0}, v.sized)) (start-Over m v s))).holds)

module _ {ℓ} {A : Type ℓ} where
  take-append_ge :
      (n : ℕ) (xs ys : List A) → length xs ≤ n → take n (xs ++ ys) ≡ xs ++ take (n - length xs) ys
  take-append_ge n [] ys h = rw sub-zero
  take-append_ge zero (x ∷ xs) ys h = absurd (omega arith)
  take-append_ge (suc n) (x ∷ xs) ys h =
      ap (◌∷◌ x) (take-append_ge n xs ys (omega arith) ∙ rw suc-sub-suc)

  take-nil : (n : ℕ) → take {A = A} n [] ≡ []
  take-nil zero = refl
  take-nil (suc n) = refl

  take-drop : (n k : ℕ) (xs : List A) → take n (drop k xs) ≡ drop k (take (k + n) xs)
  take-drop n zero xs = rw zero-add
  take-drop n (suc k) [] = take-nil n ∙ ap (drop (suc k)) (sym (take-nil (suc k + n)))
  take-drop n (suc k) (x ∷ xs) = rw suc-add (take-drop n k xs)

-- A prefix and a header of `k` bytes in all, put over the start of a list.
overlay_take :
    (n k : ℕ) (pre header xs : List ℕ)
    → length pre + length header ≡ k
    → k ≤ n
    → take n (pre ++ (header ++ drop k xs)) ≡ pre ++ (header ++ drop k (take n xs))
overlay_take n k pre header xs e h =
    take-append_ge n pre _ (omega arith)
    ∙ ap (◌++◌ pre) (
        take-append_ge (n - length pre) header _ (omega arith)
        ∙ ap (◌++◌ header) (take-drop (n - length pre - length header) k xs ∙ rw rest))
  where
    rest : k + (n - length pre - length header) ≡ n
    rest = omega arith

written_req :
    (h : ReqHeader) (m : Marshall)
    → written (pack_req_header h m) ≡ take m.ind (pack_req_header h m).buf
unfolding pack_req_header
written_req h m = refl

-- The message of a request: the header, over whatever the size's bytes hold, and what was written
-- behind it.
pub request_message :
    (h : ReqHeader) (m : Marshall)
    → IsBuffer m
    → 24 ≤ m.ind
    → written (pack_req_header h m) ≡ take 4 m.buf ++ (req_bytes h ++ get_content m)
unfolding get_content
request_message h m v s =
    written_req h m
    ∙ ap (take m.ind) (pack_req_header-buf h m v (omega (arith, v.within)))
    ∙ overlay_take m.ind 24 (take 4 m.buf) (req_bytes h) m.buf
        (omega (arith, length-take 4 m.buf, v.sized, v.within)) s
