-- ===== src/Rpc/Marshall/Buffer.antt =====
-- The memory of `class marshall`, and the bytes that `rawbyte` and `rawbytes` put into it.
use y_f_s.Base.{
  ℕ, zero, suc, ◌+◌, ◌-◌, ◌*◌, ◌<◌, ◌≤◌, ◌≡◌, refl, ap, ◌∙◌, inl, inr, List, [], ◌∷◌, ◌++◌,
  append_assoc, append-nil, length, length-append, length-take, set, length-set, take, drop, leb,
  ltb, if◌then◌else◌, arith, Bool-cases,
}
use native.Mathlib.Nat.{add-zero}
use native.Mathlib.Numerals.{add-one}
use y_f_s.Rpc.Marshall.{
  Marshall, default_rpc_sz, grow, reserve, reserve_byte, rpc_header_sz, get_content, fresh, realloc,
  new_marshall, rawbyte, copy, rawbytes,
}

-- The memory has `capa` bytes, and the position is inside it or at its end.
pub record IsBuffer (m : Marshall) : Type 0 where
  pub sized : length m.buf ≡ m.capa
  pub within : m.ind ≤ m.capa
  pub nonempty : 0 < m.capa

-- All that lies before the position, header included.
abbrev pub written : Marshall → List ℕ
written m = take m.ind m.buf

module _ {ℓ} {A : Type ℓ} where
  take-set :
      (xs : List A) (i : ℕ) (x : A)
      → i < length xs
      → take (suc i) (set xs i x) ≡ take i xs ++ x ∷ []
  take-set [] i x h = absurd (omega arith)
  take-set (y ∷ xs) zero x h = refl
  take-set (y ∷ xs) (suc i) x h = ap (◌∷◌ y) (take-set xs i x (omega arith))

  take-append_le : (n : ℕ) (xs ys : List A) → n ≤ length xs → take n (xs ++ ys) ≡ take n xs
  take-append_le zero xs ys h = refl
  take-append_le (suc n) [] ys h = absurd (omega arith)
  take-append_le (suc n) (x ∷ xs) ys h = ap (◌∷◌ x) (take-append_le n xs ys (omega arith))

  take-take : (n k : ℕ) (xs : List A) → n ≤ k → take n (take k xs) ≡ take n xs
  take-take zero k xs h = refl
  take-take (suc n) zero xs h = absurd (omega arith)
  take-take (suc n) (suc k) [] h = refl
  take-take (suc n) (suc k) (x ∷ xs) h = ap (◌∷◌ x) (take-take n k xs (omega arith))

length-fresh : (junk : ℕ → ℕ) (i n : ℕ) → length (fresh junk i n) ≡ n
unfolding fresh
length-fresh junk i zero = refl
length-fresh junk i (suc n) = ap suc (length-fresh junk (suc i) n)

length-realloc : (junk : ℕ → ℕ) (buf : List ℕ) (n : ℕ) → length (realloc junk buf n) ≡ n
unfolding realloc
length-realloc junk buf n = omega (
  arith,
  length-append (take n buf) (fresh junk (length buf) (n - length buf)),
  length-take n buf,
  length-fresh junk (length buf) (n - length buf),
)

take-realloc :
    (junk : ℕ → ℕ) (buf : List ℕ) (n i : ℕ)
    → i ≤ length buf
    → i ≤ n
    → take i (realloc junk buf n) ≡ take i buf
unfolding realloc
take-realloc junk buf n i h k =
    take-append_le i (take n buf) _ (omega (arith, length-take n buf)) ∙ take-take i n buf k

length-copy : (p buf : List ℕ) (i : ℕ) → length (copy buf i p) ≡ length buf
unfolding copy
length-copy [] buf i = refl
length-copy (x ∷ p) buf i = length-copy p (set buf i x) (suc i) ∙ length-set buf i x

take-copy :
    (p buf : List ℕ) (i : ℕ)
    → i + length p ≤ length buf
    → take (i + length p) (copy buf i p) ≡ take i buf ++ p
unfolding copy
take-copy [] buf i h = rw (add-zero, append-nil)
take-copy (x ∷ p) buf i h =
    ap (λ (k : ℕ). take k (copy (set buf i x) (suc i) p)) (omega arith)
    ∙ take-copy p (set buf i x) (suc i) (omega (arith, length-set buf i x))
    ∙ rw (take-set buf i x (omega arith)) (append_assoc (take i buf) (x ∷ []) p)

-- What the growing steps promise: room for `n` more bytes, and nothing written is lost.
record Reserved (n : ℕ) (m m' : Marshall) : Type 0 where
  buffer : IsBuffer m'
  place : m'.ind ≡ m.ind
  room : m'.ind + n ≤ m'.capa
  kept : written m' ≡ written m

grow-Reserved :
    (n k : ℕ) (m : Marshall) → IsBuffer m → m.capa ≤ k → m.ind + n ≤ k → Reserved n m (grow k m)
unfolding grow
grow-Reserved n k m v h r = record {
  buffer = record {
    sized = length-realloc m.junk m.buf k;
    within = omega (arith, v.within);
    nonempty = omega (arith, v.nonempty);
  };
  place = refl;
  room = r;
  kept =
      take-realloc m.junk m.buf k m.ind (omega (arith, v.within, v.sized))
        (omega (arith, v.within));
}

here-Reserved : (n : ℕ) (m : Marshall) → IsBuffer m → m.ind + n ≤ m.capa → Reserved n m m
here-Reserved n m v r = record { buffer = v; place = refl; room = r; kept = refl }

reserve_byte-Reserved : (m : Marshall) → IsBuffer m → Reserved 1 m (reserve_byte m)
unfolding reserve_byte
reserve_byte-Reserved m v = elim (Bool-cases (leb m.capa m.ind)) [
  | inl full ↦
      simp full
        (grow-Reserved 1 (m.capa * 2) m v (omega arith) (omega (arith, v.within, v.nonempty)))
  | inr free ↦ simp free (here-Reserved 1 m v (ground arith))
]

reserve-Reserved : (n : ℕ) (m : Marshall) → IsBuffer m → Reserved n m (reserve n m)
unfolding reserve
reserve-Reserved n m v = elim (Bool-cases (ltb m.capa (m.ind + n))) [
  | inl full ↦ simp full (
      grow-Reserved n (if ltb n m.capa then 2 * m.capa else m.capa + n) m v (ground arith)
        (ground (arith, v.within)))
  | inr free ↦ simp free (here-Reserved n m v (ground arith))
]

-- A new buffer is well formed, and its position is behind the header.
pub new_marshall-IsBuffer : (junk : ℕ → ℕ) → IsBuffer (new_marshall junk)
unfolding new_marshall
new_marshall-IsBuffer junk = record {
  sized = length-fresh junk 0 default_rpc_sz;
  within = omega arith;
  nonempty = omega arith;
}

-- The written place is inside the memory, which is kept well formed.
pub rawbyte-IsBuffer : (x : ℕ) (m : Marshall) → IsBuffer m → IsBuffer (rawbyte x m)
unfolding rawbyte
rawbyte-IsBuffer x m v = record {
  sized = length-set m'.buf m'.ind x ∙ r.buffer.sized;
  within = r.room;
  nonempty = r.buffer.nonempty;
}
  where
    m' : Marshall
    m' = reserve_byte m

    r : Reserved 1 m m'
    r = reserve_byte-Reserved m v

pub written-rawbyte :
    (x : ℕ) (m : Marshall) → IsBuffer m → written (rawbyte x m) ≡ written m ++ x ∷ []
unfolding rawbyte
written-rawbyte x m v = rw add-one (
    take-set m'.buf m'.ind x (omega (arith, r.room, r.buffer.sized))
    ∙ ap (λ (t : List ℕ). t ++ x ∷ []) r.kept)
  where
    m' : Marshall
    m' = reserve_byte m

    r : Reserved 1 m m'
    r = reserve_byte-Reserved m v

-- A marshaller stays well formed when bytes are written to it: its capacity is the size of its
-- memory and is not 0, and its position is not behind the capacity.
pub rawbytes-IsBuffer : (p : List ℕ) (m : Marshall) → IsBuffer m → IsBuffer (rawbytes p m)
unfolding rawbytes
rawbytes-IsBuffer p m v = record {
  sized = length-copy p m'.buf m'.ind ∙ r.buffer.sized;
  within = r.room;
  nonempty = r.buffer.nonempty;
}
  where
    m' : Marshall
    m' = reserve (length p) m

    r : Reserved (length p) m m'
    r = reserve-Reserved (length p) m v

-- Bytes that are written to a well-formed marshaller follow what was written before, whether or
-- not its memory has to grow for them.
pub written-rawbytes :
    (p : List ℕ) (m : Marshall) → IsBuffer m → written (rawbytes p m) ≡ written m ++ p
unfolding rawbytes
written-rawbytes p m v =
    take-copy p m'.buf m'.ind (omega (arith, r.room, r.buffer.sized))
    ∙ ap (λ (t : List ℕ). t ++ p) r.kept
  where
    m' : Marshall
    m' = reserve (length p) m

    r : Reserved (length p) m m'
    r = reserve-Reserved (length p) m v

new_marshall-ind : (junk : ℕ → ℕ) → (new_marshall junk).ind ≡ 24
unfolding new_marshall
new_marshall-ind junk = refl

pub written-length : (m : Marshall) → IsBuffer m → length (written m) ≡ m.ind
written-length m v = omega (arith, length-take m.ind m.buf, v.sized, v.within)

pub get_content-written : (m : Marshall) → get_content m ≡ drop rpc_header_sz (written m)
unfolding get_content
get_content-written m = refl

pub new_marshall-written : (junk : ℕ → ℕ) → length (written (new_marshall junk)) ≡ 24
new_marshall-written junk =
    written-length (new_marshall junk) (new_marshall-IsBuffer junk) ∙ new_marshall-ind junk
