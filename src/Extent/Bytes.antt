-- ===== src/Extent/Bytes.antt =====
-- The bytes that `extent_server::putbuf` and `extent_server::resize` leave in a buffer.
use Prim.Native.Nat.{max}
use y_f_s.Base.{
  ℕ, zero, suc, ◌+◌, ◌-◌, ◌%◌, ◌^◌, ◌<◌, ◌≤◌, ◌≡◌, refl, ap, sym, ◌∙◌, none, some, List, ◌++◌,
  length, length-append, length-take, length-drop, length-replicate, take, drop, replicate, get_or,
  get_or-append, get_or-take, get_or-drop, get_or_beyond, take-append, drop-append, ltb,
  if◌then◌else◌, arith,
}
use y_f_s.Extent.{resized, grown, splice}

get_or-replicate : (n i : ℕ) → get_or (replicate n 0) i 0 ≡ zero
get_or-replicate zero i = refl
get_or-replicate (suc n) zero = refl
get_or-replicate (suc n) (suc i) = get_or-replicate n i

pub length-resized : (n : ℕ) (buf : List ℕ) → length (resized n buf) ≡ n
unfolding resized
length-resized n buf = omega (
  arith,
  length-append (take n buf) (replicate (n - length buf) zero),
  length-take n buf,
  length-replicate (n - length buf) zero,
)

-- A new size keeps the bytes below it, and fills with zeros.
pub get_or-resized :
    (n : ℕ) (buf : List ℕ) (i : ℕ)
    → get_or (resized n buf) i 0 ≡ (if ltb i n then get_or buf i 0 else 0)
unfolding resized
get_or-resized n buf i = ground (
  arith,
  get_or-append (take n buf) (replicate (n - length buf) 0) i 0,
  get_or-take n buf i 0,
  get_or-replicate (n - length buf) (i - length (take n buf)),
  length-take n buf,
  get_or_beyond buf i 0,
)

pub length-grown : (stop : ℕ) (buf : List ℕ) → length (grown stop buf) ≡ max (length buf) stop
unfolding grown
length-grown stop buf = ground (arith, length-resized stop buf)

pub get_or-grown : (stop : ℕ) (buf : List ℕ) (i : ℕ) → get_or (grown stop buf) i 0 ≡ get_or buf i 0
unfolding grown
get_or-grown stop buf i = ground (arith, get_or-resized stop buf i, get_or_beyond buf i 0)

abbrev pub spliced : ℕ → List ℕ → List ℕ → List ℕ
spliced off bs buf =
    let g = grown (off + length bs) buf in take off g ++ (bs ++ drop (off + length bs) g)

pub length-spliced :
    (off : ℕ) (bs buf : List ℕ) → length (spliced off bs buf) ≡ max (length buf) (off + length bs)
length-spliced off bs buf =
    let n = off + length bs in
    let g = grown n buf in
    omega (
      arith,
      length-append (take off g) (bs ++ drop n g),
      length-append bs (drop n g),
      length-take off g,
      length-drop n g,
      length-grown n buf,
    )

-- Behind the write the new bytes stand at `off`, and every other byte is what it was, with zeros
-- in the gap behind the old end.
pub get_or-spliced :
    (off : ℕ) (bs buf : List ℕ) (i : ℕ)
    → get_or (spliced off bs buf) i 0 ≡ (
        if ltb i off
        then get_or buf i 0
        else if ltb i (off + length bs)
        then get_or bs (i - off) 0
        else get_or buf i 0)
get_or-spliced off bs buf i =
    let n = off + length bs in
    let g = grown n buf in
    let back = drop n g in
    let short : length (take off g) ≡ off = omega (arith, length-take off g, length-grown n buf) in
    let rest = i - length (take off g) in
    ground (
      arith,
      short,
      get_or-append (take off g) (bs ++ back) i 0,
      get_or-append bs back rest 0,
      get_or-take off g i 0,
      get_or-drop n g (rest - length bs) 0,
      get_or-grown n buf i,
    )

pub read_spliced :
    (off : ℕ) (bs buf : List ℕ) → take (length bs) (drop off (spliced off bs buf)) ≡ bs
read_spliced off bs buf =
    let n = off + length bs in
    let g = grown n buf in
    let short : length (take off g) ≡ off = omega (arith, length-take off g, length-grown n buf) in
    ap (λ (k : ℕ). take (length bs) (drop k (spliced off bs buf))) (sym short)
    ∙ rw (drop-append (take off g) (bs ++ drop n g)) (take-append bs (drop n g))

-- A write that ends within `max_size` succeeds.
pub splice-some :
    (max_size off : ℕ) (bs buf : List ℕ)
    → max_size < 2 ^ 31
    → off + length bs ≤ max_size
    → splice max_size off bs buf ≡ some (spliced off bs buf)
unfolding splice
splice-some max_size off bs buf m h = ground (arith, length-grown (off + length bs) buf)

-- Writing `bs` at `off` into a buffer, where the end of the write is at most `max_size` and this
-- is below 2 ^ 31, gives a buffer that reaches to the end of the write or to its old end, with
-- the bytes of `bs` from `off` on and elsewhere the byte that was there before, which is zero in
-- a gap behind the old end.
pub splice_bytes :
    (max_size off : ℕ) (bs buf : List ℕ)
    → max_size < 2 ^ 31
    → off + length bs ≤ max_size
    → (b : List ℕ) × (splice max_size off bs buf ≡ some b)
      × (length b ≡ max (length buf) (off + length bs))
      × ((i : ℕ)
          → get_or b i 0 ≡ (
              if ltb i off
              then get_or buf i 0
              else if ltb i (off + length bs)
              then get_or bs (i - off) 0
              else get_or buf i 0))
splice_bytes max_size off bs buf m h = (
  spliced off bs buf,
  splice-some max_size off bs buf m h,
  length-spliced off bs buf,
  get_or-spliced off bs buf,
)

-- Where the end of the write wraps, `replace` throws.
pub splice_wraps :
    (max_size off : ℕ) (bs buf : List ℕ)
    → max_size < 2 ^ 31
    → length bs ≤ max_size
    → length buf ≤ max_size
    → off < 2 ^ 32
    → 2 ^ 32 ≤ off + length bs
    → splice max_size off bs buf ≡ none
unfolding splice
splice_wraps max_size off bs buf m h k b w =
    ground (arith, length-grown ((off + length bs) % 2 ^ 32) buf)
