-- ===== src/Rpc/Unmarshall/Reading.antt =====
-- Reads of `class unmarshall` from a buffer with known bytes.
use y_f_s.Base.{
  ℕ, ◌+◌, ◌*◌, ◌/◌, ◌%◌, ◌^◌, ◌<◌, ◌≡◌, refl, ap, sym, ◌∙◌, Bool, true, false, some, List, [], ◌∷◌,
  ◌++◌, append_assoc, length, length-append, get_or, take-append, drop-append, arith, bit_or,
}
use y_f_s.Base.Bits.{bit_or_shl, bit_or_shl_right}
use y_f_s.Rpc.Marshall.Writing.{be16, be32, be64, bool_byte, string_bytes}
use y_f_s.Rpc.Unmarshall.{
  Unmarshall, char_to_uint, rawbyte, rawbytes, get_bool, get_uchar, get_ushort, get_uint,
  get_ulonglong, get_string, unpack, okdone,
}

-- The reader has passed `pre`, and `post` lies before it.
pub record At (u : Unmarshall) (pre post : List ℕ) : Type 0 where
  pub holds : u.buf ≡ pre ++ post
  pub place : u.ind ≡ length pre
  pub sized : u.sz ≡ length pre + length post
  pub fine : u.good ≡ true

abbrev pub skip : ℕ → Unmarshall → Unmarshall
skip n u = record u { ind = u.ind + n }

pub skip-At :
    (u : Unmarshall) (pre bs post : List ℕ)
    → At u pre (bs ++ post)
    → At (skip (length bs) u) (pre ++ bs) post
skip-At u pre bs post a = record {
  holds = a.holds ∙ sym (append_assoc pre bs post);
  place = omega (arith, a.place, length-append pre bs);
  sized = omega (arith, a.sized, length-append pre bs, length-append bs post);
  fine = a.fine;
}

get_or_at :
    (pre : List ℕ) (c : ℕ) (post : List ℕ) (d : ℕ) → get_or (pre ++ c ∷ post) (length pre) d ≡ c
get_or_at [] c post d = refl
get_or_at (p ∷ pre) c post d = get_or_at pre c post d

pub rawbyte-At :
    (u : Unmarshall) (pre : List ℕ) (c : ℕ) (post : List ℕ)
    → At u pre (c ∷ post)
    → rawbyte u ≡ (char_to_uint c, skip 1 u)
unfolding rawbyte
rawbyte-At u pre c post a = ground (arith, get_or_at pre c post 0, a.holds, a.place, a.sized)

pub char_to_uint-low : (c : ℕ) → c < 256 → char_to_uint c % 256 ≡ c
char_to_uint-low c h = ground arith

-- What the four shifted bytes make.
join32 : ℕ → ℕ → ℕ → ℕ → ℕ
join32 a b c d = bit_or (bit_or (bit_or (a * 2 ^ 24) (b * 2 ^ 16)) (c * 2 ^ 8)) d

join32-eq :
    (a b c d : ℕ)
    → b < 256
    → c < 256
    → d < 256
    → join32 a b c d ≡ a * 2 ^ 24 + b * 2 ^ 16 + c * 2 ^ 8 + d
unfolding join32
join32-eq a b c d hb hc hd =
    rw
      (
        bit_or_shl 24 a (b * 2 ^ 16) (omega arith),
        first,
        bit_or_shl 16 (a * 256 + b) (c * 2 ^ 8) (omega arith),
        second,
        bit_or_shl 8 (a * 65536 + b * 256 + c) d hd,
      )
      (omega arith)
  where
    first : a * 2 ^ 24 + b * 2 ^ 16 ≡ (a * 256 + b) * 2 ^ 16
    first = omega arith

    second : (a * 256 + b) * 2 ^ 16 + c * 2 ^ 8 ≡ (a * 65536 + b * 256 + c) * 2 ^ 8
    second = omega arith

join32-be32 :
    (x : ℕ)
    → x < 2 ^ 32
    → join32 (x / 2 ^ 24 % 256) (x / 2 ^ 16 % 256) (x / 2 ^ 8 % 256) (x % 256) ≡ x
join32-be32 x h =
    join32-eq (x / 2 ^ 24 % 256) (x / 2 ^ 16 % 256) (x / 2 ^ 8 % 256) (x % 256) (omega arith)
      (omega arith) (omega arith)
    ∙ omega arith

-- Four reads, masked and joined, as in `>> unsigned int` and in `unpack`.
abbrev read4 : Unmarshall → ℕ × Unmarshall
read4 u =
    let (a, u1) = rawbyte u in
    let (b, u2) = rawbyte u1 in
    let (c, u3) = rawbyte u2 in
    let (d, u4) = rawbyte u3 in (join32 (a % 256) (b % 256) (c % 256) (d % 256), u4)

read4-At :
    (u : Unmarshall) (pre : List ℕ) (a b c d : ℕ) (post : List ℕ)
    → a < 256
    → b < 256
    → c < 256
    → d < 256
    → At u pre (a ∷ b ∷ c ∷ d ∷ post)
    → read4 u ≡ (join32 a b c d, skip 4 u)
read4-At u pre a b c d post ha hb hc hd at0 =
    let at1 = skip-At u pre (a ∷ []) (b ∷ c ∷ d ∷ post) at0 in
    let at2 = skip-At (skip 1 u) (pre ++ a ∷ []) (b ∷ []) (c ∷ d ∷ post) at1 in
    let at3 = skip-At (skip 1 (skip 1 u)) ((pre ++ a ∷ []) ++ b ∷ []) (c ∷ []) (d ∷ post) at2 in
    rw
      (
        rawbyte-At u pre a (b ∷ c ∷ d ∷ post) at0,
        rawbyte-At (skip 1 u) (pre ++ a ∷ []) b (c ∷ d ∷ post) at1,
        rawbyte-At (skip 1 (skip 1 u)) ((pre ++ a ∷ []) ++ b ∷ []) c (d ∷ post) at2,
        rawbyte-At (skip 1 (skip 1 (skip 1 u))) (((pre ++ a ∷ []) ++ b ∷ []) ++ c ∷ []) d post at3,
      )
      (ground (
        arith,
        char_to_uint-low a ha,
        char_to_uint-low b hb,
        char_to_uint-low c hc,
        char_to_uint-low d hd,
      ))

pub get_uint-At :
    (u : Unmarshall) (pre : List ℕ) (x : ℕ) (post : List ℕ)
    → x < 2 ^ 32
    → At u pre (be32 x ++ post)
    → get_uint u ≡ (x, skip 4 u)
unfolding get_uint join32
get_uint-At u pre x post h a =
    read4-At u pre _ _ _ _ post (omega arith) (omega arith) (omega arith) (omega arith) a
    ∙ ap (λ (y : ℕ). (y, skip 4 u)) (join32-be32 x h)

pub unpack-At :
    (u : Unmarshall) (pre : List ℕ) (x : ℕ) (post : List ℕ)
    → x < 2 ^ 32
    → At u pre (be32 x ++ post)
    → unpack u ≡ (x, skip 4 u)
unfolding unpack join32
unpack-At u pre x post h a =
    read4-At u pre _ _ _ _ post (omega arith) (omega arith) (omega arith) (omega arith) a
    ∙ ap (λ (y : ℕ). (y, skip 4 u)) (join32-be32 x h)

pub get_ulonglong-At :
    (u : Unmarshall) (pre : List ℕ) (x : ℕ) (post : List ℕ)
    → x < 2 ^ 64
    → At u pre (be64 x ++ post)
    → get_ulonglong u ≡ (x, skip 8 u)
unfolding get_ulonglong
get_ulonglong-At u pre x post h a =
    let hi = x / 2 ^ 32 % 2 ^ 32 in
    let lo = x % 2 ^ 32 in
    rw
      (
        get_uint-At u pre hi (be32 lo ++ post) (omega arith) a,
        get_uint-At (skip 4 u) (pre ++ be32 hi) lo post (omega arith)
            (skip-At u pre (be32 hi) (be32 lo ++ post) a),
        bit_or_shl_right 32 hi lo (omega arith),
      )
      (ground arith)

pub get_ushort-At :
    (u : Unmarshall) (pre : List ℕ) (x : ℕ) (post : List ℕ)
    → x < 2 ^ 16
    → At u pre (be16 x ++ post)
    → get_ushort u ≡ (x, skip 2 u)
unfolding get_ushort
get_ushort-At u pre x post h a =
    let hi = x / 2 ^ 8 % 256 in
    let lo = x % 256 in
    rw
      (
        rawbyte-At u pre hi (lo ∷ post) a,
        rawbyte-At (skip 1 u) (pre ++ hi ∷ []) lo post (skip-At u pre (hi ∷ []) (lo ∷ post) a),
      )
      (ground (arith, char_to_uint-low hi, char_to_uint-low lo, bit_or_shl 8 hi lo))

pub get_uchar-At :
    (u : Unmarshall) (pre : List ℕ) (x : ℕ) (post : List ℕ)
    → x < 256
    → At u pre (x ∷ post)
    → get_uchar u ≡ (x, skip 1 u)
unfolding get_uchar
get_uchar-At u pre x post h a = rw (rawbyte-At u pre x post a, char_to_uint-low x h)

pub get_bool-At :
    (u : Unmarshall) (pre : List ℕ) (x : Bool) (post : List ℕ)
    → At u pre (bool_byte x ∷ post)
    → get_bool u ≡ (x, skip 1 u)
unfolding get_bool
get_bool-At u pre true post a = rw (rawbyte-At u pre 1 post a)
get_bool-At u pre false post a = rw (rawbyte-At u pre 0 post a)

-- The bytes of a string, in a buffer that is not larger than an `int` can say.
pub rawbytes-At :
    (u : Unmarshall) (pre bs post old : List ℕ)
    → u.sz < 2 ^ 31
    → At u pre (bs ++ post)
    → rawbytes (length bs) old u ≡ some (bs, skip (length bs) u)
unfolding rawbytes
rawbytes-At u pre bs post old s a = ground (
  arith,
  a.holds,
  a.place,
  a.sized,
  length-append bs post,
  drop-append pre (bs ++ post),
  take-append bs post,
)

pub get_string-At :
    (u : Unmarshall) (pre s post old : List ℕ)
    → u.sz < 2 ^ 31
    → At u pre (string_bytes s ++ post)
    → get_string old u ≡ some (s, skip (length (string_bytes s)) u)
unfolding get_string
get_string-At u pre s post old b a =
    let n = length s % 2 ^ 32 in
    let e : n ≡ length s = omega (arith, a.sized, length-append s post) in
    ground (
      arith,
      a.fine,
      e,
      get_uint-At u pre n (s ++ post) (omega arith) a,
      rawbytes-At (skip 4 u) (pre ++ be32 n) s post old b (skip-At u pre (be32 n) (s ++ post) a),
    )

pub okdone-At : (u : Unmarshall) (pre : List ℕ) → At u pre [] → okdone u ≡ true
unfolding okdone
okdone-At u pre a = ground (arith, a.fine, a.place, a.sized)
