-- ===== src/Rpc/Marshall/Writing.antt =====
-- The bytes that the `<<` operators append.
use y_f_s.Base.{
  ℕ, ◌/◌, ◌%◌, ◌^◌, ◌≡◌, ap, ◌∙◌, Bool, List, [], ◌∷◌, ◌++◌, append_assoc, length, if◌then◌else◌,
}
use y_f_s.Rpc.Marshall.{
  Marshall, rawbyte, rawbytes, put_bool, put_uchar, put_ushort, put_uint, put_ulonglong, put_string,
}
use y_f_s.Rpc.Marshall.Buffer.{
  IsBuffer, written, rawbyte-IsBuffer, written-rawbyte, rawbytes-IsBuffer, written-rawbytes,
}

abbrev pub be16 : ℕ → List ℕ
be16 x = x / 2 ^ 8 % 256 ∷ x % 256 ∷ []

-- The bytes of a number of 32 bits, the highest first.
abbrev pub be32 : ℕ → List ℕ
be32 x = x / 2 ^ 24 % 256 ∷ x / 2 ^ 16 % 256 ∷ x / 2 ^ 8 % 256 ∷ x % 256 ∷ []

abbrev pub be64 : ℕ → List ℕ
be64 x = be32 (x / 2 ^ 32 % 2 ^ 32) ++ be32 (x % 2 ^ 32)

abbrev pub bool_byte : Bool → ℕ
bool_byte x = if x then 1 else 0

abbrev pub string_bytes : List ℕ → List ℕ
string_bytes s = be32 (length s % 2 ^ 32) ++ s

-- Two writes, one behind the other.
abbrev pub Writes : (Marshall → Marshall) → List ℕ → Type 0
Writes f bs = (m : Marshall) → IsBuffer m → IsBuffer (f m) × (written (f m) ≡ written m ++ bs)

pub Writes-byte : (x : ℕ) → Writes (rawbyte x) (x ∷ [])
Writes-byte x m v = (rawbyte-IsBuffer x m v, written-rawbyte x m v)

pub Writes-bytes : (p : List ℕ) → Writes (rawbytes p) p
Writes-bytes p m v = (rawbytes-IsBuffer p m v, written-rawbytes p m v)

pub Writes-then :
    (f g : Marshall → Marshall) (bs cs : List ℕ)
    → Writes f bs
    → Writes g cs
    → Writes (λ m. g (f m)) (bs ++ cs)
Writes-then f g bs cs wf wg m v =
    let (vf, ef) = wf m v in
    let (vg, eg) = wg (f m) vf in
    (vg, eg ∙ ap (λ (t : List ℕ). t ++ cs) ef ∙ append_assoc (written m) bs cs)

pub Writes-ushort : (x : ℕ) → Writes (put_ushort x) (be16 x)
unfolding put_ushort
Writes-ushort x = Writes-then _ _ (_ ∷ []) (_ ∷ []) (Writes-byte _) (Writes-byte _)

pub Writes-uint : (x : ℕ) → Writes (put_uint x) (be32 x)
unfolding put_uint
Writes-uint x =
    Writes-then _ _ (_ ∷ _ ∷ _ ∷ []) (_ ∷ [])
      (Writes-then _ _ (_ ∷ _ ∷ []) (_ ∷ [])
        (Writes-then _ _ (_ ∷ []) (_ ∷ []) (Writes-byte _) (Writes-byte _)) (Writes-byte _))
      (Writes-byte _)

pub Writes-ulonglong : (x : ℕ) → Writes (put_ulonglong x) (be64 x)
unfolding put_ulonglong
Writes-ulonglong x = Writes-then _ _ (be32 _) (be32 _) (Writes-uint _) (Writes-uint _)

pub Writes-bool : (x : Bool) → Writes (put_bool x) (bool_byte x ∷ [])
unfolding put_bool
Writes-bool x = Writes-byte (bool_byte x)

pub Writes-uchar : (x : ℕ) → Writes (put_uchar x) (x ∷ [])
unfolding put_uchar
Writes-uchar x = Writes-byte x

pub Writes-string : (s : List ℕ) → Writes (put_string s) (string_bytes s)
unfolding put_string
Writes-string s = Writes-then _ _ (be32 _) s (Writes-uint _) (Writes-bytes s)
