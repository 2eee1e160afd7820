-- ===== src/Rpc/Unmarshall/Overflow.antt =====
-- `unmarshall::rawbytes` tests `_ind + n` on an `unsigned int`, which wraps at 2 ^ 32.
use y_f_s.Base.{
  ℕ, ◌+◌, ◌^◌, ◌<◌, ◌≤◌, ◌≡◌, ◌↔◌, false, none, some, List, leb, arith, take, drop, if◌then◌else◌,
}
use y_f_s.Rpc.Unmarshall.{Unmarshall, rawbytes}

-- A size that fits with the position into 32 bits is safe: the string is read where the buffer has
-- it, and the reader fails, with the string as it was, where the buffer is too short.
pub rawbytes_safe :
    (n : ℕ) (ss : List ℕ) (u : Unmarshall)
    → u.ind + n < 2 ^ 32
    → rawbytes n ss u ≡ (
        if leb (u.ind + n) u.sz
        then some (take n (drop u.ind u.buf), record u { ind = u.ind + n })
        else some (ss, record u { good = false }))
unfolding rawbytes
rawbytes_safe n ss u h = ground arith

-- An announced size of the wire leads to a read behind the buffer exactly if the sum of the position
-- and the size does not fit into an `unsigned int`, in a buffer below 2 GB.
pub rawbytes_overflow :
    (n : ℕ) (ss : List ℕ) (u : Unmarshall)
    → u.ind ≤ u.sz
    → u.sz < 2 ^ 31
    → n < 2 ^ 32
    → (rawbytes n ss u ≡ none) ↔ (2 ^ 32 ≤ u.ind + n)
unfolding rawbytes
rawbytes_overflow n ss u p s b = (λ e. ground arith, λ e. ground arith)
