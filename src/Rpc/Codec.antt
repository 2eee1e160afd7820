-- ===== src/Rpc/Codec.antt =====
-- rpc/marshall.h: the `<<` and `>>` operators of one type as an interface, which the templates over
-- vectors and over the arguments of a call take as a parameter.
pub mod Scalars
pub mod Vector
pub mod Call
mod Tests
use y_f_s.Base.{ℕ, ◌+◌, ◌^◌, ◌<◌, ◌≡◌, Option, some, List, ◌++◌, length}
use y_f_s.Rpc.Marshall.{Marshall}
use y_f_s.Rpc.Marshall.Buffer.{IsBuffer, written}
use y_f_s.Rpc.Unmarshall.{Unmarshall}
use y_f_s.Rpc.Unmarshall.Reading.{At, skip}

-- `get` is given the value that its reference argument had. `Fits` holds of the values of the C++
-- type. A read may leave the buffer (`none`); what was written is read back in any place.
pub record Codec (A : Type 0) : Type 1 where
  pub put : A → Marshall → Marshall
  pub get : A → Unmarshall → Option (A × Unmarshall)
  pub Fits : A → Type 0
  pub encode : A → List ℕ
  pub put-IsBuffer : (a : A) (m : Marshall) → IsBuffer m → IsBuffer (put a m)
  pub written-put : (a : A) (m : Marshall) → IsBuffer m → written (put a m) ≡ written m ++ encode a
  pub get-At :
      (a old : A) (u : Unmarshall) (pre post : List ℕ)
      → Fits a
      → u.sz < 2 ^ 31
      → At u pre (encode a ++ post)
      → get old u ≡ some (a, skip (length (encode a)) u)
