-- ===== src/Rpc/Codec/Tests.antt =====
-- Messages through the marshaller and the unmarshaller, and the theorems on them at concrete inputs.
use y_f_s.Base.{
  ℕ, ◌+◌, ◌-◌, ◌^◌, ◌≤◌, ◌≡◌, ◌↔◌, refl, true, none, some, List, [], ◌∷◌, length, arith,
}
use y_f_s.Rpc.Marshall.{ReqHeader, ReplyHeader}
use y_f_s.Rpc.Unmarshall.{Unmarshall, of_buffer, rawbytes}
use y_f_s.Rpc.Unmarshall.Header.{Fits}
use y_f_s.Rpc.Unmarshall.Overflow.{rawbytes_overflow}
use y_f_s.Rpc.Unmarshall.Reading.{skip}
use y_f_s.Rpc.Codec.Scalars.{uint}
use y_f_s.Rpc.Codec.Vector.{get_vector, vector_bytes, items_bytes, get_vector-At}
use y_f_s.Rpc.Codec.Call.{delivered, request, receive, receive-request, length-request}

abbrev zeros : ℕ → ℕ
zeros i = 0

abbrev header : ReqHeader
header = record { xid = 3; proc = 7001; clt_nonce = 11; srv_nonce = 12; xid_rep = 2 }

abbrev reply : ReplyHeader
reply = record { xid = 3; ret = 0 }

header-Fits : Fits header
header-Fits = record {
  xid = omega arith;
  proc = omega arith;
  clt_nonce = omega arith;
  srv_nonce = omega arith;
  xid_rep = omega arith;
}

receive-request_example : receive uint 0 (request uint zeros header 77) ≡ (header, delivered 77)
unfolding uint
receive-request_example =
    receive-request uint zeros header 77 0 header-Fits (omega arith)
      (omega (arith, length-request uint zeros header 77))

-- A message in which the string's size is the largest.
abbrev behind_size : Unmarshall
behind_size = record { buf = []; sz = 30; ind = 28; good = true }

rawbytes_overflow_example :
    (rawbytes (2 ^ 32 - 1) [] behind_size ≡ none) ↔ (2 ^ 32 ≤ 28 + (2 ^ 32 - 1))
rawbytes_overflow_example =
    rawbytes_overflow (2 ^ 32 - 1) [] behind_size (omega arith) (omega arith) (omega arith)

abbrev three : List ℕ
three = 0 ∷ 0 ∷ 0 ∷ 2 ∷ 0 ∷ 0 ∷ 0 ∷ 8 ∷ 0 ∷ 0 ∷ 1 ∷ 0 ∷ []

get_vector-At_example :
    get_vector uint 0 [] (of_buffer three 12)
    ≡ some (8 ∷ 256 ∷ [], skip (length (vector_bytes uint (8 ∷ 256 ∷ []))) (of_buffer three 12))
unfolding uint of_buffer vector_bytes items_bytes
get_vector-At_example =
    get_vector-At uint (8 ∷ 256 ∷ []) [] 0 (of_buffer three 12) [] [] (omega arith) (omega arith)
      (omega arith) (record { holds = refl; place = refl; sized = refl; fine = refl })
