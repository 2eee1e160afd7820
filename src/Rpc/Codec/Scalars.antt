-- ===== src/Rpc/Codec/Scalars.antt =====
-- The operators of rpc/rpc.cc for numbers and strings, as instances of the interface.
use y_f_s.Base.{ℕ, ◌^◌, ◌<◌, ap, Bool, some, List, [], ◌∷◌}
use y_f_s.Rpc.Marshall.{put_bool, put_uchar, put_ushort, put_uint, put_ulonglong, put_string}
use y_f_s.Rpc.Marshall.Writing.{
  be16, be32, be64, bool_byte, string_bytes, Writes-bool, Writes-uchar, Writes-ushort, Writes-uint,
  Writes-ulonglong, Writes-string,
}
use y_f_s.Rpc.Unmarshall.{get_bool, get_uchar, get_ushort, get_uint, get_ulonglong, get_string}
use y_f_s.Rpc.Unmarshall.Reading.{
  get_bool-At, get_uchar-At, get_ushort-At, get_uint-At, get_ulonglong-At, get_string-At,
}
use y_f_s.Rpc.Codec.{Codec}

-- `unsigned int`, and `int` by its bit pattern.
unfoldable pub uint : Codec ℕ
uint = record {
  put = put_uint;
  get = λ old u. some (get_uint u);
  Fits = λ x. x < 2 ^ 32;
  encode = be32;
  put-IsBuffer = λ x m v. (Writes-uint x m v).0;
  written-put = λ x m v. (Writes-uint x m v).1;
  get-At = λ x old u pre post h s a. ap some (get_uint-At u pre x post h a);
}

pub ulonglong : Codec ℕ
ulonglong = record {
  put = put_ulonglong;
  get = λ old u. some (get_ulonglong u);
  Fits = λ x. x < 2 ^ 64;
  encode = be64;
  put-IsBuffer = λ x m v. (Writes-ulonglong x m v).0;
  written-put = λ x m v. (Writes-ulonglong x m v).1;
  get-At = λ x old u pre post h s a. ap some (get_ulonglong-At u pre x post h a);
}

-- `std::string`
pub string : Codec (List ℕ)
string = record {
  put = put_string;
  get = get_string;
  Fits = λ s. Unit;
  encode = string_bytes;
  put-IsBuffer = λ s m v. (Writes-string s m v).0;
  written-put = λ s m v. (Writes-string s m v).1;
  get-At = λ s old u pre post h b a. get_string-At u pre s post old b a;
}

-- `unsigned short`, and `short` by its bit pattern.
pub ushort : Codec ℕ
ushort = record {
  put = put_ushort;
  get = λ old u. some (get_ushort u);
  Fits = λ x. x < 2 ^ 16;
  encode = be16;
  put-IsBuffer = λ x m v. (Writes-ushort x m v).0;
  written-put = λ x m v. (Writes-ushort x m v).1;
  get-At = λ x old u pre post h s a. ap some (get_ushort-At u pre x post h a);
}

-- `unsigned char`, and `char` by its bit pattern.
pub uchar : Codec ℕ
uchar = record {
  put = put_uchar;
  get = λ old u. some (get_uchar u);
  Fits = λ x. x < 256;
  encode = λ x. x ∷ [];
  put-IsBuffer = λ x m v. (Writes-uchar x m v).0;
  written-put = λ x m v. (Writes-uchar x m v).1;
  get-At = λ x old u pre post h s a. ap some (get_uchar-At u pre x post h a);
}

pub bool : Codec Bool
bool = record {
  put = put_bool;
  get = λ old u. some (get_bool u);
  Fits = λ x. Unit;
  encode = λ x. bool_byte x ∷ [];
  put-IsBuffer = λ x m v. (Writes-bool x m v).0;
  written-put = λ x m v. (Writes-bool x m v).1;
  get-At = λ x old u pre post h s a. ap some (get_bool-At u pre x post a);
}
