-- ===== src/Rpc/Codec/Call.antt =====
-- rpc/rpc.h: the templates `rpcc::call` and `rpcs::reg` pass the arguments of a call through a
-- message. The arguments of any number are pairs of pairs.
use y_f_s.Base.{
  ℕ, ◌+◌, ◌^◌, ◌<◌, ◌≤◌, ◌≡◌, ap, ◌∙◌, true, Option, none, some, List, [], ◌++◌, append-nil,
  append_assoc, length, length-append, take, length-take, drop-append, arith,
}
use native.Mathlib.Nat.{add_assoc}
use y_f_s.Rpc.Marshall.{Marshall, ReqHeader, new_marshall, pack_req_header, get_content}
use y_f_s.Rpc.Marshall.Buffer.{
  IsBuffer, written, written-length, get_content-written, new_marshall-IsBuffer,
  new_marshall-written,
}
use y_f_s.Rpc.Marshall.Header.{req_bytes, request_message}
use y_f_s.Rpc.Unmarshall.{Unmarshall, of_buffer, unpack_req_header, okdone}
use y_f_s.Rpc.Unmarshall.Header.{Fits, unpack_req_header-message, of_message_body}
use y_f_s.Rpc.Unmarshall.Reading.{At, skip, skip-At, okdone-At}
use y_f_s.Rpc.Codec.{Codec}

module _ {A B : Type 0} (c : Codec A) (d : Codec B) where
  -- `m << a; m << b;` and `args >> a; args >> b;`
  pub put_both : A × B → Marshall → Marshall
  put_both (a, b) m = d.put b (c.put a m)

  pub get_both : A × B → Unmarshall → Option ((A × B) × Unmarshall)
  get_both (a0, b0) u = elim (c.get a0 u) [
    | none ↦ none
    | some (a, u1) ↦ elim (d.get b0 u1) [ none ↦ none | some (b, u2) ↦ some ((a, b), u2) ]
  ]

  both_bytes : A × B → List ℕ
  both_bytes (a, b) = c.encode a ++ d.encode b

  BothFit : A × B → Type 0
  BothFit (a, b) = c.Fits a × d.Fits b

  put_both-written :
      (p : A × B) (m : Marshall)
      → IsBuffer m
      → IsBuffer (put_both p m) × (written (put_both p m) ≡ written m ++ both_bytes p)
  unfolding put_both both_bytes
  put_both-written (a, b) m v =
      let v1 = c.put-IsBuffer a m v in
      (
        d.put-IsBuffer b _ v1,
        d.written-put b _ v1
            ∙ rw (c.written-put a m v) (append_assoc (written m) (c.encode a) (d.encode b)),
      )

  get_both-At :
      (p old : A × B) (u : Unmarshall) (pre post : List ℕ)
      → BothFit p
      → u.sz < 2 ^ 31
      → At u pre (both_bytes p ++ post)
      → get_both old u ≡ some (p, skip (length (both_bytes p)) u)
  unfolding get_both both_bytes BothFit
  get_both-At (a, b) (a0, b0) u pre post f s at0 =
      rw (c.get-At a a0 u pre (d.encode b ++ post) f.0 s first, get_both)
        (rw
          (
            d.get-At b b0 _ _ post f.1 s (skip-At u pre (c.encode a) (d.encode b ++ post) first),
            get_both,
          )
          (rw (length-append (c.encode a) (d.encode b), add_assoc)))
    where
      first : At u pre (c.encode a ++ (d.encode b ++ post))
      first = rw (← append_assoc (c.encode a) (d.encode b) post) at0

  pub both : Codec (A × B)
  both = record {
    put = put_both;
    get = get_both;
    Fits = BothFit;
    encode = both_bytes;
    put-IsBuffer = λ p m v. (put_both-written p m v).0;
    written-put = λ p m v. (put_both-written p m v).1;
    get-At = get_both-At;
  }

-- What a handler's `fn` makes of the arguments: a call of the method, `unmarshal_args_failure`, or
-- a read behind the buffer.
pub data Received (A : Type 0) : Type 0 where
  delivered : A → Received A
  args_failure : Received A
  fault : Received A

module _ {A : Type 0} (c : Codec A) where
  -- `rpcc::call` and the packing in `rpcc::call1`: the message of a request.
  pub request : (ℕ → ℕ) → ReqHeader → A → List ℕ
  request junk h a = written (pack_req_header h (c.put a (new_marshall junk)))

  -- `args >> a; if(!args.okdone()) return unmarshal_args_failure;` and the call of the method
  pub read_args : A → Unmarshall → Received A
  read_args blank u = elim (c.get blank u) [
    | none ↦ fault
    | some (a, u') ↦ elim (okdone u') [ true ↦ delivered a | _ ↦ args_failure ]
  ]

  -- `rpcs::dispatch` and `fn` of the handler: the header and the arguments of a message.
  pub receive : A → List ℕ → ReqHeader × Received A
  receive blank b =
      let (h, u) = unpack_req_header (of_buffer b (length b)) in (h, read_args blank u)

  -- The arguments lie behind the header of a new buffer.
  args_content :
      (junk : ℕ → ℕ) (a : A)
      → let m = c.put a (new_marshall junk) in
        IsBuffer m × (get_content m ≡ c.encode a) × (24 ≤ m.ind)
  args_content junk a =
      let new = new_marshall junk in
      let m = c.put a new in
      let v = new_marshall-IsBuffer junk in
      let w = c.put-IsBuffer a new v in
      let e = c.written-put a new v in
      let n = new_marshall-written junk in
      (
        w,
        get_content-written m ∙ rw (e, ← n) (drop-append (written new) (c.encode a)),
        omega (arith, written-length m w, ap length e, length-append (written new) (c.encode a), n),
      )

  pub length-request :
      (junk : ℕ → ℕ) (h : ReqHeader) (a : A) → length (request junk h a) ≡ 24 + length (c.encode a)
  unfolding request
  length-request junk h a =
      let (v, content, long) = args_content junk a in
      let m = c.put a (new_marshall junk) in
      omega (
        arith,
        ap length (request_message h m v long),
        length-append (take 4 m.buf) (req_bytes h ++ get_content m),
        length-append (req_bytes h) (get_content m),
        length-take 4 m.buf,
        ap length content,
        v.sized,
        v.within,
        long,
      )

  read_args-At :
      (a blank : A) (u : Unmarshall) (pre : List ℕ)
      → c.Fits a
      → u.sz < 2 ^ 31
      → At u pre (c.encode a)
      → read_args blank u ≡ delivered a
  unfolding read_args
  read_args-At a blank u pre f s at0 =
      let at1 : At u pre (c.encode a ++ []) = rw append-nil at0 in
      rw (c.get-At a blank u pre [] f s at1, read_args)
        (rw (okdone-At _ _ (skip-At u pre (c.encode a) [] at1), read_args))

  -- A server that gets the message of a call, below 2 GB, whose header's fields are below 2 ^ 32
  -- and whose arguments are values of their C++ types, reads this header and these arguments, and
  -- delivers them to the method.
  pub receive-request :
      (junk : ℕ → ℕ) (h : ReqHeader) (a blank : A)
      → Fits h
      → c.Fits a
      → length (request junk h a) < 2 ^ 31
      → receive blank (request junk h a) ≡ (h, delivered a)
  unfolding request receive of_buffer
  receive-request junk h a blank f g s =
      let (v, content, long) = args_content junk a in
      let m = c.put a (new_marshall junk) in
      let size = take 4 m.buf in
      let four : length size ≡ 4 = omega (arith, length-take 4 m.buf, v.sized, v.within, long) in
      let e =
        request_message h m v long ∙ ap (λ (t : List ℕ). size ++ (req_bytes h ++ t)) content in
      let b = size ++ (req_bytes h ++ c.encode a) in
      let s' : length b < 2 ^ 31 = rw e at s in
      rw (e, unpack_req_header-message h size (c.encode a) f four)
        (rw (
          read_args-At a blank _ (size ++ req_bytes h) g s'
            (of_message_body size (req_bytes h) (c.encode a) (omega (arith, four)))))
