-- ===== src/Rpc/Unmarshall/Header.antt =====
-- `unpack_req_header` and `unpack_reply_header`, on what the packing side wrote.
use y_f_s.Base.{
  ℕ, ◌+◌, ◌^◌, ◌<◌, ◌≡◌, refl, sym, List, ◌++◌, append_assoc, length, length-append, arith,
}
use y_f_s.Rpc.Marshall.{ReqHeader, ReplyHeader, rpc_sz, rpc_header_sz}
use y_f_s.Rpc.Marshall.Writing.{be32}
use y_f_s.Rpc.Marshall.Header.{req_bytes, reply_bytes}
use y_f_s.Rpc.Unmarshall.{Unmarshall, unpack, unpack_req_header, unpack_reply_header, of_buffer}
use y_f_s.Rpc.Unmarshall.Reading.{At, skip, skip-At, unpack-At}

-- The fields of a header are `int`s.
pub record Fits (h : ReqHeader) : Type 0 where
  pub xid : h.xid < 2 ^ 32
  pub proc : h.proc < 2 ^ 32
  pub clt_nonce : h.clt_nonce < 2 ^ 32
  pub srv_nonce : h.srv_nonce < 2 ^ 32
  pub xid_rep : h.xid_rep < 2 ^ 32

-- A new reader of a message, past the bytes of its size.
of_message :
    (size rest : List ℕ)
    → length size ≡ 4
    → At (record (of_buffer (size ++ rest) (length (size ++ rest))) { ind = rpc_sz }) size rest
unfolding of_buffer
of_message size rest h = record {
  holds = refl;
  place = sym h;
  sized = length-append size rest;
  fine = refl;
}

-- One word, and where the reader stands then.
word :
    (u : Unmarshall) (pre : List ℕ) (x : ℕ) (post : List ℕ)
    → x < 2 ^ 32
    → At u pre (be32 x ++ post)
    → (unpack u ≡ (x, skip 4 u)) × At (skip 4 u) (pre ++ be32 x) post
word u pre x post h a = (unpack-At u pre x post h a, skip-At u pre (be32 x) post a)

-- A server that reads the header of a message of four bytes, a packed request header whose fields
-- are below 2 ^ 32, and any body, gets that header, and stands at the body without a failure.
pub unpack_req_header-message :
    (h : ReqHeader) (size body : List ℕ)
    → Fits h
    → length size ≡ 4
    → let b = size ++ (req_bytes h ++ body) in
      unpack_req_header (of_buffer b (length b))
      ≡ (h, record (of_buffer b (length b)) { ind = rpc_header_sz })
unfolding unpack_req_header
unpack_req_header-message h size body f s =
    let a0 = of_message size (req_bytes h ++ body) s in
    let (e1, a1) = word _ size h.xid _ f.xid a0 in
    let (e2, a2) = word _ _ h.proc _ f.proc a1 in
    let (e3, a3) = word _ _ h.clt_nonce _ f.clt_nonce a2 in
    let (e4, a4) = word _ _ h.srv_nonce _ f.srv_nonce a3 in
    let (e5, a5) = word _ _ h.xid_rep body f.xid_rep a4 in rw (e1, e2, e3, e4, e5)

-- A client that reads the header of a message of four bytes, a packed reply header whose fields
-- are below 2 ^ 32, and any body, gets that header, and stands at the body without a failure.
pub unpack_reply_header-message :
    (h : ReplyHeader) (size body : List ℕ)
    → h.xid < 2 ^ 32
    → h.ret < 2 ^ 32
    → length size ≡ 4
    → let b = size ++ (reply_bytes h ++ body) in
      unpack_reply_header (of_buffer b (length b))
      ≡ (h, record (of_buffer b (length b)) { ind = rpc_header_sz })
unfolding unpack_reply_header
unpack_reply_header-message h size body f g s =
    let a0 = of_message size (reply_bytes h ++ body) s in
    let (e1, a1) = word _ size h.xid _ f a0 in
    let (e2, a2) = word _ _ h.ret body g a1 in rw (e1, e2)

-- Behind the header a reader has the body before it.
pub of_message_body :
    (size header body : List ℕ)
    → length size + length header ≡ rpc_header_sz
    → let b = size ++ (header ++ body) in
      At (record (of_buffer b (length b)) { ind = rpc_header_sz }) (size ++ header) body
unfolding of_buffer
of_message_body size header body h = record {
  holds = sym (append_assoc size header body);
  place = omega (arith, length-append size header);
  sized = omega (
    arith,
    length-append size header,
    length-append header body,
    length-append size (header ++ body),
  );
  fine = refl;
}
