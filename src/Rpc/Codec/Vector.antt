-- ===== src/Rpc/Codec/Vector.antt =====
-- rpc/marshall.h: the templates of `<<` and `>>` for `std::vector`.
use y_f_s.Base.{
  ℕ, zero, suc, ◌%◌, ◌^◌, ◌<◌, ◌≡◌, sym, ◌∙◌, Option, none, some, List, [], ◌∷◌, ◌++◌, append-nil,
  append_assoc, All, length, length-append, arith,
}
use native.Mathlib.Nat.{add-zero, add_assoc}
use y_f_s.Rpc.Marshall.{Marshall, put_uint}
use y_f_s.Rpc.Marshall.Buffer.{IsBuffer, written}
use y_f_s.Rpc.Marshall.Writing.{be32, Writes-uint}
use y_f_s.Rpc.Unmarshall.{Unmarshall, get_uint}
use y_f_s.Rpc.Unmarshall.Reading.{At, skip, skip-At, get_uint-At}
use y_f_s.Rpc.Codec.{Codec}

module _ {A : Type 0} (c : Codec A) where
  -- `for(unsigned i = 0; i < v.size(); i++) m << v[i];`
  pub put_items : List A → Marshall → Marshall
  put_items [] m = m
  put_items (x ∷ xs) m = put_items xs (c.put x m)

  pub put_vector : List A → Marshall → Marshall
  put_vector v m = put_items v (put_uint (length v % 2 ^ 32) m)

  -- `for(unsigned i = 0; i < n; i++){ C z; u >> z; v.push_back(z); }`; `z` starts as `blank`.
  pub get_items : ℕ → A → List A → Unmarshall → Option (List A × Unmarshall)
  get_items zero blank v u = some (v, u)
  get_items (suc n) blank v u = elim (c.get blank u) [
    | none ↦ none
    | some (z, u') ↦ get_items n blank (v ++ z ∷ []) u'
  ]

  -- The items are added to what the vector holds.
  pub get_vector : A → List A → Unmarshall → Option (List A × Unmarshall)
  get_vector blank v u = let (n, u') = get_uint u in get_items n blank v u'

  unfoldable pub items_bytes : List A → List ℕ
  items_bytes [] = []
  items_bytes (x ∷ xs) = c.encode x ++ items_bytes xs

  unfoldable pub vector_bytes : List A → List ℕ
  vector_bytes v = be32 (length v % 2 ^ 32) ++ items_bytes v

  put_items-written :
      (v : List A) (m : Marshall)
      → IsBuffer m
      → IsBuffer (put_items v m) × (written (put_items v m) ≡ written m ++ items_bytes v)
  unfolding put_items items_bytes
  put_items-written [] m b = (b, sym (append-nil (written m)))
  put_items-written (x ∷ xs) m b =
      let (b', e) = put_items-written xs (c.put x m) (c.put-IsBuffer x m b) in
      (b', e ∙ rw (c.written-put x m b) (append_assoc (written m) (c.encode x) (items_bytes xs)))

  -- A vector is written behind what the buffer holds, its size first.
  pub put_vector-written :
      (v : List A) (m : Marshall)
      → IsBuffer m
      → IsBuffer (put_vector v m) × (written (put_vector v m) ≡ written m ++ vector_bytes v)
  unfolding put_vector vector_bytes
  put_vector-written v m b =
      let n = length v % 2 ^ 32 in
      let (b1, e1) = Writes-uint n m b in
      let (b2, e2) = put_items-written v (put_uint n m) b1 in
      (b2, e2 ∙ rw e1 (append_assoc (written m) (be32 n) (items_bytes v)))

  get_items-At :
      (xs v : List A) (blank : A) (u : Unmarshall) (pre post : List ℕ)
      → All c.Fits xs
      → u.sz < 2 ^ 31
      → At u pre (items_bytes xs ++ post)
      → get_items (length xs) blank v u ≡ some (v ++ xs, skip (length (items_bytes xs)) u)
  unfolding get_items items_bytes
  get_items-At [] v blank u pre post f s a = rw (append-nil, add-zero)
  get_items-At (x ∷ xs) v blank u pre post f s a =
      rw (c.get-At x blank u pre (items_bytes xs ++ post) f.0 s first, get_items)
        (get_items-At xs (v ++ x ∷ []) blank (skip (length (c.encode x)) u) (pre ++ c.encode x) post
            f.1 s (skip-At u pre (c.encode x) (items_bytes xs ++ post) first)
          ∙ rw (append_assoc v (x ∷ []) xs, length-append (c.encode x) (items_bytes xs), add_assoc))
    where
      first : At u pre (c.encode x ++ (items_bytes xs ++ post))
      first = rw (← append_assoc (c.encode x) (items_bytes xs) post) a

  -- A vector of less than 2 ^ 32 items, each a value of its C++ type, whose bytes stand at the
  -- position of a buffer below 2 GB, is read back, is appended to what the target held, and the
  -- position is then behind it.
  pub get_vector-At :
      (xs v : List A) (blank : A) (u : Unmarshall) (pre post : List ℕ)
      → All c.Fits xs
      → length xs < 2 ^ 32
      → u.sz < 2 ^ 31
      → At u pre (vector_bytes xs ++ post)
      → get_vector blank v u ≡ some (v ++ xs, skip (length (vector_bytes xs)) u)
  unfolding get_vector vector_bytes
  get_vector-At xs v blank u pre post f l s a =
      let n = length xs % 2 ^ 32 in
      let e : n ≡ length xs = omega arith in
      rw (get_uint-At u pre n (items_bytes xs ++ post) (omega arith) a, e)
        (get_items-At xs v blank (skip 4 u) (pre ++ be32 n) post f s
            (skip-At u pre (be32 n) (items_bytes xs ++ post) a)
          ∙ ground arith)
