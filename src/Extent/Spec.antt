-- ===== src/Extent/Spec.antt =====
-- A specification of extent_server.cc without a table: each id holds a sequence of bytes, or nothing.
use Prim.Native.Nat.{max, min}
use y_f_s.Base.{
  ℕ, ◌+◌, ◌-◌, ◌≤◌, Option, none, some, List, [], ◌∷◌, length, get_or, ltb, if◌then◌else◌, ◌==◌,
  lookup,
}
use y_f_s.Extent.{Status, ok, noent, ioerr, Store, Server, key}
use y_f_s.Extent.History.{
  Call, call_put, call_get, call_getattr, call_remove, call_resize, call_putbuf, call_getbuf,
}

-- Contents: how many bytes, and which one at each place, with zero behind the end.
abbrev pub Contents : Type 0
Contents = ℕ × (ℕ → ℕ)

abbrev pub contents : List ℕ → Contents
contents buf = (length buf, λ i. get_or buf i 0)

-- The contents of every id.
abbrev pub Extents : Type 0
Extents = ℕ → Option Contents

abbrev pub store_contents : Option Store → Option Contents
store_contents none = none
store_contents (some e) = some (contents e.buf)

abbrev pub extents : Server → Extents
extents s k = store_contents (lookup k s)

abbrev pub put_at : ℕ → Option Contents → Extents → Extents
put_at k c m j = if k == j then c else m j

abbrev pub resized_spec : ℕ → Contents → Contents
resized_spec n (len, b) = (n, λ i. if ltb i n then b i else 0)

abbrev pub write_spec : ℕ → Contents → Contents → Contents
write_spec off (n, w) (len, b) = (
  max len (off + n),
  λ i. if ltb i off then b i else if ltb i (off + n) then w (i - off) else b i,
)

abbrev pub read_spec : ℕ → ℕ → Contents → Contents
read_spec n off (len, b) = let m = min n (len - off) in (m, λ i. if ltb i m then b (off + i) else 0)

abbrev pub nothing : Contents
nothing = (0, λ i. 0)

-- The status, the bytes and the new contents that a call has by its specification.
abbrev pub on_found :
    ℕ → (Contents → (Status × Contents) × Option Contents) → Extents → (Status × Contents) × Extents
on_found k f m = elim (m k) [
  | none ↦ ((noent, nothing), m)
  | some c ↦ ((f c).0, put_at k (f c).1 m)
]

abbrev pub spec : Call → Extents → (Status × Contents) × Extents
spec (call_put id buf) m = ((ok, nothing), put_at (key id) (some (contents buf)) m)
spec (call_get id) m = on_found (key id) (λ c. ((ok, c), some c)) m
spec (call_getattr id) m = on_found (key id) (λ c. ((ok, nothing), some c)) m
spec (call_remove id) m = on_found (key id) (λ c. ((ok, nothing), none)) m
spec (call_resize id n) m = on_found (key id) (λ c. ((ok, nothing), some (resized_spec n c))) m
spec (call_putbuf id off buf) m =
    on_found (key id) (λ c. ((ok, nothing), some (write_spec off (contents buf) c))) m
spec (call_getbuf id n off) m =
    on_found (key id)
      (λ c. (if ltb off c.0 then (ok, read_spec n off c) else (ioerr, nothing), some c)) m

-- The call asks for no longer extent than a `std::string` may be.
abbrev pub Fits : ℕ → Call → Type 0
Fits max_size (call_resize id n) = n ≤ max_size
Fits max_size (call_putbuf id off buf) = off + length buf ≤ max_size
Fits max_size _ = Unit

-- A history's answers by the specification, and the contents after it.
unfoldable pub spec_run : List (ℕ × Call) → Extents → List (Status × Contents) × Extents
spec_run [] m = ([], m)
spec_run ((now, c) ∷ cs) m =
    let r = spec c m in let rest = spec_run cs r.1 in (r.0 ∷ rest.0, rest.1)

abbrev pub AllFit : ℕ → List (ℕ × Call) → Type 0
AllFit m [] = Unit
AllFit m ((now, c) ∷ cs) = Fits m c × AllFit m cs
