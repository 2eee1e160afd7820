-- ===== src/Rpc/XidWindow/Compress.antt =====
-- The loop at the label `compress` of `rpcc::update_xid_rep`.
use y_f_s.Base.{
  ℕ, suc, ◌+◌, ◌^◌, ◌<◌, ◌≤◌, ◌≡◌, refl, ◌∙◌, ◌≢◌, ◌⊎◌, inl, inr, true, false, ◌||◌, List, [], ◌∷◌,
  ◌++◌, append-nil, append_assoc, All, elem, elem-append, ◌==◌, arith,
}
use y_f_s.Rpc.XidWindow.{
  new_window, pop_while, compress_from, compress, insert_xid, update_xid_rep, has, From, Small,
  IsWindow,
}

-- The elements before a point of an ascending list are at most the one there.
pub From-le :
    (lo x : ℕ) (pre rest : List ℕ) → From lo (pre ++ x ∷ rest) → All (λ y. y ≤ x) pre × (lo ≤ x)
From-le lo x [] rest s = (tt, s.0)
From-le lo x (p ∷ ps) rest s = let (le, lt) = From-le p x ps rest s.1 in ((lt, le), omega arith)

From-suffix :
    (lo : ℕ) (pre : List ℕ) (x : ℕ) (rest : List ℕ) → From lo (pre ++ x ∷ rest) → From lo (x ∷ rest)
From-suffix lo [] x rest s = s
From-suffix lo (p ∷ ps) x rest s = let t = From-suffix p ps x rest s.1 in (omega arith, t.1)

From-prefix : (lo : ℕ) (pre rest : List ℕ) → From lo (pre ++ rest) → From lo pre
From-prefix lo [] rest s = tt
From-prefix lo (p ∷ ps) rest s = (s.0, From-prefix p ps rest s.1)

Small-suffix : (pre : List ℕ) (x : ℕ) (rest : List ℕ) → Small (pre ++ x ∷ rest) → Small (x ∷ rest)
Small-suffix [] x rest s = s
Small-suffix (p ∷ ps) x rest s = Small-suffix ps x rest s.1

elem-le : (r x : ℕ) (ys : List ℕ) → All (λ y. y ≤ x) ys → elem r ys ≡ true → r ≤ x
elem-le r x [] h e = cc
elem-le r x (y ∷ ys) h e = ground (arith, elem-le r x ys h.1)

-- Where the front's successor is `x`, only copies of the front can stand before `x`.
pop_every :
    (p x : ℕ) (ys : List ℕ)
    → suc p ≡ x
    → x < 2 ^ 32
    → From p ys
    → All (λ y. y ≤ x) ys
    → elem x ys ≡ false
    → pop_while x ys ≡ []
unfolding pop_while
pop_every p x [] e b s h n = refl
pop_every p x (y ∷ ys) e b s h n = ground (arith, pop_every y x ys)

-- Before `x` the loop keeps all elements or, where the front's successor is `x`, drops them all.
pop_while-cases :
    (x p : ℕ) (ps : List ℕ)
    → x < 2 ^ 32
    → From p ps
    → All (λ y. y ≤ x) (p ∷ ps)
    → elem (p + 1) ps ≡ false
    → ((p + 1 ≢ x) × (pop_while x (p ∷ ps) ≡ p ∷ ps)) ⊎ ((p + 1 ≡ x) × (pop_while x (p ∷ ps) ≡ []))
unfolding pop_while
pop_while-cases x p ps b s h n = ground (arith, pop_every p x ps)

-- What the loop ends with, for the elements `w` that it started with.
pub record Compressed (w w' : List ℕ) : Type 0 where
  pub window : IsWindow w'
  pub same : (r : ℕ) → has r w' ≡ has r w

elem-append_one : (r x : ℕ) (ps : List ℕ) → elem r (ps ++ x ∷ []) ≡ (elem r ps || (x == r))
elem-append_one r x ps = ground (arith, elem-append r ps (x ∷ []))

has_dropped :
    (r p x : ℕ) (ps rest : List ℕ)
    → p + 1 ≡ x
    → All (λ y. y ≤ x) ps
    → has r (x ∷ rest) ≡ has r (p ∷ ps ++ x ∷ rest)
has_dropped r p x ps rest e h = ground (arith, elem-append r ps (x ∷ rest), elem-le r x ps h)

pub compress_from-Compressed :
    (p : ℕ) (ps rest : List ℕ)
    → From 0 (p ∷ ps ++ rest)
    → Small (p ∷ ps ++ rest)
    → elem (p + 1) ps ≡ false
    → Compressed (p ∷ ps ++ rest) (compress_from (p ∷ ps) rest)
unfolding compress_from
compress_from-Compressed p ps [] s b n = rw append-nil (record {
  window = record {
    inhabited = λ e. cc;
    sorted = rw append-nil at s;
    small = rw append-nil at b;
    tight = ground (arith, n);
  };
  same = λ r. refl;
})
compress_from-Compressed p ps (x ∷ rest) s b n = elim (pop_while-cases x p ps small from le n) [
  | inl (ne, e) ↦
      rw (e, ← append_assoc ps (x ∷ []) rest)
        (compress_from-Compressed p (ps ++ x ∷ []) rest (rw append_assoc s) (rw append_assoc b)
          (ground (arith, elem-append_one (p + 1) x ps)))
  | inr (eq, e) ↦ rw e (
      let rest_good =
        compress_from-Compressed x [] rest (From-suffix 0 (p ∷ ps) x rest s)
          (Small-suffix (p ∷ ps) x rest b) refl in
      record {
        window = rest_good.window;
        same = λ r. rest_good.same r ∙ has_dropped r p x ps rest eq le.1;
      })
]
  where
    small : x < 2 ^ 32
    small = (Small-suffix (p ∷ ps) x rest b).0

    from : From p ps
    from = From-prefix p ps (x ∷ rest) s.1

    le : All (λ y. y ≤ x) (p ∷ ps)
    le = (From-le 0 x (p ∷ ps) rest s).0

-- The first reply that a client gets is that of its first request.
pub update_xid_rep-first : update_xid_rep 1 new_window ≡ 1 ∷ []
unfolding update_xid_rep insert_xid compress compress_from pop_while
update_xid_rep-first = refl
