-- ===== src/Handle/Counted.antt =====
-- The references that handles hold: a `hinfo` lives as long as a handle has its address.
use y_f_s.Base.{
  ℕ, ◌+◌, ◌-◌, ◌<◌, ◌≡◌, refl, ap, ◌∙◌, sym, inl, inr, true, false, ◌&&◌, Option, none, some, List,
  [], ◌∷◌, ◌==◌, if◌then◌else◌, lookup, insert, erase, lookup-insert, lookup-erase,
  lookup-insert_self, erase-insert, Bool-cases, Option-cases, arith,
}
use y_f_s.Handle.{Info, Manager, store, delete_at, delete_handle, done_at, done_handle}

-- How many handles have the address.
abbrev pub holds : ℕ → List ℕ → ℕ
holds a [] = 0
holds a (b ∷ hs) = (if b == a then 1 else 0) + holds a hs

-- One handle goes.
abbrev pub without : ℕ → List ℕ → List ℕ
without a [] = []
without a (b ∷ hs) = if b == a then hs else b ∷ without a hs

holds-without :
    (a b : ℕ) (hs : List ℕ)
    → 0 < holds a hs
    → holds b (without a hs) + (if a == b then 1 else 0) ≡ holds b hs
holds-without a b [] h = absurd (omega arith)
holds-without a b (c ∷ hs) h = ground (arith, holds-without a b hs)

-- Each entry of the table and each `hinfo` belong together; the count is that of the handles, and
-- one that is marked for deletion has a handle.
pub record Counted (hs : List ℕ) (s : Manager) : Type 0 where
  pub listed :
      (m a : ℕ) → lookup m s.hmap ≡ some a → (h : Info) × (lookup a s.heap ≡ some h) × (h.m ≡ m)
  pub owned : (a : ℕ) (h : Info) → lookup a s.heap ≡ some h → lookup h.m s.hmap ≡ some a
  pub counted : (a : ℕ) (h : Info) → lookup a s.heap ≡ some h → h.refcnt ≡ holds a hs
  pub gone : (a : ℕ) → lookup a s.heap ≡ none → holds a hs ≡ 0
  pub marked : (a : ℕ) (h : Info) → lookup a s.heap ≡ some h → h.del ≡ true → 0 < h.refcnt

-- A `hinfo` changes in place.
pub store-Counted :
    (a : ℕ) (h h' : Info) (hs hs' : List ℕ) (s : Manager)
    → lookup a s.heap ≡ some h
    → h'.m ≡ h.m
    → h'.refcnt ≡ holds a hs'
    → ((b : ℕ) → (a == b) ≡ false → holds b hs' ≡ holds b hs)
    → (h'.del ≡ true → 0 < h'.refcnt)
    → Counted hs s
    → Counted hs' (store a h' s)
store-Counted a h h' hs hs' s e m r others d v = record {
  listed = λ k b f.
      let (h0, e0, m0) = v.listed k b f in
      elim (Bool-cases (a == b)) [
        | inl same ↦
            let q : a ≡ b = ground arith in
            (h', lookup-insert a b h' s.heap ∙ rw same, ground (arith, rw q at e, e0, m, m0))
        | inr other ↦ (h0, lookup-insert a b h' s.heap ∙ rw other e0, m0)
      ];
  owned = λ b g f. elim (Bool-cases (a == b)) [
    | inl same ↦
        let q : a ≡ b = ground arith in
        let g' : h' ≡ g = ground (arith, lookup-insert a b h' s.heap, f) in
        rw (← q, ← g', m) (v.owned a h e)
    | inr other ↦ v.owned b g (sym (lookup-insert a b h' s.heap ∙ rw other) ∙ f)
  ];
  counted = λ b g f. elim (Bool-cases (a == b)) [
    | inl same ↦
        let q : a ≡ b = ground arith in
        let g' : h' ≡ g = ground (arith, lookup-insert a b h' s.heap, f) in rw (← q, ← g') r
    | inr other ↦
        v.counted b g (sym (lookup-insert a b h' s.heap ∙ rw other) ∙ f) ∙ sym (others b other)
  ];
  gone = λ b f. elim (Bool-cases (a == b)) [
    | inl same ↦ absurd (ground (arith, lookup-insert a b h' s.heap, f))
    | inr other ↦ others b other ∙ v.gone b (sym (lookup-insert a b h' s.heap ∙ rw other) ∙ f)
  ];
  marked = λ b g f t. elim (Bool-cases (a == b)) [
    | inl same ↦
        let g' : h' ≡ g = ground (arith, lookup-insert a b h' s.heap, f) in
        rw (← g') (d (ap (λ (i : Info). i.del) g' ∙ t))
    | inr other ↦ v.marked b g (sym (lookup-insert a b h' s.heap ∙ rw other) ∙ f) t
  ];
}

-- A `hinfo` that no handle has goes.
erase-Counted :
    (a m : ℕ) (h : Info) (hs : List ℕ) (s : Manager)
    → lookup a s.heap ≡ some h
    → h.m ≡ m
    → h.refcnt ≡ 0
    → Counted hs s
    → Counted hs (record { hmap = erase m s.hmap; heap = erase a s.heap })
erase-Counted a m h hs s e n z v = record {
  listed = λ k b f. elim (Bool-cases (m == k)) [
    | inl same ↦ absurd (ground (arith, lookup-erase m k s.hmap, f))
    | inr other ↦
        let f0 : lookup k s.hmap ≡ some b = sym (lookup-erase m k s.hmap ∙ rw other) ∙ f in
        let (h0, e0, m0) = v.listed k b f0 in
        let o : (a == b) ≡ false = elim (Bool-cases (a == b)) [
          | inl bad ↦ let q : a ≡ b = ground arith in absurd (ground (arith, rw q at e, e0, n, m0))
          | inr fine ↦ fine
        ] in
        (h0, lookup-erase a b s.heap ∙ rw o e0, m0)
  ];
  owned = λ b g f. elim (Bool-cases (a == b)) [
    | inl same ↦ absurd (ground (arith, lookup-erase a b s.heap, f))
    | inr other ↦
        let f0 : lookup b s.heap ≡ some g = sym (lookup-erase a b s.heap ∙ rw other) ∙ f in
        let o : (m == g.m) ≡ false = elim (Bool-cases (m == g.m)) [
          | inl bad ↦
              let q : h.m ≡ g.m = ground (arith, n, bad) in
              absurd (ground (arith, ap (λ k. lookup k s.hmap) q, v.owned a h e, v.owned b g f0))
          | inr fine ↦ fine
        ] in
        lookup-erase m g.m s.hmap ∙ rw o (v.owned b g f0)
  ];
  counted = λ b g f. elim (Bool-cases (a == b)) [
    | inl same ↦ absurd (ground (arith, lookup-erase a b s.heap, f))
    | inr other ↦ v.counted b g (sym (lookup-erase a b s.heap ∙ rw other) ∙ f)
  ];
  gone = λ b f. elim (Bool-cases (a == b)) [
    | inl same ↦ let q : a ≡ b = ground arith in rw (← q) (sym (v.counted a h e) ∙ z)
    | inr other ↦ v.gone b (sym (lookup-erase a b s.heap ∙ rw other) ∙ f)
  ];
  marked = λ b g f t. elim (Bool-cases (a == b)) [
    | inl same ↦ absurd (ground (arith, lookup-erase a b s.heap, f))
    | inr other ↦ v.marked b g (sym (lookup-erase a b s.heap ∙ rw other) ∙ f) t
  ];
}

-- What the handles have after a step: the count of each `hinfo` is right, and no `hinfo` that is gone
-- was read.
abbrev pub Steps : List ℕ → Option (Option ℕ × Manager) → Type 0
Steps hs none = ⊥
Steps hs (some (p, s)) = Counted hs s

pub delete-Steps : (m : ℕ) (hs : List ℕ) (s : Manager) → Counted hs s → Steps hs (delete_handle m s)
unfolding delete_handle delete_at
delete-Steps m hs s v = elim (Option-cases (lookup m s.hmap)) [
  | inl absent ↦ rw (Steps, absent) v
  | inr (a, e) ↦
      let (h, found, n) = v.listed m a e in
      rw (Steps, e, found)
        (elim (Bool-cases (h.refcnt == 0)) [
          | inl unused ↦ rw unused (erase-Counted a m h hs s found n (ground arith) v)
          | inr used ↦ rw used (
              store-Counted a h (record h { del = true }) hs hs s found refl (v.counted a h found)
                (λ b o. refl) (λ t. ground arith) v)
        ])
]

-- A handle that goes has one reference less; the last one of a marked `hinfo` takes it along.
pub done-Steps :
    (a : ℕ) (hs : List ℕ) (s : Manager)
    → 0 < holds a hs
    → Counted hs s
    → Steps (without a hs) (done_handle a s)
unfolding done_handle done_at delete_handle delete_at
done-Steps a hs s p v = elim (Option-cases (lookup a s.heap)) [
  | inl absent ↦ absurd (ground (arith, v.gone a absent))
  | inr (h, e) ↦
      let less : holds a (without a hs) + 1 ≡ holds a hs = ground (arith, holds-without a a hs p) in
      let r : h.refcnt - 1 ≡ holds a (without a hs) = omega (arith, v.counted a h e, less) in
      rw e (elim (Bool-cases ((h.refcnt - 1 == 0) && h.del)) [
        | inr kept ↦
            (rw (Steps, kept)
              (store-Counted a h (record h { refcnt = h.refcnt - 1 }) hs (without a hs) s e refl r
                (λ b o. ground (arith, holds-without a b hs p)) (λ t. ground arith) v))
        | inl last ↦
            let h0 : Info = record h { refcnt = h.refcnt - 1; del = false } in
            let t : Counted (without a hs)
                (record { hmap = erase h.m s.hmap; heap = erase a (insert a h0 s.heap) }) =
              erase-Counted a h.m h0 (without a hs) (store a h0 s) (lookup-insert_self a h0 s.heap)
                refl (ground arith)
                (store-Counted a h h0 hs (without a hs) s e refl r
                  (λ b o. ground (arith, holds-without a b hs p)) (λ t. ground arith) v) in
            let z : (h.refcnt - 1 == 0) ≡ true = ground arith in
            rw
              (
                Steps,
                last,
                v.owned a h e,
                lookup-insert_self a (record h { refcnt = h.refcnt - 1 }) s.heap,
                z,
              )
              (rw erase-insert (rw erase-insert at t))
      ])
]
