-- ===== src/Handle/Uses.antt =====
-- What users of handles do, in any order, and that none of it reads a `hinfo` that is gone.
use y_f_s.Base.{
  ℕ, ◌+◌, ◌<◌, ◌≡◌, refl, ◌∙◌, sym, inl, inr, true, false, Option, none, some, List, [], ◌∷◌, ◌==◌,
  lookup, insert, lookup-insert, lookup-empty, lookup-insert_self, Bool-cases, Option-cases, arith,
}
use y_f_s.Handle.{
  Info, Manager, new_manager, reuse, get_handle, delete_handle, done_handle, bind_at, safebind_at,
  safebind,
}
use y_f_s.Handle.Counted.{holds, without, Counted, Steps, store-Counted, delete-Steps, done-Steps}

-- A handle to a destination is made, where `new` would return an address; a handle is destroyed, or
-- used to bind; a destination is deleted.
pub data Event : Type 0 where
  make : ℕ → ℕ → Event
  close : ℕ → Event
  bind : ℕ → Option ℕ → Event
  delete : ℕ → Event

-- The handles that are not null, by the address that they have.
abbrev pub with_new : Option ℕ → List ℕ → List ℕ
with_new none hs = hs
with_new (some a) hs = a ∷ hs

abbrev pub opened : List ℕ → Option (Option ℕ × Manager) → Option (List ℕ × Manager)
opened hs none = none
opened hs (some (p, s)) = some (with_new p hs, s)

abbrev pub kept : List ℕ → Option (Option ℕ × Manager) → Option (List ℕ × Manager)
kept hs none = none
kept hs (some (p, s)) = some (hs, s)

unfoldable pub step : Event → List ℕ → Manager → Option (List ℕ × Manager)
step (make fresh m) hs s = opened hs (get_handle fresh m s)
step (close a) hs s = kept (without a hs) (done_handle a s)
step (bind a bound) hs s = kept hs (safebind a bound s)
step (delete m) hs s = kept hs (delete_handle m s)

abbrev pub after :
    Option (List ℕ × Manager)
    → (List ℕ → Manager → Option (List ℕ × Manager))
    → Option (List ℕ × Manager)
after none f = none
after (some (hs, s)) f = f hs s

unfoldable pub run : List Event → List ℕ → Manager → Option (List ℕ × Manager)
run [] hs s = some (hs, s)
run (e ∷ es) hs s = after (step e hs s) (run es)

-- `new` returns an address that nothing has, and only handles that are not null and not destroyed
-- are used.
abbrev pub Proper : Event → List ℕ → Manager → Type 0
Proper (make fresh m) hs s = lookup fresh s.heap ≡ none
Proper (close a) hs s = 0 < holds a hs
Proper (bind a bound) hs s = 0 < holds a hs
Proper (delete m) hs s = Unit

abbrev pub ProperAfter : Option (List ℕ × Manager) → (List ℕ → Manager → Type 0) → Type 0
ProperAfter none F = Unit
ProperAfter (some (hs, s)) F = F hs s

abbrev pub AllProper : List Event → List ℕ → Manager → Type 0
AllProper [] hs s = Unit
AllProper (e ∷ es) hs s = Proper e hs s × ProperAfter (step e hs s) (AllProper es)

abbrev pub Ends : Option (List ℕ × Manager) → Type 0
Ends none = ⊥
Ends (some (hs, s)) = Counted hs s

kept-Ends : (hs : List ℕ) (r : Option (Option ℕ × Manager)) → Steps hs r → Ends (kept hs r)
kept-Ends hs none h = h
kept-Ends hs (some (p, s)) h = h

bind-Steps :
    (a : ℕ) (bound : Option ℕ) (hs : List ℕ) (s : Manager)
    → 0 < holds a hs
    → Counted hs s
    → Steps hs (safebind a bound s)
unfolding safebind safebind_at bind_at
bind-Steps a bound hs s p v = elim (Option-cases (lookup a s.heap)) [
  | inl absent ↦ absurd (ground (arith, v.gone a absent))
  | inr (h, e) ↦ rw e (elim (Bool-cases h.del) [
    | inl deleted ↦ rw (Steps, deleted) v
    | inr live ↦ elim (Option-cases h.cl) [
      | inr (c, known) ↦ rw (Steps, live, known) v
      | inl unknown ↦
          rw (Steps, live, unknown)
            (elim (Option-cases bound) [
              | inl failed ↦ rw failed (
                  store-Counted a h (record h { del = true }) hs hs s e refl (v.counted a h e)
                    (λ b o. refl) (λ t. omega (arith, v.counted a h e)) v)
              | inr (c, works) ↦ rw works (
                  store-Counted a h (record h { cl = some c }) hs hs s e refl (v.counted a h e)
                    (λ b o. refl) (v.marked a h e) v)
            ])
    ]
  ])
]

abbrev fresh_info : ℕ → Info
fresh_info m = record { cl = none; refcnt = 1; del = false; m = m }

apart :
    (fresh b : ℕ) (h : Info) (s : Manager)
    → lookup fresh s.heap ≡ none
    → lookup b s.heap ≡ some h
    → (fresh == b) ≡ false
apart fresh b h s e f = elim (Bool-cases (fresh == b)) [
  | inr o ↦ o
  | inl same ↦ let q : fresh ≡ b = ground arith in absurd (ground (arith, rw q at e, f))
]

new-Counted :
    (fresh m : ℕ) (hs : List ℕ) (s : Manager)
    → lookup fresh s.heap ≡ none
    → lookup m s.hmap ≡ none
    → Counted hs s
    → Counted
        (fresh ∷ hs)
        (record { hmap = insert m fresh s.hmap; heap = insert fresh (fresh_info m) s.heap })
new-Counted fresh m hs s e f v = record {
  listed = λ k b g. elim (Bool-cases (m == k)) [
    | inl same ↦
        let q : m ≡ k = ground arith in
        let b' : fresh ≡ b = ground (arith, lookup-insert m k fresh s.hmap, g) in
        (fresh_info m, rw (← b') (lookup-insert_self fresh (fresh_info m) s.heap), q)
    | inr other ↦
        let g0 : lookup k s.hmap ≡ some b = sym (lookup-insert m k fresh s.hmap ∙ rw other) ∙ g in
        let (h, e0, n) = v.listed k b g0 in
        let o : (fresh == b) ≡ false = apart fresh b h s e e0 in
        (h, lookup-insert fresh b (fresh_info m) s.heap ∙ rw o e0, n)
  ];
  owned = λ b h g. elim (Bool-cases (fresh == b)) [
    | inl same ↦
        let q : fresh ≡ b = ground arith in
        let h' : fresh_info m ≡ h =
          ground (arith, lookup-insert fresh b (fresh_info m) s.heap, g) in
        rw (← h', ← q) (lookup-insert_self m fresh s.hmap)
    | inr other ↦
        let g0 : lookup b s.heap ≡ some h =
          sym (lookup-insert fresh b (fresh_info m) s.heap ∙ rw other) ∙ g in
        let o : (m == h.m) ≡ false = ground (arith, v.owned b h g0, f) in
        lookup-insert m h.m fresh s.hmap ∙ rw o (v.owned b h g0)
  ];
  counted = λ b h g. elim (Bool-cases (fresh == b)) [
    | inl same ↦
        let h' : fresh_info m ≡ h =
          ground (arith, lookup-insert fresh b (fresh_info m) s.heap, g) in
        let q : fresh ≡ b = ground arith in rw (← h', ← q) (ground (arith, v.gone fresh e))
    | inr other ↦
        v.counted b h (sym (lookup-insert fresh b (fresh_info m) s.heap ∙ rw other) ∙ g)
        ∙ ground (arith, other)
  ];
  gone = λ b g. elim (Bool-cases (fresh == b)) [
    | inl same ↦ absurd (ground (arith, lookup-insert fresh b (fresh_info m) s.heap, g))
    | inr other ↦
        let z : holds b hs ≡ 0 =
          v.gone b (sym (lookup-insert fresh b (fresh_info m) s.heap ∙ rw other) ∙ g) in
        ground (arith, other, z)
  ];
  marked = λ b h g t. elim (Bool-cases (fresh == b)) [
    | inl same ↦
        let h' : fresh_info m ≡ h =
          ground (arith, lookup-insert fresh b (fresh_info m) s.heap, g) in
        rw (← h') (omega arith)
    | inr other ↦ v.marked b h (sym (lookup-insert fresh b (fresh_info m) s.heap ∙ rw other) ∙ g) t
  ];
}

make-Ends :
    (fresh m : ℕ) (hs : List ℕ) (s : Manager)
    → lookup fresh s.heap ≡ none
    → Counted hs s
    → Ends (opened hs (get_handle fresh m s))
unfolding get_handle reuse
make-Ends fresh m hs s e v = elim (Option-cases (lookup m s.hmap)) [
  | inl absent ↦ rw (Ends, absent) (new-Counted fresh m hs s e absent v)
  | inr (a, f) ↦
      let (h, found, n) = v.listed m a f in
      rw (Ends, f, found)
        (elim (Bool-cases h.del) [
          | inl deleted ↦ (rw deleted v)
          | inr live ↦
              (rw live (
                store-Counted a h (record h { refcnt = h.refcnt + 1; del = false }) hs (a ∷ hs) s
                  found refl (ground (arith, v.counted a h found)) (λ b o. ground (arith, o))
                  (λ t. ground arith) v))
        ])
]

step-Ends :
    (e : Event) (hs : List ℕ) (s : Manager) → Proper e hs s → Counted hs s → Ends (step e hs s)
unfolding step
step-Ends (make fresh m) hs s p v = make-Ends fresh m hs s p v
step-Ends (close a) hs s p v = kept-Ends _ _ (done-Steps a hs s p v)
step-Ends (bind a bound) hs s p v = kept-Ends _ _ (bind-Steps a bound hs s p v)
step-Ends (delete m) hs s p v = kept-Ends _ _ (delete-Steps m hs s v)

after-Ends :
    (es : List Event) (f : List ℕ → Manager → Option (List ℕ × Manager))
    → ((hs : List ℕ) (s : Manager) → AllProper es hs s → Counted hs s → Ends (f hs s))
    → (r : Option (List ℕ × Manager)) → Ends r
    → ProperAfter r (AllProper es)
    → Ends (after r f)
after-Ends es f k none h q = absurd h
after-Ends es f k (some (hs, s)) h q = k hs s q h

run-Ends :
    (es : List Event) (hs : List ℕ) (s : Manager)
    → AllProper es hs s
    → Counted hs s
    → Ends (run es hs s)
unfolding run
run-Ends [] hs s p v = v
run-Ends (e ∷ es) hs s p v =
    after-Ends es (run es) (run-Ends es) (step e hs s) (step-Ends e hs s p.0 v) p.1

-- In a new table, whatever its users do in whatever order, as long as `new` returns addresses that
-- nothing has and only handles that are not null and not destroyed are used: no `hinfo` that was
-- deleted is read, the count of each is the number of the handles that have it, and one that is
-- marked for deletion is there only while a handle has it.
pub handles_are_counted :
    (es : List Event) → AllProper es [] new_manager → Ends (run es [] new_manager)
handles_are_counted es p = run-Ends es [] new_manager p (record {
  listed = λ m a f. absurd (ground (arith, f, lookup-empty {V = ℕ} m));
  owned = λ a h f. absurd (ground (arith, f, lookup-empty {V = Info} a));
  counted = λ a h f. absurd (ground (arith, f, lookup-empty {V = Info} a));
  gone = λ a f. refl;
  marked = λ a h f t. absurd (ground (arith, f, lookup-empty {V = Info} a));
})
