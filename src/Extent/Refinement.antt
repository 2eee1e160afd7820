-- ===== src/Extent/Refinement.antt =====
-- extent_server.cc beside its specification, call by call and over histories.
use Prim.Native.Nat.{min}
use mathlib.Core.Path.{fun_ext}
use y_f_s.Base.{
  ℕ, ◌+◌, ◌-◌, ◌^◌, ◌<◌, ◌≤◌, ◌≡◌, refl, ap, sym, ◌∙◌, inl, inr, false, Option, none, some, List,
  [], ◌∷◌, length, get_or, map, take, drop, length-take, length-drop, get_or-take, get_or-drop, ltb,
  if◌then◌else◌, lookup, insert, erase, lookup-insert, lookup-erase, arith, Option-cases,
  Bool-cases,
}
use y_f_s.Extent.{
  Status, ok, Store, Server, key, put, get, getattr, remove, resize, resized, putbuf, getbuf,
}
use y_f_s.Extent.Bytes.{
  length-resized, get_or-resized, spliced, length-spliced, get_or-spliced, splice-some,
}
use y_f_s.Extent.History.{
  Call, call_put, call_get, call_getattr, call_remove, call_resize, call_putbuf, call_getbuf,
  Answer, step, run, after,
}
use y_f_s.Extent.Spec.{
  Contents, contents, Extents, extents, put_at, resized_spec, write_spec, read_spec, on_found, spec,
  Fits, spec_run, AllFit,
}

contents-resized : (n : ℕ) (buf : List ℕ) → contents (resized n buf) ≡ resized_spec n (contents buf)
contents-resized n buf = λ i. (length-resized n buf i, fun_ext (λ k. get_or-resized n buf k) i)

contents-spliced :
    (off : ℕ) (bs buf : List ℕ)
    → contents (spliced off bs buf) ≡ write_spec off (contents bs) (contents buf)
contents-spliced off bs buf =
    λ i. (length-spliced off bs buf i, fun_ext (λ k. get_or-spliced off bs buf k) i)

contents-read :
    (n off : ℕ) (buf : List ℕ)
    → contents (take (min n (length buf - off)) (drop off buf)) ≡ read_spec n off (contents buf)
contents-read n off buf =
    let m = min n (length buf - off) in
    let size : length (take m (drop off buf)) ≡ m =
      omega (arith, length-take m (drop off buf), length-drop off buf) in
    let byte : (k : ℕ)
        → get_or (take m (drop off buf)) k 0 ≡ (if ltb k m then get_or buf (off + k) 0 else 0) =
      λ k. ground (arith, get_or-take m (drop off buf) k 0, get_or-drop off buf k 0) in
    λ i. (size i, fun_ext byte i)

extents-insert :
    (k : ℕ) (e : Store) (s : Server)
    → extents (insert k e s) ≡ put_at k (some (contents e.buf)) (extents s)
extents-insert k e s = fun_ext (λ j. ground (arith, lookup-insert k j e s))

extents-erase : (k : ℕ) (s : Server) → extents (erase k s) ≡ put_at k none (extents s)
extents-erase k s = fun_ext (λ j. ground (arith, lookup-erase k j s))

extents_same :
    (k : ℕ) (e : Store) (s : Server)
    → lookup k s ≡ some e
    → extents s ≡ put_at k (some (contents e.buf)) (extents s)
extents_same k e s f = fun_ext (λ j. ground (arith, f))

-- The call returns, its answer is the specified one, and so are the contents it leaves.
abbrev pub Meets : (Status × Contents) × Extents → Option (Answer × Server) → Type 0
Meets want none = ⊥
Meets (answer, m) (some (a, s')) = ((a.status, contents a.bytes) ≡ answer) × (extents s' ≡ m)

abbrev pub Refines : ℕ → ℕ → Call → Server → Type 0
Refines max_size now c s = Meets (spec c (extents s)) (step max_size now c s)

get-Refines : (m now id : ℕ) (s : Server) → Refines m now (call_get id) s
unfolding step get
get-Refines m now id s = elim (Option-cases (lookup (key id) s)) [
  | inl f ↦ rw (f, get, spec, on_found) (refl, refl)
  | inr (e, f) ↦ rw (f, get, spec, on_found) (refl, extents-insert (key id) _ s)
]

getattr-Refines : (m now id : ℕ) (s : Server) → Refines m now (call_getattr id) s
unfolding step getattr
getattr-Refines m now id s = elim (Option-cases (lookup (key id) s)) [
  | inl f ↦ rw (f, getattr, spec, on_found) (refl, refl)
  | inr (e, f) ↦ rw (f, getattr, spec, on_found) (refl, extents_same (key id) e s f)
]

remove-Refines : (m now id : ℕ) (s : Server) → Refines m now (call_remove id) s
unfolding step remove
remove-Refines m now id s = elim (Option-cases (lookup (key id) s)) [
  | inl f ↦ rw (f, remove, spec, on_found) (refl, refl)
  | inr (e, f) ↦ rw (f, remove, spec, on_found) (refl, extents-erase (key id) s)
]

resize-Refines : (m now id n : ℕ) (s : Server) → n ≤ m → Refines m now (call_resize id n) s
unfolding step resize
resize-Refines m now id n s h = elim (Option-cases (lookup (key id) s)) [
  | inl f ↦ rw (f, resize, spec, on_found) (refl, refl)
  | inr (e, f) ↦
      let fits : ltb m n ≡ false = ground arith in
      rw (f, resize, spec, on_found)
        (rw (fits, resize)
          (
            refl,
            extents-insert (key id) _ s
                ∙ ap (λ c. put_at (key id) (some c) (extents s)) (contents-resized n e.buf),
          ))
]

putbuf-Refines :
    (m now id off : ℕ) (bs : List ℕ) (s : Server)
    → m < 2 ^ 31
    → off + length bs ≤ m
    → Refines m now (call_putbuf id off bs) s
unfolding step putbuf
putbuf-Refines m now id off bs s b h = elim (Option-cases (lookup (key id) s)) [
  | inl f ↦ rw (f, putbuf, spec, on_found) (refl, refl)
  | inr (e, f) ↦
      let wrote = splice-some m off bs e.buf b h in
      rw (f, putbuf, spec, on_found)
        (rw (wrote, putbuf)
          (
            refl,
            extents-insert (key id) _ s
                ∙ ap (λ c. put_at (key id) (some c) (extents s)) (contents-spliced off bs e.buf),
          ))
]

getbuf-Refines : (m now id n off : ℕ) (s : Server) → Refines m now (call_getbuf id n off) s
unfolding step getbuf
getbuf-Refines m now id n off s = elim (Option-cases (lookup (key id) s)) [
  | inl f ↦ rw (f, getbuf, spec, on_found) (refl, refl)
  | inr (e, f) ↦ elim (Bool-cases (ltb off (length e.buf))) [
    | inl g ↦
        let size : (if ltb n (length e.buf - off) then n else length e.buf - off)
            ≡ min n (length e.buf - off) =
          ground arith in
        rw (f, getbuf, spec, on_found)
          (rw (g, getbuf)
            (rw (size, getbuf)
              (ap (λ c. (ok, c)) (contents-read n off e.buf), extents-insert (key id) _ s)))
    | inr g ↦ rw (f, getbuf, spec, on_found) (rw (g, getbuf) (refl, extents_same (key id) e s f))
  ]
]

step-Refines : (m now : ℕ) (c : Call) (s : Server) → m < 2 ^ 31 → Fits m c → Refines m now c s
unfolding step put
step-Refines m now (call_put id buf) s b h = (refl, extents-insert (key id) _ s)
step-Refines m now (call_get id) s b h = get-Refines m now id s
step-Refines m now (call_getattr id) s b h = getattr-Refines m now id s
step-Refines m now (call_remove id) s b h = remove-Refines m now id s
step-Refines m now (call_resize id n) s b h = resize-Refines m now id n s h
step-Refines m now (call_putbuf id off bs) s b h = putbuf-Refines m now id off bs s b h
step-Refines m now (call_getbuf id n off) s b h = getbuf-Refines m now id n off s

abbrev pub shown : Answer → Status × Contents
shown a = (a.status, contents a.bytes)

abbrev pub RunMeets : List (Status × Contents) × Extents → Option (List Answer × Server) → Type 0
RunMeets want none = ⊥
RunMeets (answers, m) (some (given, s')) = (map shown given ≡ answers) × (extents s' ≡ m)

after-RunMeets :
    (m : ℕ) (a : Answer) (rest : Option (List Answer × Server)) (cs : List (ℕ × Call))
    (x : Status × Contents) (e : Extents)
    → shown a ≡ x
    → RunMeets (spec_run cs e) rest
    → RunMeets (x ∷ (spec_run cs e).0, (spec_run cs e).1) (after m a rest)
after-RunMeets m a none cs x e h k = k
after-RunMeets m a (some (given, s)) cs x e h k = (λ i. h i ∷ k.0 i, k.1)

-- From any state, a history of calls in which no `resize` or `putbuf` asks for more than
-- `max_size` bytes, with `max_size` below 2 ^ 31, never throws, and its statuses and returned
-- bytes and the contents it leaves are those of the specification.
pub run_refines :
    (m : ℕ) (cs : List (ℕ × Call)) (s : Server)
    → m < 2 ^ 31
    → AllFit m cs
    → RunMeets (spec_run cs (extents s)) (run m cs s)
unfolding run spec_run
run_refines m [] s b h = (refl, refl)
run_refines m ((now, c) ∷ cs) s b h =
    go (step m now c s) (step-Refines m now c s b h.0) (λ s'. run_refines m cs s' b h.1)
  where
    go :
        (o : Option (Answer × Server))
        → Meets (spec c (extents s)) o
        → ((s' : Server) → RunMeets (spec_run cs (extents s')) (run m cs s'))
        → RunMeets
            (spec_run ((now, c) ∷ cs) (extents s))
            (elim o [ none ↦ none | some (a, s') ↦ after m a (run m cs s') ])
    go none k ih = absurd k
    go (some (a, s')) k ih =
        after-RunMeets m a (run m cs s') cs (spec c (extents s)).0 (spec c (extents s)).1 k.0
          (rw (sym k.1) (ih s'))
