-- ===== src/Base/Assoc.antt =====
-- `std::map` with number keys, as an association list in which a key has at most one entry.
use Prim.Native.Nat.{ℕ}
use mathlib.Core.Path.{◌≡◌, refl}
use mathlib.Core.Option.{Option, none, some}
use mathlib.Core.List.{List, [], ◌∷◌}
use native.Mathlib.Omega.{arith}
use y_f_s.Base.Tests.{◌==◌, if◌then◌else◌}

abbrev pub Table {ℓ} : Type ℓ → Type ℓ
Table V = List (ℕ × V)

module _ {ℓ} {V : Type ℓ} where
  -- `m.find(key)`
  unfoldable pub lookup : ℕ → Table V → Option V
  lookup key [] = none
  lookup key ((i, old) ∷ others) = if i == key then some old else lookup key others

  -- `m[key] = new`
  unfoldable pub insert : ℕ → V → Table V → Table V
  insert key new [] = (key, new) ∷ []
  insert key new ((i, old) ∷ others) =
      if i == key then (key, new) ∷ others else (i, old) ∷ insert key new others

  -- `m.erase(key)`
  unfoldable pub erase : ℕ → Table V → Table V
  erase key [] = []
  erase key ((i, old) ∷ others) = if i == key then erase key others else (i, old) ∷ erase key others

  pub lookup-empty : (key : ℕ) → lookup key [] ≡ none
  unfolding lookup
  lookup-empty key = refl

  pub lookup-insert :
      (key i : ℕ) (new : V) (table : Table V)
      → lookup i (insert key new table) ≡ (if key == i then some new else lookup i table)
  unfolding lookup insert
  lookup-insert key i new [] = refl
  lookup-insert key i new ((a, old) ∷ others) = ground (arith, lookup-insert key i new others)

  pub lookup-erase :
      (key i : ℕ) (table : Table V)
      → lookup i (erase key table) ≡ (if key == i then none else lookup i table)
  unfolding lookup erase
  lookup-erase key i [] = ground arith
  lookup-erase key i ((a, old) ∷ others) = ground (arith, lookup-erase key i others)

  pub lookup-insert_self :
      (key : ℕ) (new : V) (table : Table V) → lookup key (insert key new table) ≡ some new
  unfolding lookup insert
  lookup-insert_self key new [] = ground arith
  lookup-insert_self key new ((a, old) ∷ others) = ground (arith, lookup-insert_self key new others)

  pub erase-insert :
      (key : ℕ) (new : V) (table : Table V) → erase key (insert key new table) ≡ erase key table
  unfolding insert erase
  erase-insert key new [] = ground arith
  erase-insert key new ((a, old) ∷ others) = ground (arith, erase-insert key new others)
