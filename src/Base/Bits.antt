-- ===== src/Base/Bits.antt =====
-- `|` of two numbers that share no bit is their sum.
use Prim.Native.Nat.{
  ℕ, zero, suc, ◌+◌, ◌*◌, ◌/◌, ◌%◌, ◌^◌, ◌≤◌, ◌<◌, max, bit_or, digits, bit_or-bitwise,
}
use mathlib.Core.Path.{◌≡◌, refl, ap}
use native.Mathlib.Omega.{arith}
use native.Mathlib.Nat.{pow-suc}

abbrev or_digits : ℕ → ℕ → ℕ → ℕ
or_digits = digits (λ y. y) max

or_digits-zero : (n a : ℕ) → a ≤ n → or_digits n a 0 ≡ a
or_digits-zero zero zero h = refl
or_digits-zero zero (suc a) h = absurd (omega arith)
or_digits-zero (suc n) zero h = refl
or_digits-zero (suc n) (suc a) h = omega (arith, or_digits-zero n (suc a / 2) (omega arith))

-- A double of a multiple of `2 ^ k` halves to that multiple.
half-eq : (k a q : ℕ) → a ≡ q * 2 ^ suc k → (a / 2 ≡ q * 2 ^ k) × (a % 2 ≡ 0)
half-eq k a q e = omega (arith, e, ap (λ (t : ℕ). q * t) (pow-suc 2 k))

or_digits-eq : (k n a q r : ℕ) → a ≡ q * 2 ^ k → a ≤ n → r < 2 ^ k → or_digits n a r ≡ a + r
or_digits-eq zero n a q r e h lt = ground (arith, or_digits-zero n a)
or_digits-eq (suc k) zero zero q r e h lt = omega arith
or_digits-eq (suc k) zero (suc a) q r e h lt = absurd (omega arith)
or_digits-eq (suc k) (suc n) zero q r e h lt = omega arith
or_digits-eq (suc k) (suc n) (suc a) q r e h lt =
    let (half, even) = half-eq k (suc a) q e in
    omega (
      arith,
      even,
      or_digits-eq k n (suc a / 2) q (r / 2) half (omega arith) (omega (arith, pow-suc 2 k)),
    )

-- `(q << k) | r` where `r` has `k` bits at most.
pub bit_or_shl : (k q r : ℕ) → r < 2 ^ k → bit_or (q * 2 ^ k) r ≡ q * 2 ^ k + r
bit_or_shl k q r h = simp bit_or-bitwise (or_digits-eq k _ _ q r refl (omega arith) h)

or_digits_small : (k n a q : ℕ) → a ≤ n → a < 2 ^ k → or_digits n a (q * 2 ^ k) ≡ q * 2 ^ k + a
or_digits_small k zero zero q h lt = omega arith
or_digits_small k zero (suc a) q h lt = absurd (omega arith)
or_digits_small k (suc n) zero q h lt = omega arith
or_digits_small zero (suc n) (suc a) q h lt = absurd (omega arith)
or_digits_small (suc k) (suc n) (suc a) q h lt =
    let (half, even) = half-eq k (q * 2 ^ suc k) q refl in
    rw (half, even)
      (omega (
        arith,
        or_digits_small k n (suc a / 2) q (omega arith) (omega (arith, pow-suc 2 k)),
        half,
        even,
      ))

-- `r | (q << k)` where `r` has `k` bits at most.
pub bit_or_shl_right : (k q r : ℕ) → r < 2 ^ k → bit_or r (q * 2 ^ k) ≡ q * 2 ^ k + r
bit_or_shl_right k q r h = simp bit_or-bitwise (or_digits_small k _ _ q (omega arith) h)
