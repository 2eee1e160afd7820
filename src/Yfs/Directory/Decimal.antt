-- ===== src/Yfs/Directory/Decimal.antt =====
-- The decimal numbers that yfs_client.cc prints and reads.
use native.Mathlib.Nat.{pow-succ'}
use y_f_s.Base.{
  ℕ, zero, suc, ◌+◌, ◌-◌, ◌*◌, ◌/◌, ◌%◌, ◌^◌, ◌<◌, ◌≡◌, refl, ◌∙◌, true, false, some, List, [], ◌∷◌,
  ◌++◌, All, All-append, Bool-cases, is_empty, inl, inr, ltb, arith,
}
use y_f_s.Yfs.Directory.{digits, filename, read_digits, read_inum, is_digit}

abbrev pub IsDigits : List ℕ → Type 0
IsDigits cs = All (λ c. is_digit c ≡ true) cs

digits-IsDigits : (fuel n : ℕ) → IsDigits (digits fuel n)
unfolding digits
digits-IsDigits zero n = tt
digits-IsDigits (suc fuel) n = elim (Bool-cases (ltb n 10)) [
  | inl e ↦ rw (e, digits) (ground arith, tt)
  | inr e ↦
      rw (e, digits)
        (All-append (λ c. is_digit c ≡ true) (digits fuel (n / 10)) ((48 + n % 10) ∷ [])
          (digits-IsDigits fuel (n / 10)) (ground arith, tt))
]

read_digits-append :
    (acc : ℕ) (xs ys : List ℕ)
    → IsDigits xs
    → read_digits acc (xs ++ ys) ≡ read_digits (read_digits acc xs) ys
unfolding read_digits
read_digits-append acc [] ys h = refl
read_digits-append acc (x ∷ xs) ys h =
    ground (arith, h, read_digits-append (acc * 10 + (x - 48)) xs ys h.1)

read_digits-digits : (fuel n : ℕ) → n < 10 ^ fuel → read_digits 0 (digits fuel n) ≡ n
unfolding digits read_digits
read_digits-digits zero n h = ground arith
read_digits-digits (suc fuel) n h =
    let step : 10 ^ suc fuel ≡ 10 * 10 ^ fuel = pow-succ' 10 fuel in
    elim (Bool-cases (ltb n 10)) [
      | inl e ↦ rw (e, digits) (ground arith)
      | inr e ↦
          rw (e, digits)
            (read_digits-append 0 (digits fuel (n / 10)) ((48 + n % 10) ∷ [])
                (digits-IsDigits fuel (n / 10))
              ∙ rw (read_digits-digits fuel (n / 10) (omega arith)) (ground arith))
    ]

digits-nonempty : (fuel n : ℕ) → is_empty (digits (suc fuel) n) ≡ false
unfolding digits
digits-nonempty fuel n = elim (Bool-cases (ltb n 10)) [
  | inl e ↦ rw (e, digits) refl
  | inr e ↦ rw (e, digits) (nonempty_append (digits fuel (n / 10)) (48 + n % 10))
]
  where
    nonempty_append : (xs : List ℕ) (x : ℕ) → is_empty (xs ++ (x ∷ [])) ≡ false
    nonempty_append [] x = refl
    nonempty_append (y ∷ ys) x = refl

-- Digits alone are read as the number that they make, if it is small enough.
read_inum-digits :
    (cs : List ℕ) (n : ℕ)
    → IsDigits cs
    → is_empty cs ≡ false
    → read_digits 0 cs ≡ n
    → n < 2 ^ 64
    → read_inum cs ≡ some n
unfolding read_inum
read_inum-digits [] n d e r b = ground (arith, e)
read_inum-digits (c ∷ cs) n d e r b = ground (arith, d.0, r)

-- The decimal text of a number below 2 ^ 64 is read back as this number.
pub read_inum-filename : (inum : ℕ) → inum < 2 ^ 64 → read_inum (filename inum) ≡ some inum
unfolding filename
read_inum-filename inum b =
    read_inum-digits (digits 20 inum) inum (digits-IsDigits 20 inum) (digits-nonempty 19 inum)
      (read_digits-digits 20 inum (omega arith)) b

pub filename-IsDigits : (inum : ℕ) → IsDigits (filename inum)
unfolding filename
filename-IsDigits inum = digits-IsDigits 20 inum
