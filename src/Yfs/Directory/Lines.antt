-- ===== src/Yfs/Directory/Lines.antt =====
-- How `getline` splits the text of a directory, and how `find` splits a line.
use y_f_s.Base.{
  ℕ, ◌≡◌, refl, ap, ◌∙◌, Bool, true, false, some, List, [], ◌∷◌, ◌++◌, All, Bool-cases, inl, inr,
  ◌==◌, arith,
}
use y_f_s.Yfs.Directory.{lines, add_char, newline, colon, split_colon}

abbrev pub Lacks : ℕ → List ℕ → Type 0
Lacks c w = All (λ d. (d == c) ≡ false) w

abbrev pub AllEnded : List (List ℕ × Bool) → Type 0
AllEnded ls = All (λ l. l.1 ≡ true) ls

pub add_char-ended :
    (c : ℕ) (ls ms : List (List ℕ × Bool))
    → AllEnded (add_char c ls)
    → AllEnded ls × (add_char c (ls ++ ms) ≡ add_char c ls ++ ms)
add_char-ended c [] ms h = absurd (ground (arith, h.0))
add_char-ended c (l ∷ ls) ms h = (h, refl)

-- Behind a text whose last line is ended, other text begins new lines.
pub lines-append : (xs ys : List ℕ) → AllEnded (lines xs) → lines (xs ++ ys) ≡ lines xs ++ lines ys
unfolding lines
lines-append [] ys h = refl
lines-append (c ∷ xs) ys h = elim (Bool-cases (c == newline)) [
  | inl e ↦
      let k : AllEnded (([], true) ∷ lines xs) = rw (e, lines) at h in
      rw (e, lines) (ap (λ r. ([], true) ∷ r) (lines-append xs ys k.1))
  | inr e ↦
      let k : AllEnded (add_char c (lines xs)) = rw (e, lines) at h in
      let grown = add_char-ended c (lines xs) (lines ys) k in
      rw (e, lines) (ap (add_char c) (lines-append xs ys grown.0) ∙ grown.1)
]

pub lines-line : (w : List ℕ) → Lacks newline w → lines (w ++ (newline ∷ [])) ≡ (w, true) ∷ []
unfolding lines
lines-line [] h = refl
lines-line (c ∷ w) h = rw (h.0, lines) (ap (add_char c) (lines-line w h.1))

pub split_colon-name :
    (name rest : List ℕ)
    → Lacks colon name
    → split_colon (name ++ (colon ∷ rest)) ≡ some (name, rest)
unfolding split_colon
split_colon-name [] rest h = refl
split_colon-name (c ∷ name) rest h =
    rw (h.0, split_colon) (rw (split_colon-name name rest h.1) refl)
