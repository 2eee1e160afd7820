-- ===== src/Yfs/Directory/Entries.antt =====
-- `dir_find` of yfs_client.cc on the directories that `dir_add_entry` writes.
use mathlib.Core.Path.{subst}
use y_f_s.Base.{
  ℕ, ◌+◌, ◌^◌, ◌<◌, ◌≤◌, ◌≡◌, refl, ap, sym, ◌∙◌, Bool, true, false, ◌||◌, none, some, List, [],
  ◌∷◌, ◌++◌, append_assoc, All, All-append, Bool-cases, Option-cases, inl, inr, length, is_empty,
  str_eq, ◌==◌, if◌then◌else◌, arith,
}
use y_f_s.Yfs.Directory.{
  lines, newline, colon, filename, read_inum, ent_read, find_line, dir_find, append_entry, add_char,
}
use y_f_s.Yfs.Directory.Decimal.{read_inum-filename, filename-IsDigits, IsDigits}
use y_f_s.Yfs.Directory.Lines.{
  Lacks, AllEnded, add_char-ended, lines-append, lines-line, split_colon-name,
}

abbrev pub readable : List ℕ → Bool
readable l = is_empty l || elim (ent_read l) [ none ↦ false | some e ↦ true ]

-- Every line is ended, and is empty or an entry.
abbrev pub IsDir : List ℕ → Type 0
IsDir buf = All (λ l. (l.1 ≡ true) × (readable l.0 ≡ true)) (lines buf)

abbrev pub total : List (List ℕ × Bool) → ℕ
total [] = 0
total (l ∷ ls) = length l.0 + 1 + total ls

pub ended :
    (ls : List (List ℕ × Bool)) → All (λ l. (l.1 ≡ true) × (readable l.0 ≡ true)) ls → AllEnded ls
ended [] h = tt
ended (l ∷ ls) h = (h.0.0, ended ls h.1)

total-add_char :
    (c : ℕ) (ls : List (List ℕ × Bool))
    → AllEnded (add_char c ls)
    → total (add_char c ls) ≡ total ls + 1
total-add_char c [] h = absurd (ground (arith, h.0))
total-add_char c (l ∷ ls) h = omega arith

pub total-lines : (buf : List ℕ) → AllEnded (lines buf) → total (lines buf) ≡ length buf
unfolding lines
total-lines [] h = refl
total-lines (c ∷ cs) h = elim (Bool-cases (c == newline)) [
  | inl e ↦
      let k : AllEnded (([], true) ∷ lines cs) = rw (e, lines) at h in
      rw (e, lines) (ground (arith, total-lines cs k.1))
  | inr e ↦
      let k : AllEnded (add_char c (lines cs)) = rw (e, lines) at h in
      rw (e, lines)
        (total-add_char c (lines cs) k
          ∙ ground (arith, total-lines cs (add_char-ended c (lines cs) [] k).0))
]

pub find_line-found :
    (name : List ℕ) (off : ℕ) (ls ms : List (List ℕ × Bool)) (r : ℕ × ℕ × ℕ)
    → find_line name off ls ≡ some r
    → find_line name off (ls ++ ms) ≡ some r
unfolding find_line
find_line-found name off [] ms r h = absurd (ground (arith, h))
find_line-found name off (l ∷ ls) ms r h =
    ground (arith, h, find_line-found name (off + length l.0 + 1) ls ms r)

pub find_line-missing :
    (name : List ℕ) (off : ℕ) (ls ms : List (List ℕ × Bool))
    → All (λ l. (l.1 ≡ true) × (readable l.0 ≡ true)) ls
    → find_line name off ls ≡ none
    → find_line name off (ls ++ ms) ≡ find_line name (off + total ls) ms
unfolding find_line
find_line-missing name off [] ms d h = ap (λ k. find_line name k ms) (omega arith)
find_line-missing name off (l ∷ ls) ms d h =
    let k = off + length l.0 + 1 in
    let same : k + total ls ≡ off + total (l ∷ ls) = omega arith in
    let rest = find_line-missing name k ls ms d.1 in
    ground (arith, h, d.0.1, rest, ap (λ i. find_line name i ms) same)

pub ent_read-entry :
    (name : List ℕ) (inum : ℕ)
    → Lacks colon name
    → inum < 2 ^ 64
    → ent_read (name ++ (colon ∷ filename inum)) ≡ some (name, inum)
unfolding ent_read
ent_read-entry name inum h b =
    rw (split_colon-name name (filename inum) h, ent_read)
      (rw (read_inum-filename inum b, ent_read) refl)

digits-Lacks : (cs : List ℕ) → IsDigits cs → Lacks newline cs
digits-Lacks [] h = tt
digits-Lacks (c ∷ cs) h = (ground (arith, h.0), digits-Lacks cs h.1)

-- The line of an entry
abbrev pub entry_line : List ℕ → ℕ → List ℕ
entry_line name inum = name ++ (colon ∷ filename inum)

pub lines-append_entry :
    (buf name : List ℕ) (inum : ℕ)
    → AllEnded (lines buf)
    → Lacks newline name
    → lines (append_entry buf name inum) ≡ lines buf ++ ((entry_line name inum, true) ∷ [])
unfolding append_entry
lines-append_entry buf name inum h n =
    lines-append buf _ h
    ∙ ap (λ l. lines buf ++ l)
        (lines-line (entry_line name inum) (
          All-append (λ d. (d == newline) ≡ false) name (colon ∷ filename inum) n
            (refl, digits-Lacks (filename inum) (filename-IsDigits inum))))

pub nonempty_line : (name rest : List ℕ) (c : ℕ) → is_empty (name ++ (c ∷ rest)) ≡ false
nonempty_line [] rest c = refl
nonempty_line (d ∷ name) rest c = refl

pub find_line-entry :
    (name other : List ℕ) (inum off : ℕ)
    → Lacks colon name
    → inum < 2 ^ 64
    → find_line other off ((entry_line name inum, true) ∷ [])
      ≡ (if str_eq name other then some (inum, off, length (entry_line name inum)) else none)
unfolding find_line
find_line-entry name other inum off c b =
    rw (nonempty_line name (filename inum) colon, find_line)
      (rw (ent_read-entry name inum c b, find_line) refl)

pub str_eq_refl : (s : List ℕ) → str_eq s s ≡ true
str_eq_refl [] = refl
str_eq_refl (c ∷ s) = ground (arith, str_eq_refl s)

entry_line-readable :
    (name : List ℕ) (inum : ℕ)
    → Lacks colon name
    → inum < 2 ^ 64
    → readable (entry_line name inum) ≡ true
entry_line-readable name inum c b = ground (arith, ent_read-entry name inum c b)

-- A name without a colon and without a newline that is not found in a directory is found after its
-- entry was appended, with its inum, below 2 ^ 64, and the place and length of its line; whether and
-- where any other name is found has not changed; and every line is again ended, and empty or an
-- entry.
pub dir_find-append_entry :
    (buf name : List ℕ) (inum : ℕ)
    → IsDir buf
    → Lacks colon name
    → Lacks newline name
    → inum < 2 ^ 64
    → dir_find buf name ≡ none
    → (dir_find (append_entry buf name inum) name
        ≡ some (inum, length buf, length (entry_line name inum)))
      × ((other : List ℕ)
          → str_eq name other ≡ false
          → dir_find (append_entry buf name inum) other ≡ dir_find buf other)
      × IsDir (append_entry buf name inum)
unfolding dir_find
dir_find-append_entry buf name inum d c n b missing =
    let line : List (List ℕ × Bool) = (entry_line name inum, true) ∷ [] in
    let e = lines-append_entry buf name inum (ended (lines buf) d) n in
    let size = total-lines buf (ended (lines buf) d) in
    (
      ap (find_line name 0) e
          ∙ find_line-missing name 0 (lines buf) line d missing
          ∙ ap (λ k. find_line name k line) (omega (arith, size))
          ∙ find_line-entry name name inum (length buf) c b
          ∙ ground (arith, str_eq_refl name),
      λ other ne. ap (find_line other 0) e ∙ (elim (Option-cases (find_line other 0 (lines buf))) [
        | inl f ↦
            find_line-missing other 0 (lines buf) line d f
            ∙ find_line-entry name other inum (0 + total (lines buf)) c b
            ∙ ground (arith, ne, f)
        | inr (r, f) ↦ find_line-found other 0 (lines buf) line r f ∙ sym f
      ]),
      subst (All (λ l. (l.1 ≡ true) × (readable l.0 ≡ true))) (sym e)
          (All-append _ (lines buf) line d ((refl, entry_line-readable name inum c b), tt)),
    )

letter-unread : (c : ℕ) (cs : List ℕ) → 97 ≤ c → c ≤ 122 → read_inum (c ∷ cs) ≡ none
unfolding read_inum
letter-unread c cs lo hi = ground arith

colon_name-unread :
    (pre rest : List ℕ) (c inum : ℕ)
    → Lacks colon pre
    → 97 ≤ c
    → c ≤ 122
    → ent_read (entry_line (pre ++ (colon ∷ c ∷ rest)) inum) ≡ none
unfolding ent_read
colon_name-unread pre rest c inum a lo hi =
    let tail = rest ++ (colon ∷ filename inum) in
    ap ent_read (append_assoc pre (colon ∷ c ∷ rest) (colon ∷ filename inum))
    ∙ rw (split_colon-name pre (c ∷ tail) a, ent_read)
        (rw (letter-unread c tail lo hi, ent_read) refl)

-- An unreadable line ends the search.
find_line-unread :
    (other l : List ℕ) (off : ℕ) (ls : List (List ℕ × Bool))
    → is_empty l ≡ false
    → ent_read l ≡ none
    → find_line other off ((l, true) ∷ ls) ≡ none
unfolding find_line
find_line-unread other l off ls e u = ground (arith, e, u)

-- Once a name with a colon, none before it and a lower-case letter behind it, was appended to a
-- directory whose lines are all ended, and empty or entries, no name is found that was not found
-- before, whatever text follows.
pub colon_name_blocks :
    (buf pre rest other more : List ℕ) (c inum : ℕ)
    → IsDir buf
    → Lacks colon pre
    → Lacks newline (pre ++ (colon ∷ c ∷ rest))
    → 97 ≤ c
    → c ≤ 122
    → dir_find buf other ≡ none
    → dir_find (append_entry buf (pre ++ (colon ∷ c ∷ rest)) inum ++ more) other ≡ none
unfolding dir_find
colon_name_blocks buf pre rest other more c inum d a n lo hi missing =
    let bad = pre ++ (colon ∷ c ∷ rest) in
    let l = entry_line bad inum in
    let e = lines-append_entry buf bad inum (ended (lines buf) d) n in
    let all_ended : AllEnded (lines (append_entry buf bad inum)) =
      subst AllEnded (sym e)
        (All-append _ (lines buf) ((l, true) ∷ []) (ended (lines buf) d) (refl, tt)) in
    ap (find_line other 0) (
      lines-append (append_entry buf bad inum) more all_ended
      ∙ ap (λ x. x ++ lines more) e
      ∙ append_assoc (lines buf) ((l, true) ∷ []) (lines more))
    ∙ find_line-missing other 0 (lines buf) ((l, true) ∷ lines more) d missing
    ∙ find_line-unread other l _ (lines more) (nonempty_line bad (filename inum) colon)
        (colon_name-unread pre rest c inum a lo hi)

pub empty-IsDir : IsDir []
unfolding lines
empty-IsDir = tt

pub dir_find-empty : (name : List ℕ) → dir_find [] name ≡ none
unfolding dir_find lines find_line
dir_find-empty name = refl
