-- ===== src/Yfs/Directory.antt =====
-- yfs_client.cc: the text of a directory, in which each line is `name:inum`. A text is a list of
-- bytes.
pub mod Decimal
pub mod Lines
pub mod Entries
pub mod Blanks
mod Tests
use y_f_s.Base.{
  ℕ, zero, suc, ◌+◌, ◌-◌, ◌*◌, ◌/◌, ◌%◌, ◌^◌, Bool, true, false, ◌&&◌, ◌||◌, Option, none, some,
  List, [], ◌∷◌, ◌++◌, length, is_empty, str_eq, ltb, leb, ◌==◌, if◌then◌else◌,
}

abbrev pub newline : ℕ
newline = 10

abbrev pub colon : ℕ
colon = 58

-- `ost << inum` of an `unsigned long long`: at most twenty digits.
pub digits : ℕ → ℕ → List ℕ
digits zero n = []
digits (suc fuel) n =
    let rest = digits fuel (n / 10) in
    if ltb n 10 then (48 + n) ∷ [] else rest ++ ((48 + n % 10) ∷ [])

pub filename : ℕ → List ℕ
unfolding digits
filename inum = digits 20 inum

abbrev pub is_digit : ℕ → Bool
is_digit c = leb 48 c && leb c 57

abbrev pub is_space : ℕ → Bool
is_space c = (c == 32) || (leb 9 c && leb c 13)

-- The number that the leading digits make.
pub read_digits : ℕ → List ℕ → ℕ
read_digits acc [] = acc
read_digits acc (c ∷ cs) =
    let rest = read_digits (acc * 10 + (c - 48)) cs in if is_digit c then rest else acc

-- `ist >> inum`: it fails without a digit, and where the number is too large.
abbrev pub read_number : Bool → List ℕ → Option ℕ
read_number negative [] = none
read_number negative (c ∷ cs) =
    if is_digit c
    then (let n = read_digits 0 (c ∷ cs) in
        if leb (2 ^ 64) n then none else some (if negative then (2 ^ 64 - n) % 2 ^ 64 else n))
    else none

abbrev pub read_signed : List ℕ → Option ℕ
read_signed [] = none
read_signed (c ∷ cs) =
    if c == 45
    then read_number true cs
    else if c == 43
    then read_number false cs
    else read_number false (c ∷ cs)

pub read_inum : List ℕ → Option ℕ
read_inum [] = none
read_inum (c ∷ cs) = let rest = read_inum cs in if is_space c then rest else read_signed (c ∷ cs)

-- `dirline.find(':')`, with what stands before and behind it
pub split_colon : List ℕ → Option (List ℕ × List ℕ)
split_colon [] = none
split_colon (c ∷ cs) =
    let rest = split_colon cs in
    if c == colon then some ([], cs) else elim rest [ none ↦ none | some (a, b) ↦ some (c ∷ a, b) ]

pub ent_read : List ℕ → Option (List ℕ × ℕ)
ent_read dirline = elim (split_colon dirline) [
  | none ↦ none
  | some (name, number) ↦ elim (read_inum number) [ none ↦ none | some inum ↦ some (name, inum) ]
]

-- What `getline` reads, line by line, and whether a newline ended the line.
abbrev pub add_char : ℕ → List (List ℕ × Bool) → List (List ℕ × Bool)
add_char c [] = (c ∷ [], false) ∷ []
add_char c ((l, ended) ∷ ls) = (c ∷ l, ended) ∷ ls

pub lines : List ℕ → List (List ℕ × Bool)
lines [] = []
lines (c ∷ cs) = let rest = lines cs in if c == newline then ([], true) ∷ rest else add_char c rest

-- `tellg() - linelen - 1`; at the end of the text, `tellg` answers -1.
abbrev pub line_offset : ℕ → List ℕ × Bool → ℕ
line_offset off (l, true) = off
line_offset off (l, false) = 2 ^ 32 - 2 - length l

-- The loop of `dir_find`: the inum, the offset and the length of the line. `off` is where the line
-- begins.
pub find_line : List ℕ → ℕ → List (List ℕ × Bool) → Option (ℕ × ℕ × ℕ)
find_line name off [] = none
find_line name off (l ∷ ls) =
    let rest = find_line name (off + length l.0 + 1) ls in
    if is_empty l.0 then rest else elim (ent_read l.0) [
      | none ↦ none
      | some (curname, inum) ↦
          if str_eq curname name then some (inum, line_offset off l, length l.0) else rest
    ]

pub dir_find : List ℕ → List ℕ → Option (ℕ × ℕ × ℕ)
dir_find dirbuf name = find_line name 0 (lines dirbuf)

-- `ostr << name << ':' << tmpinum << std::endl; buf.append(ostr.str())` of `dir_add_entry`
pub append_entry : List ℕ → List ℕ → ℕ → List ℕ
append_entry buf name inum = buf ++ ((name ++ (colon ∷ filename inum)) ++ (newline ∷ []))
