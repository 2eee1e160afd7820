-- ===== src/Yfs/Directory/Tests.antt =====
-- Directories at work, and the theorems on them at concrete inputs.
use y_f_s.Base.{ℕ, ◌≡◌, refl, none, some, List, [], ◌∷◌, ◌++◌, arith}
use y_f_s.Yfs.Directory.{
  digits, filename, read_digits, read_inum, split_colon, ent_read, lines, find_line, dir_find,
  append_entry, colon,
}
use y_f_s.Yfs.Directory.Entries.{colon_name_blocks, empty-IsDir, dir_find-empty}

abbrev a : List ℕ
a = 97 ∷ []

abbrev z : List ℕ
z = 122 ∷ []

-- The second of two entries, behind an empty line.
second_entry : dir_find (10 ∷ append_entry (append_entry [] a 12) z 345) z ≡ some (345, 6, 5)
unfolding dir_find append_entry filename digits lines find_line ent_read split_colon read_inum
    read_digits
second_entry = refl

colon_name_blocks_example :
    dir_find (append_entry [] (a ++ (colon ∷ 98 ∷ [])) 7 ++ append_entry [] z 8) z ≡ none
colon_name_blocks_example =
    colon_name_blocks [] a [] z (append_entry [] z 8) 98 7 empty-IsDir (refl, tt)
      (refl, (refl, (refl, tt))) (omega arith) (omega arith) (dir_find-empty z)

other_entry : dir_find (append_entry [] z 8) a ≡ none
unfolding dir_find append_entry filename digits lines find_line ent_read split_colon read_inum
    read_digits
other_entry = refl
