-- ===== src/Yfs/Directory/Blanks.antt =====
-- What `remove` of yfs_client.cc does to the text of a directory: the entry's line is erased, and an
-- empty line stays.
use y_f_s.Base.{
  ℕ, ◌+◌, ◌^◌, ◌<◌, ◌≤◌, ◌≡◌, refl, ap, sym, ◌∙◌, Bool, true, false, Option, none, some, List, [],
  ◌∷◌, ◌++◌, append_assoc, Bool-cases, Option-cases, inl, inr, length, length-append, take, drop,
  take-append, drop-append, is_empty, str_eq, arith,
}
use y_f_s.Yfs.Directory.{
  lines, newline, colon, filename, ent_read, find_line, dir_find, append_entry,
}
use y_f_s.Yfs.Directory.Lines.{Lacks, lines-append}
use y_f_s.Yfs.Directory.Entries.{
  IsDir, entry_line, ended, find_line-missing, find_line-found, ent_read-entry, nonempty_line,
  lines-append_entry, dir_find-append_entry,
}

-- The inum that a search finds, without the place
abbrev pub inum_of : Option (ℕ × ℕ × ℕ) → Option ℕ
inum_of none = none
inum_of (some (inum, off, len)) = some inum

pub find_line-offset :
    (name : List ℕ) (off off' : ℕ) (ls : List (List ℕ × Bool))
    → inum_of (find_line name off ls) ≡ inum_of (find_line name off' ls)
unfolding find_line
find_line-offset name off off' [] = refl
find_line-offset name off off' (l ∷ ls) =
    let rest = find_line-offset name (off + length l.0 + 1) (off' + length l.0 + 1) ls in
    elim (Bool-cases (is_empty l.0)) [
      | inl e ↦ rw (e, find_line) rest
      | inr e ↦ elim (Option-cases (ent_read l.0)) [
        | inl r ↦ rw (e, find_line) (rw (r, find_line) refl)
        | inr (x, r) ↦ elim (Bool-cases (str_eq x.0 name)) [
          | inl same ↦ rw (e, find_line) (rw (r, find_line) (rw (same, find_line) refl))
          | inr ne ↦ rw (e, find_line) (rw (r, find_line) (rw (ne, find_line) rest))
        ]
      ]
    ]

-- A line that is replaced by an empty one
pub find_line-blanked :
    (name other : List ℕ) (inum off off' : ℕ) (ls : List (List ℕ × Bool))
    → Lacks colon name
    → inum < 2 ^ 64
    → str_eq name other ≡ false
    → inum_of (find_line other off (([], true) ∷ ls))
      ≡ inum_of (find_line other off' ((entry_line name inum, true) ∷ ls))
unfolding find_line
find_line-blanked name other inum off off' ls c b ne =
    rw (nonempty_line name (filename inum) colon, find_line)
      (rw (ent_read-entry name inum c b, find_line)
        (rw (ne, find_line) (find_line-offset other _ _ ls)))

inum_of-none : (o : Option (ℕ × ℕ × ℕ)) → inum_of o ≡ none → o ≡ none
inum_of-none none h = refl
inum_of-none (some r) h = absurd (ground (arith, h))

blank_line : (text : List ℕ) → lines (newline ∷ text) ≡ ([], true) ∷ lines text
unfolding lines
blank_line text = refl

find_line-blank :
    (name : List ℕ) (off : ℕ) (ls : List (List ℕ × Bool))
    → find_line name off (([], true) ∷ ls) ≡ find_line name (off + 0 + 1) ls
unfolding find_line
find_line-blank name off ls = refl

erased_text :
    (text l more : List ℕ)
    → let buf = (text ++ (l ++ (newline ∷ []))) ++ more in
      take (length text) buf ++ drop (length text + length l) buf ≡ text ++ (newline ∷ more)
erased_text text l more =
    let tail = l ++ (newline ∷ more) in
    let buf = (text ++ (l ++ (newline ∷ []))) ++ more in
    let shape : buf ≡ text ++ tail =
      append_assoc text (l ++ (newline ∷ [])) more
      ∙ ap (λ x. text ++ x) (append_assoc l (newline ∷ []) more) in
    let front : take (length text) buf ≡ text =
      ap (take (length text)) shape ∙ take-append text tail in
    let back : drop (length text + length l) buf ≡ newline ∷ more =
      ap (drop (length text + length l)) (shape ∙ sym (append_assoc text l (newline ∷ more)))
      ∙ ap (λ k. drop k ((text ++ l) ++ (newline ∷ more))) (sym (length-append text l))
      ∙ drop-append (text ++ l) (newline ∷ more) in
    rw (front, back) refl

-- In a directory of the lines `text`, which are all ended, and empty or entries, an entry whose name
-- has no colon or newline and whose inum is below 2 ^ 64, and the text `more`, where the name is
-- found in neither text: the name is found at the entry's line; the text without this line's bytes is
-- `text`, an empty line and `more`; the name is no longer found in it; and every other name is found
-- in it with the inum that it had before, or not, as before.
pub dir_find-erased :
    (text more name : List ℕ) (inum : ℕ)
    → IsDir text
    → Lacks colon name
    → Lacks newline name
    → inum < 2 ^ 64
    → dir_find text name ≡ none
    → dir_find more name ≡ none
    → let buf = append_entry text name inum ++ more in
      let left = text ++ (newline ∷ more) in
      (dir_find buf name ≡ some (inum, length text, length (entry_line name inum)))
      × (take (length text) buf ++ drop (length text + length (entry_line name inum)) buf ≡ left)
      × (dir_find left name ≡ none)
      × ((other : List ℕ)
          → str_eq name other ≡ false
          → inum_of (dir_find left other) ≡ inum_of (dir_find buf other))
unfolding dir_find append_entry
dir_find-erased text more name inum d c n b before behind =
    let l = entry_line name inum in
    let entry = append_entry text name inum in
    let added = dir_find-append_entry text name inum d c n b before in
    let e = lines-append entry more (ended (lines entry) added.2) in
    let e_buf : lines (entry ++ more) ≡ lines text ++ ((l, true) ∷ lines more) =
      e
      ∙ ap (λ x. x ++ lines more) (lines-append_entry text name inum (ended (lines text) d) n)
      ∙ append_assoc (lines text) ((l, true) ∷ []) (lines more) in
    let e_left : lines (text ++ (newline ∷ more)) ≡ lines text ++ (([], true) ∷ lines more) =
      lines-append text (newline ∷ more) (ended (lines text) d)
      ∙ ap (λ x. lines text ++ x) (blank_line more) in
    (
      ap (find_line name 0) e ∙ find_line-found name 0 (lines entry) (lines more) _ added.0,
      erased_text text l more,
      ap (find_line name 0) e_left
          ∙ find_line-missing name 0 (lines text) (([], true) ∷ lines more) d before
          ∙ find_line-blank name _ (lines more)
          ∙ inum_of-none _ (find_line-offset name _ 0 (lines more) ∙ ap inum_of behind),
      λ other ne.
          ap (λ x. inum_of (find_line other 0 x)) e_left
          ∙ (elim (Option-cases (find_line other 0 (lines text))) [
            | inl f ↦
                ap inum_of (find_line-missing other 0 (lines text) (([], true) ∷ lines more) d f)
                ∙ find_line-blanked name other inum _ _ (lines more) c b ne
                ∙ ap inum_of
                    (sym (find_line-missing other 0 (lines text) ((l, true) ∷ lines more) d f))
            | inr (r, f) ↦ ap inum_of (
                find_line-found other 0 (lines text) (([], true) ∷ lines more) r f
                ∙ sym (find_line-found other 0 (lines text) ((l, true) ∷ lines more) r f))
          ])
          ∙ ap (λ x. inum_of (find_line other 0 x)) (sym e_buf),
    )

pub length-append_entry-le :
    (text more name : List ℕ) (inum : ℕ)
    → length text ≤ length (append_entry text name inum ++ more)
unfolding append_entry
length-append_entry-le text more name inum =
    let l = entry_line name inum ++ (newline ∷ []) in
    omega (arith, length-append (text ++ l) more, length-append text l)
