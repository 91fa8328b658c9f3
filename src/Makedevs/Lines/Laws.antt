-- ===== src/Makedevs/Lines/Laws.antt =====
-- package/makedevs/makedevs.c: a table is read line by line, and a name below the root directory.
use cargos_buildroot.Base.{
  ℕ, ◌≡◌, refl, Bool, true, false, ◌||◌, some, [], ◌∷◌, ◌++◌, Text, bytes, arith, ◌==◌,
  if◌then◌else◌,
}
use mathlib.Core.List.{append_assoc}
use cargos_buildroot.Makedevs.Lines.{
  private_get_line_from_file, bb_get_chomped_line_from_file, last_char_is, skip_slashes,
  concat_path_file,
}

-- No byte of the text is a NUL or a newline.
unfoldable pub is_line : Text → Bool
is_line [] = true
is_line (c ∷ s) = if c == 0 || c == b'\n' then false else is_line s

-- Reading a file that starts with a line gives this line without its newline, and the file behind it.
pub bb_get_chomped_line_from_file_reads :
    (line file : Text)
    → is_line line ≡ true
    → bb_get_chomped_line_from_file (line ++ (b'\n' ∷ file)) ≡ some (line, file)
unfolding bb_get_chomped_line_from_file private_get_line_from_file is_line
bb_get_chomped_line_from_file_reads [] file h = refl
bb_get_chomped_line_from_file_reads (c ∷ line) file h =
    ground (arith, bb_get_chomped_line_from_file_reads line file)

last_char_is-snoc : (s : Text) (c : ℕ) → last_char_is (s ++ (c ∷ [])) c ≡ true
unfolding last_char_is
last_char_is-snoc [] c = ground arith
last_char_is-snoc (x ∷ []) c = last_char_is-snoc [] c
last_char_is-snoc (x ∷ y ∷ s) c = last_char_is-snoc (y ∷ s) c

-- Whether the root directory ends in a slash, and whether the name starts with slashes, makes no
-- difference: one slash stands between the two.
pub concat_path_file_slash :
    (dir filename : Text)
    → last_char_is dir b'/' ≡ false
    → (concat_path_file dir filename ≡ dir ++ (b'/' ∷ skip_slashes filename))
      × (concat_path_file (dir ++ bytes "/") filename ≡ concat_path_file dir filename)
      × (concat_path_file dir (b'/' ∷ filename) ≡ concat_path_file dir filename)
unfolding concat_path_file skip_slashes
concat_path_file_slash dir filename h = (
  rw h refl,
  rw (h, last_char_is-snoc dir b'/') (append_assoc dir (bytes "/") (skip_slashes filename)),
  refl,
)
