-- ===== src/Makedevs/Lines.antt =====
-- package/makedevs/makedevs.c: the lines of the table, and the names of files and users.
pub mod Laws
use cargos_buildroot.Base.{
  ℕ, suc, Bool, true, false, ◌&&◌, Option, none, some, List, [], ◌∷◌, ◌++◌, Text, if◌then◌else◌,
  ◌==◌, bytes, text_eq,
}

-- `private_get_line_from_file`: the bytes up to the end of the line and what is left of the file.
-- Without a byte the buffer is never allocated and the result is NULL. `c` chooses what ends a line:
-- 0 keeps the newline, 1 removes it, 2 reads on over it. A NUL ends the string.
abbrev pub put : ℕ → Option (Text × Text) → Text × Text
put ch none = (ch ∷ [], [])
put ch (some (line, rest)) = (ch ∷ line, rest)

unfoldable pub private_get_line_from_file : Text → ℕ → Option (Text × Text)
private_get_line_from_file [] c = none
private_get_line_from_file (ch ∷ file) c =
    let next = private_get_line_from_file file c in
    if ch == 0
    then some ([], file)
    else if (c == 0) && (ch == b'\n')
    then some (ch ∷ [], file)
    else if (c == 1) && (ch == b'\n')
    then some ([], file)
    else some (put ch next)

unfoldable pub bb_get_chomped_line_from_file : Text → Option (Text × Text)
unfolding private_get_line_from_file
bb_get_chomped_line_from_file file = private_get_line_from_file file 1

-- The databases are the lists that `fgetpwent` and `fgetgrent` return; `none` is the exit of the
-- program at an unknown name.
unfoldable pub my_getpwnam : List (Text × ℕ) → Text → Option ℕ
unfolding text_eq
my_getpwnam [] name = none
my_getpwnam ((pw_name, pw_uid) ∷ stream) name =
    if text_eq name pw_name then some pw_uid else my_getpwnam stream name

unfoldable pub my_getgrnam : List (Text × ℕ) → Text → Option ℕ
unfolding text_eq
my_getgrnam [] name = none
my_getgrnam ((gr_name, gr_gid) ∷ stream) name =
    if text_eq name gr_name then some gr_gid else my_getgrnam stream name

-- `strtoul` gives a number if it reads the whole of a text that is not empty.
unfoldable pub get_ug_id : (Text → Option ℕ) → Text → (Text → Option ℕ) → Option ℕ
get_ug_id strtoul s my_getxxnam = elim (strtoul s) [ some r ↦ some r | none ↦ my_getxxnam s ]

-- `strrchr(s, c)` is the last byte of `s`.
unfoldable pub last_char_is : Text → ℕ → Bool
last_char_is [] c = false
last_char_is (x ∷ []) c = x == c
last_char_is (x ∷ y ∷ s) c = last_char_is (y ∷ s) c

unfoldable pub skip_slashes : Text → Text
skip_slashes [] = []
skip_slashes (x ∷ s) = if x == b'/' then skip_slashes s else x ∷ s

unfoldable pub concat_path_file : Text → Text → Text
unfolding last_char_is skip_slashes
concat_path_file path filename =
    path ++ ((if last_char_is path b'/' then [] else bytes "/") ++ skip_slashes filename)
