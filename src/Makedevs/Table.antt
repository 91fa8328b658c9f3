-- ===== src/Makedevs/Table.antt =====
-- package/makedevs/makedevs.c: the loop of `main` over the lines of the table.
pub mod Failure
pub mod Laws
pub mod Status
use cargos_buildroot.Base.{
  ◌>>=◌, ℕ, zero, suc, Bool, true, false, ◌&&◌, ◌||◌, Option, none, some, List, [], ◌∷◌, Text,
  length, if◌then◌else◌, ◌==◌, ltb,
}
use cargos_buildroot.Makedevs.System.{System, Entry}
use cargos_buildroot.Makedevs.Lines.{
  bb_get_chomped_line_from_file, my_getpwnam, my_getgrnam, get_ug_id, concat_path_file,
}
use cargos_buildroot.Makedevs.Entry.{enter}

-- What the loop keeps: the state of the file system, the full name of the last entry, and whether
-- `ret` is EXIT_SUCCESS.
pub record State (W : Type 0) : Type 0 where
  pub world : W
  pub full_name : Option Text
  pub ok : Bool

-- The five numbers joined by `|` exceed 0xfffff exactly if one of them does.
unfoldable pub is_too_large : Entry → Bool
is_too_large e =
    ltb 0xfffff e.major
    || ltb 0xfffff e.minor
    || ltb 0xfffff e.start
    || ltb 0xfffff e.count
    || ltb 0xfffff e.increment

-- `isspace` in the C locale.
abbrev pub isspace : ℕ → Bool
isspace c = c == 32 || (ltb 8 c && ltb c 14)

-- A line without an entry is passed by if it is empty, a comment, or starts with a space.
unfoldable pub is_blank : Text → Bool
is_blank [] = true
is_blank (c ∷ line) = c == b'#' || isspace c

abbrev pub is_comment : Text → Bool
is_comment [] = false
is_comment (c ∷ name) = c == b'#'

-- An empty field stands for the user or the group of the process; `none` is the exit of the program.
unfoldable pub id_or : (Text → Option ℕ) → (Text → Option ℕ) → ℕ → Text → Option ℕ
unfolding get_ug_id
id_or strtoul my_getxxnam own [] = some own
id_or strtoul my_getxxnam own (c ∷ s) = get_ug_id strtoul (c ∷ s) my_getxxnam

unfoldable pub gid_of : {W : Type 0} → System W → Entry → Option ℕ
unfolding id_or my_getgrnam
gid_of sys e = id_or sys.strtoul (my_getgrnam sys.groups) sys.gid e.group

unfoldable pub uid_of : {W : Type 0} → System W → Entry → Option ℕ
unfolding id_or my_getpwnam
uid_of sys e = id_or sys.strtoul (my_getpwnam sys.passwd) sys.uid e.user

unfoldable pub enter_entry : {W : Type 0} → System W → Text → Entry → State W → Option (State W)
unfolding gid_of uid_of enter concat_path_file
enter_entry sys rootdir e st = elim (gid_of sys e) [
  | none ↦ none
  | some gid ↦ elim (uid_of sys e) [
    | none ↦ none
    | some uid ↦
        let full_name = concat_path_file rootdir e.name in
        let (ok, w) = enter sys e full_name uid gid st.world in
        some (record { world = w; full_name = some full_name; ok = st.ok && ok })
  ]
]

unfoldable pub invalid_line : {W : Type 0} → Text → State W → State W
unfolding is_blank
invalid_line line st = if is_blank line then st else record st { ok = false }

-- With EXTENDED_ATTRIBUTES a capability goes to the last file; without them the program exits.
unfoldable pub enter_xattr : {W : Type 0} → Bool → System W → Text → State W → Option (State W)
enter_xattr false sys xattr st = none
enter_xattr true sys xattr st = elim st.full_name [
  | none ↦ none
  | some name ↦ elim (sys.bb_set_xattr name xattr st.world) [
    | none ↦ none
    | some w ↦ some (record st { world = w })
  ]
]

unfoldable pub read_entry : {W : Type 0} → System W → Text → Text → State W → Option (State W)
unfolding enter_entry invalid_line is_too_large
read_entry sys rootdir line st = elim (sys.sscanf_entry line) [
  | none ↦ some (invalid_line line st)
  | some e ↦
      if is_too_large e
      then some (invalid_line line st)
      else if is_comment e.name
      then some st
      else enter_entry sys rootdir e st
]

-- One line of the table; `none` is an exit of the program.
unfoldable pub read_line : {W : Type 0} → Bool → System W → Text → Text → State W → Option (State W)
unfolding enter_xattr read_entry
read_line extended sys rootdir line st = elim (sys.sscanf_xattr line) [
  | some xattr ↦ enter_xattr extended sys xattr st
  | none ↦ read_entry sys rootdir line st
]

-- The lines of the table, one byte at least each.
unfoldable pub table_lines : ℕ → Text → List Text
unfolding bb_get_chomped_line_from_file
table_lines zero file = []
table_lines (suc fuel) file = elim (bb_get_chomped_line_from_file file) [
  | none ↦ []
  | some (line, rest) ↦ line ∷ table_lines fuel rest
]

unfoldable pub read_lines :
    {W : Type 0} → Bool → System W → Text → List Text → State W → Option (State W)
unfolding read_line
read_lines extended sys rootdir [] st = some st
read_lines extended sys rootdir (line ∷ lines) st =
    read_line extended sys rootdir line st >>= read_lines extended sys rootdir lines

-- `main` behind the options, with the bytes of the table: the final state of the loop.
unfoldable pub main : {W : Type 0} → Bool → System W → Text → Text → W → Option (State W)
unfolding read_lines table_lines
main extended sys rootdir file w =
    read_lines extended sys rootdir (table_lines (suc (length file)) file)
      (record { world = w; full_name = none; ok = true })
