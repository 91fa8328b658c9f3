-- ===== src/Kconfig/Config/Write.antt =====
-- support/kconfig/confdata.c: the text that is written for the symbols: .config, autoconf.h and
-- tristate.conf.
use cargos_buildroot.Base.{
  ℕ, ◌-◌, Bool, true, false, ◌&&◌, ◌||◌, not, none, some, List, [], ◌∷◌, ◌++◌, Text, bytes, take,
  if◌then◌else◌, ◌==◌, leb,
}
use cargos_buildroot.Kconfig.Symbol.{SymbolType, s_tristate, s_int, s_hex, s_string}
use cargos_buildroot.Kconfig.Strings.{conf_write_symbol}
use cargos_buildroot.Kconfig.Calc.Number.{has_prefix, is_logical}
use cargos_buildroot.Kconfig.Config.Line.{not_set}

abbrev pub starts_by : ℕ → Text → Bool
starts_by c [] = false
starts_by c (d ∷ s) = d == c

-- `skip_unset` is that the argument of the printer is not NULL.
unfoldable pub kconfig_print_symbol : Text → Bool → Text → SymbolType → Text → Text
kconfig_print_symbol prefix skip_unset name type value =
    if is_logical type && starts_by b'n' value
    then (if skip_unset
        then []
        else bytes "# " ++ (prefix ++ (name ++ (32 ∷ (not_set ++ (b'\n' ∷ []))))))
    else prefix ++ (name ++ (b'=' ∷ (value ++ (b'\n' ∷ []))))

abbrev pub define : Text → Text → Text → Text
define prefix name tail = bytes "#define " ++ (prefix ++ (name ++ (tail ++ (b'\n' ∷ []))))

-- The line of autoconf.h; none for a symbol that is `n`.
unfoldable pub header_print_symbol : Text → Text → SymbolType → Text → Text
unfolding has_prefix
header_print_symbol prefix name s_hex value =
    define prefix name (32 ∷ ((if has_prefix value then [] else bytes "0x") ++ value))
header_print_symbol prefix name s_string value = define prefix name (32 ∷ value)
header_print_symbol prefix name s_int value = define prefix name (32 ∷ value)
header_print_symbol prefix name type value =
    if not (is_logical type) || starts_by b'n' value
    then []
    else define prefix name ((if starts_by b'm' value then bytes "_MODULE" else []) ++ bytes " 1")

-- `toupper` of a byte in ASCII.
abbrev pub toupper : ℕ → ℕ
toupper c = if leb 97 c && leb c 122 then c - 32 else c

abbrev pub first_upper : Text → Text
first_upper [] = 0 ∷ []
first_upper (c ∷ s) = toupper c ∷ []

abbrev pub is_s_tristate : SymbolType → Bool
is_s_tristate s_tristate = true
is_s_tristate _ = false

unfoldable pub tristate_print_symbol : Text → Text → SymbolType → Text → Text
tristate_print_symbol prefix name type value =
    if is_s_tristate type && not (starts_by b'n' value)
    then prefix ++ (name ++ (b'=' ∷ (first_upper value ++ (b'\n' ∷ []))))
    else []

-- The loop of `kconfig_print_comment` and, with ` *` for `#`, of `header_print_comment`: each line of the text
-- behind a mark, with a space if it is not empty. `open` is that the line has its mark and space.
unfoldable pub comment_lines : Text → Bool → Text → Text
comment_lines mark true [] = b'\n' ∷ []
comment_lines mark false [] = mark ++ (b'\n' ∷ [])
comment_lines mark true (c ∷ s) =
    if c == b'\n' then b'\n' ∷ comment_lines mark false s else c ∷ comment_lines mark true s
comment_lines mark false (c ∷ s) =
    if c == b'\n'
    then mark ++ (b'\n' ∷ comment_lines mark false s)
    else mark ++ (32 ∷ c ∷ comment_lines mark true s)

unfoldable pub kconfig_print_comment : Text → Text
unfolding comment_lines
kconfig_print_comment = comment_lines (bytes "#") false

unfoldable pub header_print_comment : Text → Text
unfolding comment_lines
header_print_comment value =
    bytes "/*"
    ++ (b'\n' ∷ (comment_lines (bytes " *") false value ++ (bytes " */" ++ (b'\n' ∷ []))))

-- The buffer has 256 bytes.
unfoldable pub conf_write_heading : (Text → Text) → Text → Text
conf_write_heading print_comment title = print_comment (
    take 255 (
      b'\n'
      ∷ (bytes "Automatically generated file; DO NOT EDIT." ++ (b'\n' ∷ (title ++ (b'\n' ∷ []))))))

-- The text for a symbol by one of the printers, with its string value.
unfoldable pub print_symbol : (SymbolType → Text → Text) → SymbolType → Text → Text
unfolding conf_write_symbol
print_symbol printer type str = elim (conf_write_symbol type str) [
  | none ↦ []
  | some v ↦ printer type v
]

-- The symbols that are written, in the order of the menus.
pub record Item : Type 0 where
  pub name : Text
  pub type : SymbolType
  pub str : Text

-- An entry of the menu, in the order of the loop of `conf_write`: a comment or menu that may be visible, a choice, or a
-- symbol with its flag SYMBOL_WRITE.
pub data MenuEntry : Type 0 where
  heading : Bool → Text → MenuEntry
  choice : MenuEntry
  option : Bool → Item → MenuEntry

abbrev pub write_item : Text → Item → Text
write_item prefix i = print_symbol (kconfig_print_symbol prefix false i.name) i.type i.str

unfoldable pub write_entry : Text → MenuEntry → Text
unfolding print_symbol kconfig_print_symbol
write_entry prefix (heading false prompt) = []
write_entry prefix (heading true prompt) =
    b'\n'
    ∷ (bytes "#" ++ (b'\n' ∷ (bytes "# " ++ (prompt ++ (b'\n' ∷ (bytes "#" ++ (b'\n' ∷ [])))))))
write_entry prefix choice = []
write_entry prefix (option false i) = []
write_entry prefix (option true i) = write_item prefix i

unfoldable pub write_entries : Text → List MenuEntry → Text
unfolding write_entry
write_entries prefix [] = []
write_entries prefix (e ∷ entries) = write_entry prefix e ++ write_entries prefix entries

-- The file that `conf_write` writes.
unfoldable pub conf_write : Text → Text → List MenuEntry → Text
unfolding write_entries conf_write_heading kconfig_print_comment
conf_write prefix title entries =
    conf_write_heading kconfig_print_comment title ++ write_entries prefix entries
