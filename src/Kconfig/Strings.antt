-- ===== src/Kconfig/Strings.antt =====
-- support/kconfig/symbol.c and confdata.c: the strings of symbols, which strings are valid, and how
-- they are written to and read from a configuration.
pub mod Laws
mod Tests
use cargos_buildroot.Base.{
  ℕ, suc, ◌+◌, Bool, true, false, ◌&&◌, ◌||◌, Option, none, some, List, [], ◌∷◌, ◌++◌, Text, bytes,
  if◌then◌else◌, ◌==◌, leb,
}
use cargos_buildroot.Kconfig.Symbol.{
  SymbolType, s_unknown, s_boolean, s_tristate, s_int, s_hex, s_string, s_other, Tristate, tri_no,
  tri_mod, tri_yes,
}

-- The bytes `"` and `\`.
unfoldable pub is_special : ℕ → Bool
is_special c = c == 34 || c == 92

unfoldable pub escape : Text → Text
unfolding is_special
escape [] = []
escape (c ∷ p) = if is_special c then 92 ∷ c ∷ escape p else c ∷ escape p

unfoldable pub sym_escape_string_value : Text → Text
unfolding escape
sym_escape_string_value s = 34 ∷ (escape s ++ (34 ∷ []))

-- `reslen` after its first loop.
unfoldable pub escape_size : Text → ℕ
unfolding is_special
escape_size [] = 3
escape_size (c ∷ p) = if is_special c then suc (suc (escape_size p)) else suc (escape_size p)

-- The loop of `conf_set_sym_val` behind the opening quote: up to a quote, a backslash is taken out and
-- the byte behind it, with the test `true`, is kept. `none` is a string without a closing quote;
-- behind a backslash at the end, where the code reads on past the NUL, it is `none` too.
abbrev pub keep : ℕ → Option Text → Option Text
keep c none = none
keep c (some s) = some (c ∷ s)

unfoldable pub unescape : Bool → Text → Option Text
unescape quoted [] = none
unescape true (c ∷ p) = keep c (unescape false p)
unescape false (c ∷ p) =
    let escaped = unescape true p in
    let next = unescape false p in
    if c == 34 then some [] else if c == 92 then escaped else keep c next

unfoldable pub isdigit : ℕ → Bool
isdigit c = leb 48 c && leb c 57

unfoldable pub isxdigit : ℕ → Bool
unfolding isdigit
isxdigit c = isdigit c || (leb 65 c && leb c 70) || (leb 97 c && leb c 102)

abbrev pub all_bytes : (ℕ → Bool) → Text → Bool
all_bytes p [] = true
all_bytes p (c ∷ s) = p c && all_bytes p s

-- The cases S_INT, behind the sign, and S_HEX, behind the prefix.
unfoldable pub is_decimal : Text → Bool
unfolding isdigit
is_decimal [] = false
is_decimal (c ∷ []) = isdigit c
is_decimal (c ∷ d ∷ s) = if c == 48 then false else all_bytes isdigit (c ∷ d ∷ s)

unfoldable pub is_int : Text → Bool
unfolding is_decimal
is_int [] = false
is_int (c ∷ s) = if c == 45 then is_decimal s else is_decimal (c ∷ s)

unfoldable pub is_hex_digits : Text → Bool
unfolding isxdigit
is_hex_digits [] = false
is_hex_digits (c ∷ s) = all_bytes isxdigit (c ∷ s)

unfoldable pub is_hex : Text → Bool
unfolding is_hex_digits
is_hex (a ∷ b ∷ s) =
    if a == 48 && (b == 120 || b == 88) then is_hex_digits s else is_hex_digits (a ∷ b ∷ s)
is_hex s = is_hex_digits s

unfoldable pub is_letter : Text → Bool
is_letter [] = false
is_letter (c ∷ s) = c == b'y' || c == b'Y' || c == b'm' || c == b'M' || c == b'n' || c == b'N'

unfoldable pub sym_string_valid : SymbolType → Text → Bool
unfolding is_int is_hex is_letter
sym_string_valid s_string str = true
sym_string_valid s_int str = is_int str
sym_string_valid s_hex str = is_hex str
sym_string_valid s_boolean str = is_letter str
sym_string_valid s_tristate str = is_letter str
sym_string_valid s_unknown str = false
sym_string_valid s_other str = false

-- What `conf_set_sym_val` does: it stores a tristate or a string, with the type that the symbol
-- then has; it leaves the symbol as it is; or it refuses the value and returns 1.
pub data Assigned : Type 0 where
  tri_value : Tristate → Assigned
  text_value : SymbolType → Text → Assigned
  ignored rejected : Assigned

abbrev pub store_text : SymbolType → Text → Assigned
unfolding sym_string_valid
store_text type str = if sym_string_valid type str then text_value type str else rejected

abbrev pub store_read : SymbolType → Option Text → Assigned
store_read type none = rejected
store_read type (some str) = store_text type str

unfoldable pub set_boolean : Text → Assigned
set_boolean [] = rejected
set_boolean (c ∷ p) =
    if c == b'y' then tri_value tri_yes else if c == b'n' then tri_value tri_no else rejected

unfoldable pub set_tristate : Text → Assigned
unfolding set_boolean
set_tristate [] = rejected
set_tristate (c ∷ p) = if c == b'm' then tri_value tri_mod else set_boolean (c ∷ p)

unfoldable pub set_string : Text → Assigned
unfolding unescape
set_string [] = ignored
set_string (c ∷ p) = if c == 34 then store_read s_string (unescape false p) else ignored

unfoldable pub set_other : Text → Assigned
unfolding unescape
set_other [] = store_text s_string []
set_other (c ∷ p) =
    if c == 34 then store_read s_other (unescape false p) else store_text s_string (c ∷ p)

unfoldable pub conf_set_sym_val : SymbolType → Text → Assigned
unfolding set_boolean set_tristate set_string set_other
conf_set_sym_val s_tristate p = set_tristate p
conf_set_sym_val s_boolean p = set_boolean p
conf_set_sym_val s_other p = set_other p
conf_set_sym_val s_string p = set_string p
conf_set_sym_val s_int p = store_text s_int p
conf_set_sym_val s_hex p = store_text s_hex p
conf_set_sym_val s_unknown p = ignored

-- The text that `conf_write_symbol` prints for a symbol with this string value; nothing for S_OTHER
-- and S_UNKNOWN.
unfoldable pub conf_write_symbol : SymbolType → Text → Option Text
unfolding sym_escape_string_value
conf_write_symbol s_other str = none
conf_write_symbol s_unknown str = none
conf_write_symbol s_string str = some (sym_escape_string_value str)
conf_write_symbol s_boolean str = some str
conf_write_symbol s_tristate str = some str
conf_write_symbol s_int str = some str
conf_write_symbol s_hex str = some str
