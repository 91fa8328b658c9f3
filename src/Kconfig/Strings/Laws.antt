-- ===== src/Kconfig/Strings/Laws.antt =====
-- support/kconfig/symbol.c and confdata.c: a value that is written is read back.
use cargos_buildroot.Base.{
  ◌+◌, ◌≡◌, refl, Bool, true, false, Option, none, some, [], ◌∷◌, ◌++◌, Text, length, length-append,
  arith,
}
use cargos_buildroot.Kconfig.Symbol.{
  SymbolType, s_unknown, s_boolean, s_tristate, s_int, s_hex, s_string, s_other,
}
use cargos_buildroot.Kconfig.Strings.{
  is_special, escape, sym_escape_string_value, escape_size, unescape, sym_string_valid, Assigned,
  text_value, ignored, store_text, set_string, conf_set_sym_val, conf_write_symbol,
}

unescape-escape : (s rest : Text) → unescape false (escape s ++ (34 ∷ rest)) ≡ some s
unfolding unescape escape is_special
unescape-escape [] rest = refl
unescape-escape (c ∷ s) rest = ground (arith, unescape-escape s rest)

length-escape : (s : Text) → length (escape s) + 3 ≡ escape_size s
unfolding escape escape_size
length-escape [] = refl
length-escape (c ∷ s) = ground (arith, length-escape s)

-- The escaped string and its final NUL fill the buffer that was allocated for them.
pub length-sym_escape_string_value :
    (s : Text) → length (sym_escape_string_value s) + 1 ≡ escape_size s
unfolding sym_escape_string_value
length-sym_escape_string_value s =
    omega (arith, length-append (escape s) (34 ∷ []), length-escape s)

abbrev pub is_text : SymbolType → Bool
is_text s_int = true
is_text s_hex = true
is_text s_string = true
is_text s_unknown = false
is_text s_boolean = false
is_text s_tristate = false
is_text s_other = false

abbrev pub read_back : SymbolType → Option Text → Assigned
unfolding conf_set_sym_val
read_back type none = ignored
read_back type (some p) = conf_set_sym_val type p

-- The value of an int, hex or string symbol that is valid for its type is read back from what is
-- written for it, as the value of a symbol of this type.
pub conf_set_sym_val_recovers :
    (type : SymbolType) (v : Text)
    → is_text type ≡ true
    → sym_string_valid type v ≡ true
    → read_back type (conf_write_symbol type v) ≡ text_value type v
unfolding conf_set_sym_val conf_write_symbol sym_escape_string_value set_string store_text
conf_set_sym_val_recovers s_string v t h = rw (unescape-escape v []) refl
conf_set_sym_val_recovers s_int v t h = rw h refl
conf_set_sym_val_recovers s_hex v t h = rw h refl
conf_set_sym_val_recovers s_unknown v t h = ground arith
conf_set_sym_val_recovers s_boolean v t h = ground arith
conf_set_sym_val_recovers s_tristate v t h = ground arith
conf_set_sym_val_recovers s_other v t h = ground arith
