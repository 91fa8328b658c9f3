-- ===== src/Kconfig/Strings/Tests.antt =====
-- support/kconfig/symbol.c and confdata.c: strings that are written and read.
use cargos_buildroot.Base.{◌+◌, ◌≡◌, refl, [], ◌∷◌, Text, length}
use cargos_buildroot.Kconfig.Symbol.{s_other}
use cargos_buildroot.Kconfig.Strings.{
  sym_string_valid, sym_escape_string_value, escape, is_special, escape_size, conf_set_sym_val,
  set_other, unescape, rejected, store_text,
}
use cargos_buildroot.Kconfig.Strings.Laws.{length-sym_escape_string_value}

-- The three bytes a, quote, backslash.
abbrev sample : Text
sample = 97 ∷ 34 ∷ 92 ∷ []

length-sym_escape_string_value_example :
    length (sym_escape_string_value sample) + 1 ≡ escape_size sample
length-sym_escape_string_value_example = length-sym_escape_string_value sample

-- A quoted value of a symbol without a type is refused.
set_other_quoted : conf_set_sym_val s_other (34 ∷ 97 ∷ 34 ∷ []) ≡ rejected
unfolding conf_set_sym_val set_other unescape sym_string_valid store_text
set_other_quoted = refl

sym_escape_string_value_run :
    sym_escape_string_value sample ≡ (34 ∷ 97 ∷ 92 ∷ 34 ∷ 92 ∷ 92 ∷ 34 ∷ [])
unfolding sym_escape_string_value escape is_special
sym_escape_string_value_run = refl
