-- ===== src/Kconfig/Expand/Tests.antt =====
-- support/kconfig/symbol.c: the expansion of a string with two names, one of them unknown.
use cargos_buildroot.Base.{◌≡◌, refl, false, some, List, [], ◌∷◌, Text, text_eq, bytes}
use cargos_buildroot.Kconfig.Sample.{sample}
use cargos_buildroot.Kconfig.Table.{Table, sym_find, constant, find_entry, bucket}
use cargos_buildroot.Kconfig.Symbol.{sym_get_string_value}
use cargos_buildroot.Kconfig.Expand.{sym_expand_string_value, symval}
use cargos_buildroot.Kconfig.Expand.Laws.{template, filled, Holds, sym_expand_string_value_fills}

-- NET (5), in each list.
abbrev net_table : Table
net_table = record {
  symbol_hash = λ h.
      record {
        name = some (bytes "NET");
        flags = record { is_const = false; is_choice = false };
        address = 5;
      }
      ∷ [];
  next = 10;
}

abbrev pieces : List (Text × Text)
pieces = (bytes "NET", bytes "/") ∷ (bytes "BR2_VERSION", bytes ".conf") ∷ []

net_value : symval net_table (sample 1) (bytes "NET") ≡ bytes "y"
unfolding text_eq symval sym_get_string_value sym_find constant find_entry bucket
net_value = refl

sym_expand_string_value_fills_example :
    Holds
      (sym_expand_string_value net_table (sample 1) (template (bytes "dir-") pieces))
      (filled (symval net_table (sample 1)) (bytes "dir-") pieces)
sym_expand_string_value_fills_example =
    sym_expand_string_value_fills net_table (sample 1) (bytes "dir-") pieces refl refl
