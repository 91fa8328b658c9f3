-- ===== src/Kconfig/Range/Tests.antt =====
-- support/kconfig/symbol.c: a tristate option with a prompt, which another option selects as m.
use cargos_buildroot.Base.{◌≤◌, ◌≡◌, true, false, none, some, [], ◌∷◌, ◌||◌, ◌==◌, arith}
use cargos_buildroot.Kconfig.Symbol.{s_tristate, Tristate}
use cargos_buildroot.Kconfig.Range.{
  Conditions, Limits, sym_tristate_within_range, sym_toggle_tristate_value,
}
use cargos_buildroot.Kconfig.Range.Laws.{sym_toggle_tristate_value_ends}

abbrev selected : Conditions
selected = record {
  type = s_tristate;
  prompts = none ∷ [];
  dir_dep = none;
  rev_dep = none;
  is_choice_value = false;
}

abbrev at_least_mod : Limits
at_least_mod = record { visible = 2; dir_dep_tri = 2; rev_dep_tri = 1 }

sym_toggle_tristate_value_ends_example :
    (v : Tristate) × (sym_toggle_tristate_value selected at_least_mod 2 2 ≡ some v)
    × (v ≤ 2)
    × ((2 == v || sym_tristate_within_range selected at_least_mod 2 v) ≡ true)
sym_toggle_tristate_value_ends_example =
    sym_toggle_tristate_value_ends selected at_least_mod 2 2 (omega arith)
