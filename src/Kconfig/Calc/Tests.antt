-- ===== src/Kconfig/Calc/Tests.antt =====
-- support/kconfig/symbol.c: values of symbols that the user sets, and of symbols with a range.
use cargos_buildroot.Base.{
  ℕ, ◌+◌, ◌*◌, ◌-◌, ◌≡◌, ◌≢◌, refl, true, false, none, some, [], ◌∷◌, ◌++◌, ◌==◌, leb,
  if◌then◌else◌, Text, bytes, arith, pos, pos_part,
}
use cargos_buildroot.Kconfig.Symbol.{
  s_tristate, s_int, s_hex, Tristate, tri_no, Symbol, SymbolData, Store,
}
use cargos_buildroot.Kconfig.Expr.{e_symbol}
use cargos_buildroot.Kconfig.Sample.{sample}
use cargos_buildroot.Kconfig.Range.{Conditions, Limits, sym_get_type, sym_tristate_within_range}
use cargos_buildroot.Kconfig.Calc.{
  Property, UserValue, Assignment, calc_tristate, sym_set_tristate_value,
}
use cargos_buildroot.Kconfig.Calc.Laws.{calc_tristate-set}
use cargos_buildroot.Kconfig.Calc.Choice.{sym_calc_choice}
use cargos_buildroot.Kconfig.Calc.Choice.Laws.{sym_calc_choice_shows}
use cargos_buildroot.Kconfig.Calc.Number.{
  sym_get_range_prop, sym_get_range_val, Numbers, RangeProperty, within, sym_validate_range,
  sym_set_string_value, calc_string, stored, sym_string_within_range,
}
use cargos_buildroot.Kconfig.Calc.Number.Laws.{
  text_after, sym_set_string_value_kept, sym_validate_range-within,
}

-- A tristate option that defaults to the value of the symbol 5.
abbrev driver : Conditions
driver = record {
  type = s_tristate;
  prompts = none ∷ [];
  dir_dep = none;
  rev_dep = none;
  is_choice_value = false;
}

abbrev driver_default : Property
driver_default = record { visible = some (e_symbol 4); expr = e_symbol 5 }

abbrev at_least_mod : Limits
at_least_mod = record { visible = 2; dir_dep_tri = 2; rev_dep_tri = 1 }

calc_tristate-set_example :
    (a : Assignment) × (sym_set_tristate_value driver at_least_mod 2 2 1 ≡ some a)
    × ((calc_tristate
          (sample 1)
          driver
          at_least_mod
          2
          false
          (driver_default ∷ [])
          a.user
          false
          a.chooses).tri
        ≡ 1)
unfolding sym_tristate_within_range sym_get_type
calc_tristate-set_example =
    calc_tristate-set driver at_least_mod 2 (sample 1) false false (driver_default ∷ []) 2 1 refl

abbrev unset_by_user : UserValue
unset_by_user = record { has_value = false; tri = 0 }

abbrev shows_five : Symbol → Tristate
shows_five s = if s == 5 then 2 else 0

sym_calc_choice_shows_example :
    (t : Symbol) × (sym_calc_choice
        (sample 1)
        shows_five
        (driver_default ∷ [])
        (4 ∷ 5 ∷ [])
        (some 4)
      ≡ some t)
    × (shows_five t ≢ tri_no)
sym_calc_choice_shows_example =
    sym_calc_choice_shows shows_five (sample 1) (driver_default ∷ []) (4 ∷ 5 ∷ []) (some 4) 5 refl
      (omega arith)

-- Numbers without a sign: digits of both cases, with x left out; one digit is printed.
abbrev digit : ℕ → ℕ
digit c = if leb c 57 then c - 48 else (if leb c 70 then c - 55 else c - 87)

abbrev digits : ℕ → ℕ → Text → ℕ
digits base acc [] = acc
digits base acc (c ∷ s) = digits base (if c == b'x' then acc else acc * base + digit c) s

abbrev small_numbers : Numbers
small_numbers = record {
  strtoll = λ s base. pos (digits base 0 s);
  print_decimal = λ v. (48 + pos_part v) ∷ [];
  print_hex = λ v. bytes "0x" ++ ((48 + pos_part v) ∷ []);
}

-- The ends of a range are the symbols 6 and 7.
abbrev end_symbols : Symbol → SymbolData
end_symbols s = record {
  name = none;
  type = s_int;
  curr_val = if s == 6 then "2" else "9";
  curr_tri = 0;
  is_const = true;
}

abbrev ends : Store
ends = record { symbols = end_symbols; modules_sym = 3 }

abbrev from_2_to_9 : RangeProperty
from_2_to_9 = record { visible = none; low = 6; high = 7 }

sym_validate_range-within_example :
    within small_numbers ends 10
      (some from_2_to_9)
      (sym_validate_range small_numbers ends s_int (from_2_to_9 ∷ []) (bytes "12"))
    ≡ true
unfolding sym_get_range_prop sym_get_range_val
sym_validate_range-within_example =
    sym_validate_range-within small_numbers ends s_int (from_2_to_9 ∷ []) from_2_to_9 (bytes "12")
      (omega arith) refl refl refl refl

-- An address that the user sets.
abbrev address : Conditions
address = record {
  type = s_hex;
  prompts = none ∷ [];
  dir_dep = none;
  rev_dep = none;
  is_choice_value = false;
}

sym_set_string_value_kept_example :
    sym_validate_range small_numbers ends s_hex (from_2_to_9 ∷ []) (
      calc_string ends 2 [] (
        text_after none (
          sym_set_string_value small_numbers ends address at_least_mod 2
            (from_2_to_9 ∷ [])
            0
            none
            (bytes "7"))))
    ≡ stored s_hex (bytes "7")
unfolding sym_string_within_range sym_get_range_prop sym_get_range_val
sym_set_string_value_kept_example =
    sym_set_string_value_kept small_numbers ends address at_least_mod 2 0 (from_2_to_9 ∷ []) [] none
      (bytes "7") (λ t h. refl) refl (omega arith) refl
