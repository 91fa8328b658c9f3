-- ===== src/Kconfig/Calc.antt =====
-- support/kconfig/symbol.c: the value of a boolean or tristate symbol, as `sym_calc_value` computes it
-- from the values of the symbols that it depends on, and as the user sets it.
pub mod Choice
pub mod Number
pub mod Laws
mod Tests
use cargos_buildroot.Base.{
  ℕ, Bool, true, false, ◌&&◌, ◌||◌, not, Option, none, some, List, [], ◌∷◌, if◌then◌else◌, ◌==◌,
}
use cargos_buildroot.Kconfig.Symbol.{
  SymbolType, s_boolean, s_tristate, Tristate, tri_no, tri_mod, tri_yes, expr_or, expr_and, Symbol,
  Store,
}
use cargos_buildroot.Kconfig.Expr.{Expr, e_symbol, value, expr_calc_value}
use cargos_buildroot.Kconfig.Range.{
  Conditions, Limits, is_boolean_type, sym_get_type, sym_tristate_within_range,
}

-- A property of the type P_DEFAULT or P_RANGE, with its condition. The `expr` of a default is not NULL.
pub record Property : Type 0 where
  pub visible : Option Expr
  pub expr : Expr

-- The first property whose condition is not `n`, with the value of the condition.
unfoldable pub sym_get_default_prop : Store → List Property → Option (Property × Tristate)
unfolding expr_calc_value
sym_get_default_prop st [] = none
sym_get_default_prop st (p ∷ props) =
    let tri = expr_calc_value st p.visible in
    let rest = sym_get_default_prop st props in if tri == tri_no then rest else some (p, tri)

-- `def[S_DEF_USER].tri`, and the flag SYMBOL_DEF_USER.
pub record UserValue : Type 0 where
  pub has_value : Bool
  pub tri : Tristate

-- The value, the flag SYMBOL_WRITE, and whether the warning about an unmet dependency is printed.
pub record Calculated : Type 0 where
  pub tri : Tristate
  pub write : Bool
  pub warns : Bool

unfoldable pub default_value : Store → Option (Property × Tristate) → Tristate
unfolding value
default_value st none = tri_no
default_value st (some (p, tri)) = expr_and (value st p.expr) tri

abbrev pub is_some : Option (Property × Tristate) → Bool
is_some none = false
is_some (some p) = true

-- A choice takes no default.
unfoldable pub default_of : Store → Bool → List Property → Option (Property × Tristate)
unfolding sym_get_default_prop
default_of st true props = none
default_of st false props = sym_get_default_prop st props

-- `newval.tri` at the label `calc_newval`.
unfoldable pub own_value : Store → Bool → List Property → UserValue → Tristate → Tristate
unfolding default_of default_value
own_value st is_choice props user visible =
    if not (visible == tri_no) && user.has_value
    then expr_and user.tri visible
    else default_value st (default_of st is_choice props)

-- SYMBOL_WRITE at the same place, from its value before.
unfoldable pub own_write : Store → Bool → List Property → UserValue → Limits → Bool → Bool
unfolding default_of
own_write st is_choice props user l write =
    let shown = not (l.visible == tri_no) in
    if shown && user.has_value
    then true
    else write || shown || not (l.rev_dep_tri == tri_no) || is_some (default_of st is_choice props)

abbrev pub no_mod : Bool → Tristate → Tristate
no_mod boolean tri = if tri == tri_mod && boolean then tri_yes else tri

-- The cases S_BOOLEAN and S_TRISTATE of `sym_calc_value`, after `sym_calc_visibility` has given the limits.
-- `write` is SYMBOL_WRITE before, which is off unless the symbol is the value of a choice, and
-- `chosen` tells whether the choice has this symbol as its value.
unfoldable pub calc_tristate :
    Store
    → Conditions
    → Limits
    → Tristate
    → Bool
    → List Property
    → UserValue
    → Bool
    → Bool
    → Calculated
calc_tristate st c l modules_val is_choice props user write chosen =
    let boolean = is_boolean_type (sym_get_type c l.visible modules_val) in
    if c.is_choice_value && l.visible == tri_yes
    then record {
      tri = no_mod boolean (if chosen then tri_yes else tri_no);
      write = write;
      warns = false;
    }
    else record {
      tri = no_mod boolean (expr_or (own_value st is_choice props user l.visible) l.rev_dep_tri);
      write = own_write st is_choice props user l write;
      warns = l.dir_dep_tri == tri_no && not (l.rev_dep_tri == tri_no);
    }

-- What `sym_set_tristate_value` does where it returns true: the user's value, whether the choice of the symbol
-- takes it as its value, and whether `sym_clear_all_valid` is called.
pub record Assignment : Type 0 where
  pub user : UserValue
  pub chooses : Bool
  pub clears : Bool

-- `none` is the result false, with nothing changed; `oldval` is the value so far.
unfoldable pub sym_set_tristate_value :
    Conditions → Limits → Tristate → Tristate → Tristate → Option Assignment
unfolding sym_tristate_within_range
sym_set_tristate_value c l modules_val oldval val =
    if not (oldval == val) && not (sym_tristate_within_range c l modules_val val)
    then none
    else some (record {
      user = record { has_value = true; tri = val };
      chooses = c.is_choice_value && val == tri_yes;
      clears = not (oldval == val);
    })

-- `val` in `sym_get_string_default`, for the boolean and tristate types.
unfoldable pub default_tristate : Store → Conditions → Limits → Tristate → List Property → Tristate
unfolding sym_get_default_prop default_value is_boolean_type
default_tristate st c l modules_tri props =
    let val = expr_or (default_value st (sym_get_default_prop st props)) l.rev_dep_tri in
    let lowered =
      if val == tri_mod && (not c.is_choice_value && modules_tri == tri_no) then tri_yes else val in
    if is_boolean_type c.type && lowered == tri_mod then tri_yes else lowered
