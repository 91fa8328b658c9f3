-- ===== src/Kconfig/Calc/Choice.antt =====
-- support/kconfig/symbol.c: the value of a choice.
pub mod Laws
use cargos_buildroot.Base.{
  ℕ, Bool, true, false, ◌&&◌, not, Option, none, some, List, [], ◌∷◌, if◌then◌else◌, ◌==◌,
}
use cargos_buildroot.Kconfig.Symbol.{Tristate, tri_no, Symbol, Store}
use cargos_buildroot.Kconfig.Expr.{Expr, e_symbol, expr_calc_value}
use cargos_buildroot.Kconfig.Calc.{Property}

-- `prop_get_symbol`: the symbol of an expression that is one. A list is no `Expr` here.
unfoldable pub prop_get_symbol : Expr → Option Symbol
prop_get_symbol (e_symbol s) = some s
prop_get_symbol _ = none

abbrev pub shown_symbol : (Symbol → Tristate) → Option Symbol → Option Symbol
shown_symbol visible none = none
shown_symbol visible (some s) = if visible s == tri_no then none else some s

abbrev pub or_else : Option Symbol → Option Symbol → Option Symbol
or_else none o = o
or_else (some s) o = some s

-- The loop over the defaults: the first default whose condition holds and whose symbol is visible. A default of a
-- choice names a symbol.
unfoldable pub default_symbol : Store → (Symbol → Tristate) → List Property → Option Symbol
unfolding expr_calc_value prop_get_symbol
default_symbol st visible [] = none
default_symbol st visible (p ∷ props) =
    let rest = default_symbol st visible props in
    if expr_calc_value st p.visible == tri_no
    then rest
    else or_else (shown_symbol visible (prop_get_symbol p.expr)) rest

unfoldable pub first_shown : (Symbol → Tristate) → List Symbol → Option Symbol
first_shown visible [] = none
first_shown visible (s ∷ values) =
    let rest = first_shown visible values in if visible s == tri_no then rest else some s

-- The values of the choice are given in the order of the list.
unfoldable pub sym_choice_default :
    Store → (Symbol → Tristate) → List Property → List Symbol → Option Symbol
unfolding default_symbol first_shown
sym_choice_default st visible props values =
    or_else (default_symbol st visible props) (first_shown visible values)

-- `sym_calc_choice` with `def[S_DEF_USER].val`, once the visibilities of the values are calculated; where
-- the result is `none`, the choice gets the value `n`.
unfoldable pub sym_calc_choice :
    Store → (Symbol → Tristate) → List Property → List Symbol → Option Symbol → Option Symbol
unfolding sym_choice_default
sym_calc_choice st visible props values user =
    or_else (shown_symbol visible user) (sym_choice_default st visible props values)

-- The loop that lets the flag SYMBOL_DEF_USER of the choice stand only if every visible value has it.
unfoldable pub keeps_user : (Symbol → Tristate) → (Symbol → Bool) → List Symbol → Bool → Bool
keeps_user visible has_value [] flag = flag
keeps_user visible has_value (s ∷ values) flag =
    keeps_user visible has_value values (if visible s == tri_no then flag else flag && has_value s)

-- The loop of `sym_set_tristate_value` over the values of the choice of a value that is set to y: the visible
-- ones get the flag SYMBOL_DEF_USER.
unfoldable pub mark_values : (Symbol → Tristate) → List Symbol → (Symbol → Bool) → Symbol → Bool
mark_values visible [] has_value = has_value
mark_values visible (s ∷ values) has_value =
    mark_values visible values
      (if visible s == tri_no then has_value else (λ t. if t == s then true else has_value t))
