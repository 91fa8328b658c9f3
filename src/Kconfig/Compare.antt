-- ===== src/Kconfig/Compare.antt =====
-- support/kconfig/expr.c: `expr_trans_compare`, which turns "the value of e is sym" into an
-- expression.
pub mod Meaning
use cargos_buildroot.Base.{Bool, true, false, Option, none, some, if◌then◌else◌, ◌==◌, ◌>>=◌}
use cargos_buildroot.Kconfig.Symbol.{Symbol, symbol_no, symbol_mod, symbol_yes}
use cargos_buildroot.Kconfig.Expr.{Expr, e_symbol, e_not, e_equal, e_unequal, e_or, e_and}

-- The argument `type`: E_EQUAL or E_UNEQUAL.
pub data Comparison : Type 0 where
  equal unequal : Comparison

abbrev pub opposite : Comparison → Comparison
opposite equal = unequal
opposite unequal = equal

-- `if (type == E_UNEQUAL) e = expr_alloc_one(E_NOT, e)`
abbrev pub negate_if : Comparison → Expr → Expr
negate_if equal e = e
negate_if unequal e = e_not e

abbrev pub negated : Comparison → Option Expr → Option Expr
negated type none = none
negated type (some e) = some (negate_if type e)

abbrev pub compare_symbol : Comparison → Symbol → Symbol → Expr
compare_symbol equal a b = e_equal a b
compare_symbol unequal a b = e_unequal a b

-- A comparison `e` of strings, compared itself; it is never `m`. NULL for any other symbol.
unfoldable pub compare_comparison : Comparison → Symbol → Expr → Option Expr
compare_comparison equal sym e =
    if sym == symbol_yes
    then some e
    else if sym == symbol_mod
    then some (e_symbol symbol_no)
    else if sym == symbol_no
    then some (e_not e)
    else none
compare_comparison unequal sym e =
    if sym == symbol_yes
    then some (e_not e)
    else if sym == symbol_mod
    then some (e_symbol symbol_yes)
    else if sym == symbol_no
    then some e
    else none

-- A conjunction is `y` if both sides are, and `n` if one is; for any other symbol it is returned as
-- it stands. Only for such a symbol may a side be NULL, and it is not used then.
abbrev pub both : (Expr → Expr → Expr) → Option Expr → Option Expr → Option Expr
both node e1 e2 = do some (node (← e1) (← e2))

unfoldable pub compare_and : Symbol → Expr → Option Expr → Option Expr → Option Expr
compare_and sym e e1 e2 =
    if sym == symbol_yes
    then both e_and e1 e2
    else if sym == symbol_no
    then both e_or e1 e2
    else some e

unfoldable pub compare_or : Symbol → Expr → Option Expr → Option Expr → Option Expr
compare_or sym e e1 e2 =
    if sym == symbol_yes
    then both e_or e1 e2
    else if sym == symbol_no
    then both e_and e1 e2
    else some e

unfoldable pub trans_compare : Expr → Comparison → Symbol → Option Expr
unfolding compare_comparison compare_and compare_or
trans_compare (e_and l r) type sym =
    negated type
      (compare_and sym (e_and l r) (trans_compare l equal sym) (trans_compare r equal sym))
trans_compare (e_or l r) type sym =
    negated type (compare_or sym (e_or l r) (trans_compare l equal sym) (trans_compare r equal sym))
trans_compare (e_not e) type sym = trans_compare e (opposite type) sym
trans_compare (e_equal a b) type sym = compare_comparison type sym (e_equal a b)
trans_compare (e_unequal a b) type sym = compare_comparison type sym (e_unequal a b)
trans_compare (e_symbol s) type sym = some (compare_symbol type s sym)

unfoldable pub expr_trans_compare : Option Expr → Comparison → Symbol → Option Expr
unfolding trans_compare
expr_trans_compare none type sym = some (negate_if type (e_symbol sym))
expr_trans_compare (some e) type sym = trans_compare e type sym
