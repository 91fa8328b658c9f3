-- ===== src/Kconfig/Transform.antt =====
-- support/kconfig/expr.c: `expr_transform`, which pushes negations to the symbols. It calls itself on
-- what it has just rewritten, so it runs on fuel; the weight of the expression is enough.
pub mod Normal
pub mod Meaning
use cargos_buildroot.Base.{
  ℕ, zero, suc, ◌+◌, ◌*◌, Bool, true, false, ◌&&◌, ◌||◌, Option, none, some, if◌then◌else◌, ◌==◌,
  ◌>>=◌,
}
use cargos_buildroot.Kconfig.Symbol.{
  Symbol, symbol_no, symbol_mod, symbol_yes, Store, SymbolType, s_boolean, type_of,
}
use cargos_buildroot.Kconfig.Expr.{Expr, e_symbol, e_not, e_equal, e_unequal, e_or, e_and}

abbrev pub is_boolean : SymbolType → Bool
is_boolean s_boolean = true
is_boolean _ = false

-- A comparison of a boolean symbol with a constant. A test for `m` is reported and decided.
unfoldable pub transform_equal : Store → Symbol → Symbol → Expr
transform_equal st a b =
    if is_boolean (type_of st a)
    then if b == symbol_no
      then e_not (e_symbol a)
      else if b == symbol_mod
      then e_symbol symbol_no
      else if b == symbol_yes
      then e_symbol a
      else e_equal a b
    else e_equal a b

unfoldable pub transform_unequal : Store → Symbol → Symbol → Expr
transform_unequal st a b =
    if is_boolean (type_of st a)
    then if b == symbol_no
      then e_symbol a
      else if b == symbol_mod
      then e_symbol symbol_yes
      else if b == symbol_yes
      then e_not (e_symbol a)
      else e_unequal a b
    else e_unequal a b

unfoldable pub negate_symbol : Symbol → Expr
negate_symbol s =
    if s == symbol_yes
    then e_symbol symbol_no
    else if s == symbol_mod
    then e_symbol symbol_mod
    else if s == symbol_no
    then e_symbol symbol_yes
    else e_not (e_symbol s)

-- The case E_NOT, on the child that is already transformed.
unfoldable pub transform_not : (Expr → Option Expr) → Expr → Option Expr
unfolding negate_symbol
transform_not go (e_not a) = go a
transform_not go (e_equal a b) = some (e_unequal a b)
transform_not go (e_unequal a b) = some (e_equal a b)
transform_not go (e_or a b) = go (e_and (e_not a) (e_not b))
transform_not go (e_and a b) = go (e_or (e_not a) (e_not b))
transform_not go (e_symbol s) = some (negate_symbol s)

unfoldable pub transform_step : Store → (Expr → Option Expr) → Expr → Option Expr
unfolding transform_equal transform_unequal transform_not
transform_step st go (e_equal a b) = some (transform_equal st a b)
transform_step st go (e_unequal a b) = some (transform_unequal st a b)
transform_step st go (e_symbol s) = some (e_symbol s)
transform_step st go (e_and l r) = do l' ← go l; r' ← go r; some (e_and l' r')
transform_step st go (e_or l r) = do l' ← go l; r' ← go r; some (e_or l' r')
transform_step st go (e_not e) = do e' ← go e; transform_not go e'

unfoldable pub transform_fuel : Store → ℕ → Expr → Option Expr
transform_fuel st zero e = none
transform_fuel st (suc f) e = transform_step st (transform_fuel st f) e

-- A negation counts double, since pushing it inwards copies it.
unfoldable pub weight : Expr → ℕ
weight (e_symbol s) = 1
weight (e_not e) = 2 * weight e
weight (e_equal a b) = 2
weight (e_unequal a b) = 2
weight (e_or l r) = suc (weight l + weight r)
weight (e_and l r) = suc (weight l + weight r)

abbrev pub or_same : Expr → Option Expr → Expr
or_same e none = e
or_same e (some e') = e'

unfoldable pub expr_transform : Store → Expr → Expr
unfolding transform_fuel transform_step weight
expr_transform st e = or_same e (transform_fuel st (weight e) e)
