-- ===== src/Kconfig/Join.antt =====
-- support/kconfig/expr.c: `expr_join_or` and `expr_join_and`, which replace two operands by one.
-- `none` is the result NULL: the operands stay.
pub mod Sound
use cargos_buildroot.Base.{
  ℕ, Bool, true, false, ◌&&◌, ◌||◌, Option, none, some, if◌then◌else◌, ◌==◌, ◌>>=◌,
}
use cargos_buildroot.Kconfig.Symbol.{
  Symbol, symbol_no, symbol_mod, symbol_yes, Store, SymbolType, s_boolean, s_tristate, type_of,
}
use cargos_buildroot.Kconfig.Expr.{
  Expr, e_symbol, e_not, e_equal, e_unequal, e_or, e_and, is_tristate,
}
use cargos_buildroot.Kconfig.Equality.{expr_eq}

-- The symbol of the first operand, if it has a form that the rules look at.
unfoldable pub first_symbol : Expr → Option Symbol
first_symbol (e_equal a b) = some a
first_symbol (e_unequal a b) = some a
first_symbol (e_symbol s) = some s
first_symbol (e_not (e_equal a b)) = some a
first_symbol (e_not (e_unequal a b)) = some a
first_symbol (e_not (e_symbol s)) = some s
first_symbol _ = none

-- The symbol of the second one: a negated comparison is not accepted here.
unfoldable pub second_symbol : Expr → Option Symbol
second_symbol (e_equal a b) = some a
second_symbol (e_unequal a b) = some a
second_symbol (e_symbol s) = some s
second_symbol (e_not (e_symbol s)) = some s
second_symbol _ = none

abbrev pub is_logical : SymbolType → Bool
is_logical s_boolean = true
is_logical s_tristate = true
is_logical _ = false

-- Both operands are about one boolean or tristate symbol.
unfoldable pub common_symbol : Store → Expr → Expr → Option Symbol
unfolding first_symbol second_symbol
common_symbol st e1 e2 = do
  sym1 ← first_symbol e1
  sym2 ← second_symbol e2
  if sym1 == sym2 && is_logical (type_of st sym1) then some sym1 else none

-- `e->type == E_SYMBOL`, and its negation.
unfoldable pub is_plain : Expr → Bool
is_plain (e_symbol s) = true
is_plain _ = false

unfoldable pub is_negated : Expr → Bool
is_negated (e_not (e_symbol s)) = true
is_negated _ = false

-- `e->type == E_EQUAL && e->right.sym == sym`
unfoldable pub is_equal_to : Symbol → Expr → Bool
is_equal_to sym (e_equal a b) = b == sym
is_equal_to sym _ = false

unfoldable pub is_unequal_to : Symbol → Expr → Bool
is_unequal_to sym (e_unequal a b) = b == sym
is_unequal_to sym _ = false

-- A test of both operands, in either order.
abbrev pub either : (Expr → Bool) → (Expr → Bool) → Expr → Expr → Bool
either p q e1 e2 = (p e1 && q e2) || (q e1 && p e2)

unfoldable pub join_or_tristate : Symbol → Expr → Expr → Option Expr
unfolding is_equal_to
join_or_tristate s e1 e2 =
    if either (is_equal_to symbol_yes) (is_equal_to symbol_mod) e1 e2
    then some (e_unequal s symbol_no)
    else if either (is_equal_to symbol_yes) (is_equal_to symbol_no) e1 e2
    then some (e_unequal s symbol_mod)
    else if either (is_equal_to symbol_mod) (is_equal_to symbol_no) e1 e2
    then some (e_unequal s symbol_yes)
    else none

unfoldable pub join_or_boolean : Expr → Expr → Option Expr
unfolding is_plain is_negated
join_or_boolean e1 e2 =
    if either is_negated is_plain e1 e2 then some (e_symbol symbol_yes) else none

-- The rules of || for a tristate symbol, and those for a boolean one.
abbrev pub join_or_rules : SymbolType → Symbol → Expr → Expr → Option Expr
join_or_rules s_tristate s e1 e2 = join_or_tristate s e1 e2
join_or_rules s_boolean s e1 e2 = join_or_boolean e1 e2
join_or_rules _ s e1 e2 = none

unfoldable pub expr_join_or : Store → Expr → Expr → Option Expr
unfolding expr_eq common_symbol join_or_tristate join_or_boolean
expr_join_or st e1 e2 =
    if expr_eq e1 e2
    then some e1
    else do s ← common_symbol st e1 e2; join_or_rules (type_of st s) s e1 e2

-- (a='b') && (a!='c') for two constants.
unfoldable pub join_clash : Store → Symbol → Symbol → Symbol → Option Expr
join_clash st s b c =
    if (st.symbols c).is_const && (st.symbols b).is_const
    then some (if b == c then e_symbol symbol_no else e_equal s b)
    else none

unfoldable pub join_unequal : Symbol → Expr → Expr → Option Expr
unfolding is_unequal_to
join_unequal s e1 e2 =
    if either (is_unequal_to symbol_yes) (is_unequal_to symbol_no) e1 e2
    then some (e_equal s symbol_mod)
    else if either (is_unequal_to symbol_yes) (is_unequal_to symbol_mod) e1 e2
    then some (e_equal s symbol_no)
    else if either (is_unequal_to symbol_mod) (is_unequal_to symbol_no) e1 e2
    then some (e_equal s symbol_yes)
    else none

-- The rules of && for a tristate symbol only.
unfoldable pub join_and_tristate : Store → Symbol → Expr → Expr → Option Expr
unfolding join_clash join_unequal
join_and_tristate st s (e_equal a b) (e_unequal a' c) = join_clash st s b c
join_and_tristate st s (e_unequal a c) (e_equal a' b) = join_clash st s b c
join_and_tristate st s e1 e2 = join_unequal s e1 e2

unfoldable pub join_and_rules : Store → Symbol → Expr → Expr → Option Expr
unfolding is_plain is_equal_to is_unequal_to
join_and_rules st s e1 e2 =
    if either is_plain (is_equal_to symbol_yes) e1 e2
    then some (e_equal s symbol_yes)
    else if either is_plain (is_unequal_to symbol_no) e1 e2
    then some (e_symbol s)
    else if either is_plain (is_unequal_to symbol_mod) e1 e2
    then some (e_equal s symbol_yes)
    else if is_tristate (type_of st s)
    then join_and_tristate st s e1 e2
    else none

unfoldable pub expr_join_and : Store → Expr → Expr → Option Expr
unfolding expr_eq common_symbol join_and_rules join_and_tristate
expr_join_and st e1 e2 =
    if expr_eq e1 e2 then some e1 else do s ← common_symbol st e1 e2; join_and_rules st s e1 e2
