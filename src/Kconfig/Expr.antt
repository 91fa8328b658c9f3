-- ===== src/Kconfig/Expr.antt =====
-- support/kconfig/expr.h and expr.c: dependency expressions, their value, and the passes that need
-- no comparison of expressions. A `struct expr *` is a tree; a pointer that may be NULL is an
-- `Option`. Nodes are owned by one tree, so that `expr_copy` is the identity on trees and
-- `expr_free` has no value: what the heap shows of them is not modelled.
pub mod Values
pub mod Passes
pub mod Operators
use cargos_buildroot.Base.{
  ℕ, suc, ◌+◌, Bool, true, false, ◌&&◌, ◌||◌, Option, none, some, if◌then◌else◌, ◌==◌, str_eq,
}
use cargos_buildroot.Kconfig.Symbol.{
  Tristate, tri_no, tri_yes, expr_or, expr_and, expr_not, Symbol, symbol_no, symbol_mod, symbol_yes,
  Store, SymbolType, s_tristate, type_of, sym_get_tristate_value, sym_get_string_value,
}

-- The nodes of a dependency (zconf.y, `expr`). E_LIST and E_RANGE nodes hang only from the choice
-- and range properties of a symbol and never stand under an operator; no node has type E_NONE.
pub data Expr : Type 0 where
  e_symbol : Symbol → Expr
  e_not : Expr → Expr
  e_equal e_unequal : Symbol → Symbol → Expr
  e_or e_and : Expr → Expr → Expr

-- The two operators that the passes take as their argument `type`.
pub data Op : Type 0 where
  op_or op_and : Op

unfoldable pub binary : Op → Expr → Expr → Expr
binary op_or l r = e_or l r
binary op_and l r = e_and l r

-- The constant that both sides become: `n` under ||, `y` under &&.
unfoldable pub unit : Op → Expr
unit op_or = e_symbol symbol_no
unit op_and = e_symbol symbol_yes

-- `e->type == type`, with both children.
unfoldable pub operands : Op → Expr → Option (Expr × Expr)
operands op_or (e_or l r) = some (l, r)
operands op_and (e_and l r) = some (l, r)
operands _ _ = none

unfoldable pub op_of : Expr → Option Op
op_of (e_or l r) = some op_or
op_of (e_and l r) = some op_and
op_of _ = none

-- `e->type`, by the numbers of `enum expr_type`.
unfoldable pub expr_type : Expr → ℕ
expr_type (e_or l r) = 1
expr_type (e_and l r) = 2
expr_type (e_not e) = 3
expr_type (e_equal a b) = 4
expr_type (e_unequal a b) = 5
expr_type (e_symbol s) = 7

-- `e->type == E_SYMBOL && e->left.sym == sym`
unfoldable pub is_symbol : Symbol → Expr → Bool
is_symbol sym (e_symbol s) = s == sym
is_symbol sym _ = false

unfoldable pub expr_is_yes : Option Expr → Bool
unfolding is_symbol
expr_is_yes none = true
expr_is_yes (some e) = is_symbol symbol_yes e

unfoldable pub expr_is_no : Option Expr → Bool
unfolding is_symbol
expr_is_no none = false
expr_is_no (some e) = is_symbol symbol_no e

unfoldable pub expr_alloc_and : Option Expr → Option Expr → Option Expr
expr_alloc_and none e2 = e2
expr_alloc_and (some e1) none = some e1
expr_alloc_and (some e1) (some e2) = some (e_and e1 e2)

unfoldable pub expr_alloc_or : Option Expr → Option Expr → Option Expr
expr_alloc_or none e2 = e2
expr_alloc_or (some e1) none = some e1
expr_alloc_or (some e1) (some e2) = some (e_or e1 e2)

-- `!strcmp(str1, str2)` for the values of two symbols.
unfoldable pub same_string : Store → Symbol → Symbol → Bool
same_string st a b = str_eq (sym_get_string_value st a) (sym_get_string_value st b)

-- The value of an expression that is there.
unfoldable pub value : Store → Expr → Tristate
unfolding same_string sym_get_tristate_value
value st (e_symbol s) = sym_get_tristate_value st s
value st (e_and l r) = expr_and (value st l) (value st r)
value st (e_or l r) = expr_or (value st l) (value st r)
value st (e_not e) = expr_not (value st e)
value st (e_equal a b) = if same_string st a b then tri_yes else tri_no
value st (e_unequal a b) = if same_string st a b then tri_no else tri_yes

unfoldable pub expr_calc_value : Store → Option Expr → Tristate
expr_calc_value st none = tri_yes
expr_calc_value st (some e) = value st e

-- The two cases of `expr_eliminate_yn`, after its recursive calls.
unfoldable pub and_yn : Expr → Expr → Expr
unfolding is_symbol
and_yn l r =
    if is_symbol symbol_no l
    then e_symbol symbol_no
    else if is_symbol symbol_yes l
    then r
    else if is_symbol symbol_no r
    then e_symbol symbol_no
    else if is_symbol symbol_yes r
    then l
    else e_and l r

unfoldable pub or_yn : Expr → Expr → Expr
unfolding is_symbol
or_yn l r =
    if is_symbol symbol_no l
    then r
    else if is_symbol symbol_yes l
    then e_symbol symbol_yes
    else if is_symbol symbol_no r
    then l
    else if is_symbol symbol_yes r
    then e_symbol symbol_yes
    else e_or l r

unfoldable pub expr_eliminate_yn : Expr → Expr
unfolding and_yn or_yn
expr_eliminate_yn (e_and l r) = and_yn (expr_eliminate_yn l) (expr_eliminate_yn r)
expr_eliminate_yn (e_or l r) = or_yn (expr_eliminate_yn l) (expr_eliminate_yn r)
expr_eliminate_yn e = e

abbrev pub is_tristate : SymbolType → Bool
is_tristate s_tristate = true
is_tristate _ = false

-- The right child of a negation is NULL, and stays so.
unfoldable pub expr_trans_bool : Store → Expr → Expr
expr_trans_bool st (e_and l r) = e_and (expr_trans_bool st l) (expr_trans_bool st r)
expr_trans_bool st (e_or l r) = e_or (expr_trans_bool st l) (expr_trans_bool st r)
expr_trans_bool st (e_not e) = e_not (expr_trans_bool st e)
expr_trans_bool st (e_unequal a b) =
    if is_tristate (type_of st a) && b == symbol_no then e_symbol a else e_unequal a b
expr_trans_bool st e = e

unfoldable pub expr_contains_symbol : Expr → Symbol → Bool
expr_contains_symbol (e_and l r) sym = expr_contains_symbol l sym || expr_contains_symbol r sym
expr_contains_symbol (e_or l r) sym = expr_contains_symbol l sym || expr_contains_symbol r sym
expr_contains_symbol (e_symbol s) sym = s == sym
expr_contains_symbol (e_equal a b) sym = a == sym || b == sym
expr_contains_symbol (e_unequal a b) sym = a == sym || b == sym
expr_contains_symbol (e_not e) sym = expr_contains_symbol e sym

unfoldable pub expr_depends_symbol : Expr → Symbol → Bool
expr_depends_symbol (e_and l r) sym = expr_depends_symbol l sym || expr_depends_symbol r sym
expr_depends_symbol (e_symbol s) sym = s == sym
expr_depends_symbol (e_equal a b) sym = a == sym && (b == symbol_yes || b == symbol_mod)
expr_depends_symbol (e_unequal a b) sym = a == sym && b == symbol_no
expr_depends_symbol _ sym = false

-- The number of nodes.
unfoldable pub size : Expr → ℕ
size (e_symbol s) = 1
size (e_not e) = suc (size e)
size (e_equal a b) = 1
size (e_unequal a b) = 1
size (e_or l r) = suc (size l + size r)
size (e_and l r) = suc (size l + size r)
