-- ===== src/Kconfig/Equality.antt =====
-- support/kconfig/expr.c: `expr_eq`, `expr_eliminate_eq` and `__expr_eliminate_eq`, which call one
-- another. They run on fuel, `none` when it is used up; `bound` is enough (Equality/Total.antt).
-- The trees behind `ep1` and `ep2` are distinct, as at every call, and are passed as a pair. The
-- counter `trans_count` has no reader here: `expr_eq` restores it.
pub mod Total
pub mod Sound
pub mod Fuel
use cargos_buildroot.Base.{
  ℕ, zero, suc, ◌+◌, ◌*◌, Bool, true, false, ◌&&◌, ◌||◌, Option, none, some, if◌then◌else◌, ◌==◌,
  ◌>>=◌,
}
use cargos_buildroot.Kconfig.Symbol.{Symbol, symbol_no, symbol_yes}
use cargos_buildroot.Kconfig.Expr.{
  Expr, e_symbol, e_not, e_equal, e_unequal, e_or, e_and, Op, binary, operands, op_of, unit,
  expr_type, expr_eliminate_yn, size,
}

-- Both are the symbol `y`, or both the symbol `n`.
unfoldable pub same_constant : Expr → Expr → Bool
same_constant (e_symbol a) (e_symbol b) = a == b && (a == symbol_yes || a == symbol_no)
same_constant _ _ = false

unfoldable pub same_symbol : Expr → Expr → Bool
same_symbol (e_symbol a) (e_symbol b) = a == b
same_symbol _ _ = false

abbrev pub Eliminate : Type 0
Eliminate = Op → Expr → Expr → Option (Expr × Expr)

-- The body of `expr_eliminate_eq` on expressions that are there.
abbrev pub eliminate_under : Eliminate → Option Op → Expr → Expr → Option (Expr × Expr)
eliminate_under go none e1 e2 = some (e1, e2)
eliminate_under go (some t) e1 e2 = go t e1 e2

abbrev pub eliminate_second : Eliminate → Expr → Expr → Option (Expr × Expr)
eliminate_second go e1 e2 =
    if expr_type e1 == expr_type e2 then some (e1, e2) else eliminate_under go (op_of e2) e1 e2

unfoldable pub eliminate_both : Eliminate → Expr → Expr → Option (Expr × Expr)
unfolding op_of expr_type
eliminate_both go e1 e2 = do
  (a1, a2) ← eliminate_under go (op_of e1) e1 e2
  (b1, b2) ← eliminate_second go a1 a2
  some (expr_eliminate_yn b1, expr_eliminate_yn b2)

-- Conjunctions and disjunctions are equal if elimination leaves the same symbol of both.
unfoldable pub eq_eliminated : Eliminate → Expr → Expr → Option Bool
eq_eliminated go e1 e2 = do (a1, a2) ← eliminate_both go e1 e2; some (same_symbol a1 a2)

-- The body of `expr_eq`.
unfoldable pub eq_step : Eliminate → (Expr → Expr → Option Bool) → Expr → Expr → Option Bool
eq_step go eq (e_equal a b) (e_equal c d) = some (a == c && b == d)
eq_step go eq (e_unequal a b) (e_unequal c d) = some (a == c && b == d)
eq_step go eq (e_symbol a) (e_symbol b) = some (a == b)
eq_step go eq (e_not a) (e_not b) = eq a b
eq_step go eq (e_and a b) (e_and c d) = eq_eliminated go (e_and a b) (e_and c d)
eq_step go eq (e_or a b) (e_or c d) = eq_eliminated go (e_or a b) (e_or c d)
eq_step go eq _ _ = some false

-- The end of `__expr_eliminate_eq`, where neither side is of the type.
unfoldable pub eliminate_leaf :
    (Expr → Expr → Option Bool) → Op → Expr → Expr → Option (Expr × Expr)
unfolding same_constant unit
eliminate_leaf eq t e1 e2 =
    if same_constant e1 e2
    then some (e1, e2)
    else do same ← eq e1 e2; some (if same then (unit t, unit t) else (e1, e2))

-- The body of `__expr_eliminate_eq`.
abbrev pub eliminate_left : Eliminate → Op → Expr × Expr → Expr → Option (Expr × Expr)
eliminate_left go t (l, r) e2 = do
  (l', a2) ← go t l e2
  (r', b2) ← go t r a2
  some (binary t l' r', b2)

abbrev pub eliminate_right : Eliminate → Op → Expr → Expr × Expr → Option (Expr × Expr)
eliminate_right go t e1 (l, r) = do
  (a1, l') ← go t e1 l
  (b1, r') ← go t a1 r
  some (b1, binary t l' r')

-- The choice by the types of the two sides: the children of `e1`, those of `e2`, or neither.
abbrev pub eliminate_by :
    Eliminate
    → (Expr → Expr → Option Bool)
    → Op
    → Expr
    → Expr
    → Option (Expr × Expr)
    → Option (Expr × Expr)
    → Option (Expr × Expr)
eliminate_by go eq t e1 e2 (some lr) _ = eliminate_left go t lr e2
eliminate_by go eq t e1 e2 none (some lr) = eliminate_right go t e1 lr
eliminate_by go eq t e1 e2 none none = eliminate_leaf eq t e1 e2

unfoldable pub eliminate_step : Eliminate → (Expr → Expr → Option Bool) → Eliminate
unfolding operands binary eliminate_leaf
eliminate_step go eq t e1 e2 = eliminate_by go eq t e1 e2 (operands t e1) (operands t e2)

unfoldable mutual
  pub eq_fuel : ℕ → Expr → Expr → Option Bool
  eq_fuel zero e1 e2 = none
  eq_fuel (suc f) e1 e2 = eq_step (eliminate_fuel f) (eq_fuel f) e1 e2

  -- `__expr_eliminate_eq`
  pub eliminate_fuel : ℕ → Op → Expr → Expr → Option (Expr × Expr)
  eliminate_fuel zero t e1 e2 = none
  eliminate_fuel (suc f) t e1 e2 = eliminate_step (eliminate_fuel f) (eq_fuel f) t e1 e2

abbrev pub bound : Expr → Expr → ℕ
bound e1 e2 = 3 * (size e1 + size e2) + 2

abbrev pub is_true : Option Bool → Bool
is_true none = false
is_true (some b) = b

unfoldable pub expr_eq : Expr → Expr → Bool
unfolding eq_fuel size
expr_eq e1 e2 = is_true (eq_fuel (bound e1 e2) e1 e2)

abbrev pub keep_if_none : Expr → Expr → Option (Expr × Expr) → Option Expr × Option Expr
keep_if_none e1 e2 none = (some e1, some e2)
keep_if_none e1 e2 (some (a, b)) = (some a, some b)

-- `expr_eliminate_eq`: with a NULL on either side nothing is done.
unfoldable pub expr_eliminate_eq : Option Expr → Option Expr → Option Expr × Option Expr
unfolding eliminate_fuel eliminate_both size
expr_eliminate_eq (some e1) (some e2) =
    keep_if_none e1 e2 (eliminate_both (eliminate_fuel (bound e1 e2)) e1 e2)
expr_eliminate_eq e1 e2 = (e1, e2)
