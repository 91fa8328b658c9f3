-- ===== src/Kconfig/Expr/Values.antt =====
-- support/kconfig/expr.c, `expr_calc_value`: its range, and what it depends on.
use cargos_buildroot.Base.{◌≤◌, ◌≡◌, refl, ◌≢◌, true, false, none, some, Option, arith, str_eq, ap₂}
use cargos_buildroot.Kconfig.Symbol.{
  expr_and, Symbol, Store, sym_get_tristate_value, sym_get_string_value,
}
use cargos_buildroot.Kconfig.Symbol.Coherence.{
  IsCoherent, IsLogical, string_is_n, string_is_m, string_is_y,
}
use cargos_buildroot.Kconfig.Expr.{
  Expr, e_symbol, e_not, e_equal, e_unequal, e_or, e_and, value, expr_calc_value, same_string,
  expr_alloc_and, expr_contains_symbol, expr_depends_symbol,
}

-- No expression has a value above `y`.
pub value-le : (st : Store) → IsCoherent st → (e : Expr) → value st e ≤ 2
unfolding value
value-le st c (e_symbol s) = c.bounded s
value-le st c (e_not e) = omega arith
value-le st c (e_equal a b) = ground arith
value-le st c (e_unequal a b) = ground arith
value-le st c (e_or l r) = ground (arith, value-le st c l, value-le st c r)
value-le st c (e_and l r) = ground (arith, value-le st c l, value-le st c r)

-- Under a coherent store, `expr_alloc_and` conjoins the values, NULL standing for `y`.
pub expr_calc_value-expr_alloc_and :
    (st : Store) (c : IsCoherent st) (e1 e2 : Option Expr)
    → expr_calc_value st (expr_alloc_and e1 e2)
      ≡ expr_and (expr_calc_value st e1) (expr_calc_value st e2)
unfolding expr_calc_value expr_alloc_and value
expr_calc_value-expr_alloc_and st c none none = refl
expr_calc_value-expr_alloc_and st c none (some e) = ground (arith, value-le st c e)
expr_calc_value-expr_alloc_and st c (some e) none = ground (arith, value-le st c e)
expr_calc_value-expr_alloc_and st c (some e) (some e') = refl

-- Two stores in which every symbol but one has the same value and the same string.
pub record AgreeOff (sym : Symbol) (st st' : Store) : Type 0 where
  pub same_value :
      (s : Symbol) → s ≢ sym → sym_get_tristate_value st s ≡ sym_get_tristate_value st' s
  pub same_text : (s : Symbol) → s ≢ sym → sym_get_string_value st s ≡ sym_get_string_value st' s

module _ (sym : Symbol) (st st' : Store) (h : AgreeOff sym st st') where
  same_string-agree : (a b : Symbol) → a ≢ sym → b ≢ sym → same_string st a b ≡ same_string st' a b
  unfolding same_string
  same_string-agree a b p q = ap₂ str_eq (h.same_text a p) (h.same_text b q)

  -- An expression that `expr_contains_symbol` finds free of a symbol keeps its value when only
  -- that symbol changes.
  pub value_frame : (e : Expr) → expr_contains_symbol e sym ≡ false → value st e ≡ value st' e
  unfolding value expr_contains_symbol
  value_frame (e_symbol s) n = h.same_value s (ground arith)
  value_frame (e_not e) n = ground (arith, value_frame e)
  value_frame (e_equal a b) n = ground (arith, same_string-agree a b)
  value_frame (e_unequal a b) n = ground (arith, same_string-agree a b)
  value_frame (e_or l r) n = ground (arith, value_frame l, value_frame r)
  value_frame (e_and l r) n = ground (arith, value_frame l, value_frame r)

-- An expression that `expr_depends_symbol` finds to depend on a boolean or tristate symbol is `n`
-- wherever that symbol is `n`.
pub value_depends :
    (st : Store) (c : IsCoherent st) (sym : Symbol) (e : Expr)
    → IsLogical st sym
    → sym_get_tristate_value st sym ≡ 0
    → expr_depends_symbol e sym ≡ true
    → value st e ≡ 0
unfolding value same_string expr_depends_symbol
value_depends st c sym (e_symbol s) t z d = ground arith
value_depends st c sym (e_and l r) t z d =
    ground (arith, value_depends st c sym l t z, value_depends st c sym r t z)
value_depends st c sym (e_equal a b) t z d =
    ground (arith, string_is_m st c sym t, string_is_y st c sym t)
value_depends st c sym (e_unequal a b) t z d = ground (arith, string_is_n st c sym t)
value_depends st c sym (e_or l r) t z d = cc
value_depends st c sym (e_not e) t z d = cc
