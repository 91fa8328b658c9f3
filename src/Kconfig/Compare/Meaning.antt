-- ===== src/Kconfig/Compare/Meaning.antt =====
-- support/kconfig/expr.c: the value of what `expr_trans_compare` returns.
use cargos_buildroot.Base.{◌≡◌, ◌≢◌, ◌⊎◌, inr, Option, some, arith, if◌then◌else◌, ◌==◌, Ensures}
use cargos_buildroot.Kconfig.Symbol.{
  Symbol, symbol_no, symbol_yes, Store, sym_get_tristate_value, sym_get_string_value, Tristate,
  s_tristate, type_of,
}
use cargos_buildroot.Kconfig.Symbol.Coherence.{IsCoherent, spelling, string_is_n}
use cargos_buildroot.Kconfig.Expr.{
  Expr, e_symbol, e_not, e_equal, e_unequal, e_or, e_and, value, same_string, expr_calc_value,
}
use cargos_buildroot.Kconfig.Compare.{Comparison, equal, unequal, expr_trans_compare}

-- Every symbol that stands for its value is `y` or `n`, and its string says so.
abbrev pub IsTwoValued : Store → Expr → Type 0
IsTwoValued st (e_symbol s) =
    (sym_get_tristate_value st s ≢ 1)
    × (sym_get_string_value st s ≡ spelling (sym_get_tristate_value st s))
IsTwoValued st (e_not e) = IsTwoValued st e
IsTwoValued st (e_equal a b) = Unit {0}
IsTwoValued st (e_unequal a b) = Unit {0}
IsTwoValued st (e_or l r) = IsTwoValued st l × IsTwoValued st r
IsTwoValued st (e_and l r) = IsTwoValued st l × IsTwoValued st r

-- The value of the comparison of a value with a constant.
abbrev pub holds : Comparison → Tristate → Tristate → Tristate
holds equal v w = if v == w then 2 else 0
holds unequal v w = if v == w then 0 else 2

module _ (st : Store) (c : IsCoherent st) where
  -- What is compared with: `y` or `n`.
  module _ (sym : Symbol) (v : Tristate)
      (which : ((sym ≡ symbol_yes) × (v ≡ 2)) ⊎ ((sym ≡ symbol_no) × (v ≡ 0))) where
    abbrev Means : Expr → Comparison → Option Expr → Type 0
    Means e type = Ensures (λ x. value st x ≡ holds type (value st e) v)

-- For a tristate symbol that is `m` the comparison of its negation is wrong: the negation is `m`,
-- so it differs from `n`, and the expression that should say so is `n`.
pub expr_trans_compare_of_mod :
    (st : Store) (c : IsCoherent st) (s : Symbol)
    → type_of st s ≡ s_tristate
    → sym_get_tristate_value st s ≡ 1
    → (value st (e_not (e_symbol s)) ≡ 1)
      × (expr_calc_value st (expr_trans_compare (some (e_not (e_symbol s))) unequal symbol_no) ≡ 0)
unfolding expr_trans_compare expr_calc_value value same_string
expr_trans_compare_of_mod st c s t m = ground (arith, string_is_n st c s (inr t))
