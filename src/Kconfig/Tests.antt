-- ===== src/Kconfig/Tests.antt =====
-- support/kconfig: runs of the expression passes, and the theorems at a small store.
use cargos_buildroot.Base.{zero, suc, ◌≤◌, ◌≡◌, ◌≢◌, refl, true, some, arith}
use cargos_buildroot.Kconfig.Symbol.{
  Symbol, symbol_no, s_tristate, Store, type_of, sym_get_tristate_value,
}
use cargos_buildroot.Kconfig.Symbol.Coherence.{IsCoherent}
use cargos_buildroot.Kconfig.Expr.{
  Expr, e_symbol, e_not, e_equal, e_unequal, e_or, e_and, op_or, value, expr_calc_value,
  expr_eliminate_yn, size,
}
use cargos_buildroot.Kconfig.Expr.Passes.{value-expr_eliminate_yn}
use cargos_buildroot.Kconfig.Equality.{
  expr_eq, expr_eliminate_eq, eq_fuel, eliminate_both, bound, eq_step, eq_eliminated,
  eliminate_step, same_symbol,
}
use cargos_buildroot.Kconfig.Equality.Sound.{expr_eq_sound, expr_eliminate_eq_sound}
use cargos_buildroot.Kconfig.Equality.Fuel.{eq_fuel_enough}
use cargos_buildroot.Kconfig.Transform.{expr_transform, transform_fuel, weight}
use cargos_buildroot.Kconfig.Transform.Normal.{
  IsNormal, transform_fuel_enough, expr_transform-IsNormal,
}
use cargos_buildroot.Kconfig.Transform.Meaning.{value-expr_transform}
use cargos_buildroot.Kconfig.Join.{expr_join_or, expr_join_and}
use cargos_buildroot.Kconfig.Join.Sound.{expr_join_or_sound, expr_join_and_sound}
use cargos_buildroot.Kconfig.Compare.{unequal, expr_trans_compare}
use cargos_buildroot.Kconfig.Compare.Meaning.{expr_trans_compare_of_mod}
use cargos_buildroot.Kconfig.Extract.{Extraction, extract_eq}
use cargos_buildroot.Kconfig.Extract.Meaning.{joined, extract_eq_recovers}
use cargos_buildroot.Kconfig.Sample.{sample, sample-IsCoherent, sample-HasPlainConstants}

abbrev running : Store
running = sample 1

running-IsCoherent : IsCoherent running
running-IsCoherent = sample-IsCoherent 1 (omega arith)

-- MODULES && (EXT4 || NET), and the same with the operands of || exchanged.
abbrev guarded : Expr
guarded = e_and (e_symbol 3) (e_or (e_symbol 4) (e_symbol 5))

abbrev exchanged : Expr
exchanged = e_and (e_or (e_symbol 5) (e_symbol 4)) (e_symbol 3)

equal_up_to_order : expr_eq guarded exchanged ≡ true
unfolding expr_eq eq_step eq_eliminated eliminate_both eliminate_step same_symbol expr_eliminate_yn
equal_up_to_order = refl

transform_example :
    expr_transform running (e_not (e_and (e_not (e_symbol 4)) (e_equal 3 2)))
    ≡ e_or (e_symbol 4) (e_not (e_symbol 3))
unfolding expr_transform
transform_example = refl

join_example : expr_join_and running (e_unequal 4 1) (e_unequal 4 0) ≡ some (e_equal 4 2)
unfolding expr_join_and eq_step
join_example = refl

expr_eq-sound_example : value running guarded ≡ value running exchanged
expr_eq-sound_example = expr_eq_sound running running-IsCoherent guarded exchanged equal_up_to_order

-- NET is taken out of both sides, which leaves them equal.
left_over :
    let r =
      expr_eliminate_eq
        (some (e_or (e_symbol 4) (e_symbol 5)))
        (some (e_or (e_symbol 5) (e_symbol 4))) in
    expr_calc_value running r.0 ≡ expr_calc_value running r.1
unfolding expr_eliminate_eq expr_calc_value eliminate_step eq_step
left_over = refl

expr_eliminate_eq-sound_example :
    expr_calc_value running (some (e_or (e_symbol 4) (e_symbol 5)))
    ≡ expr_calc_value running (some (e_or (e_symbol 5) (e_symbol 4)))
expr_eliminate_eq-sound_example =
    expr_eliminate_eq_sound running running-IsCoherent (some (e_or (e_symbol 4) (e_symbol 5)))
      (some (e_or (e_symbol 5) (e_symbol 4))) left_over

fuel_for_guarded : bound guarded exchanged ≤ 100
unfolding size
fuel_for_guarded = omega arith

eq_fuel-enough_example : eq_fuel 100 guarded exchanged ≡ some (expr_eq guarded exchanged)
eq_fuel-enough_example = eq_fuel_enough 100 guarded exchanged fuel_for_guarded

value-expr_transform_example :
    value running (expr_transform running (e_not guarded)) ≡ value running (e_not guarded)
value-expr_transform_example = value-expr_transform running running-IsCoherent (e_not guarded)

expr_transform-IsNormal_example : IsNormal running (expr_transform running (e_not guarded))
expr_transform-IsNormal_example =
    expr_transform-IsNormal running (sample-HasPlainConstants 1) (e_not guarded)

fuel_for_negation : weight (e_not guarded) ≤ 10
unfolding weight
fuel_for_negation = omega arith

transform_fuel-enough_example :
    transform_fuel running 10 (e_not guarded) ≡ some (expr_transform running (e_not guarded))
transform_fuel-enough_example =
    transform_fuel_enough running (sample-HasPlainConstants 1) 10 (e_not guarded) fuel_for_negation

join_or_example : expr_join_or running (e_equal 4 2) (e_equal 4 1) ≡ some (e_unequal 4 0)
unfolding expr_join_or eq_step
join_or_example = refl

expr_join_or-sound_example :
    value running (e_unequal 4 0) ≡ value running (e_or (e_equal 4 2) (e_equal 4 1))
expr_join_or-sound_example =
    expr_join_or_sound running running-IsCoherent (e_equal 4 2) (e_equal 4 1) (e_unequal 4 0)
      join_or_example

expr_join_and-sound_example :
    value running (e_equal 4 2) ≡ value running (e_and (e_unequal 4 1) (e_unequal 4 0))
expr_join_and-sound_example =
    expr_join_and_sound running running-IsCoherent (e_unequal 4 1) (e_unequal 4 0) (e_equal 4 2)
      join_example

extract_eq-recovers_example :
    (x : Extraction) × (extract_eq op_or
        (e_or (e_symbol 4) (e_symbol 5))
        (e_or (e_symbol 5) (e_symbol 3))
      ≡ some x)
    × (value running (e_or (e_symbol 4) (e_symbol 5)) ≡ joined running op_or x.common x.left)
    × (value running (e_or (e_symbol 5) (e_symbol 3)) ≡ joined running op_or x.common x.right)
extract_eq-recovers_example =
    extract_eq_recovers running running-IsCoherent op_or (e_or (e_symbol 4) (e_symbol 5))
      (e_or (e_symbol 5) (e_symbol 3))

expr_trans_compare-of_mod_example :
    (value running (e_not (e_symbol 4)) ≡ 1)
    × (expr_calc_value running (expr_trans_compare (some (e_not (e_symbol 4))) unequal symbol_no)
        ≡ 0)
unfolding sym_get_tristate_value
expr_trans_compare-of_mod_example = expr_trans_compare_of_mod running running-IsCoherent 4 refl refl

value-expr_eliminate_yn_example :
    value running (expr_eliminate_yn (e_or guarded (e_symbol symbol_no)))
    ≡ value running (e_or guarded (e_symbol symbol_no))
value-expr_eliminate_yn_example =
    value-expr_eliminate_yn running running-IsCoherent (e_or guarded (e_symbol symbol_no))

built_in :
    (s : Symbol) → type_of (sample 2) s ≡ s_tristate → sym_get_tristate_value (sample 2) s ≢ 1
unfolding sym_get_tristate_value
built_in zero h = cc
built_in (suc zero) h = cc
built_in (suc (suc zero)) h = cc
built_in (suc (suc (suc zero))) h = cc
built_in (suc (suc (suc (suc zero)))) h = omega arith
built_in (suc (suc (suc (suc (suc _))))) h = omega arith
