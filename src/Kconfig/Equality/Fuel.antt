-- ===== src/Kconfig/Equality/Fuel.antt =====
-- support/kconfig/expr.c: more fuel does not change what `expr_eq` and `expr_eliminate_eq` return.
use cargos_buildroot.Base.{
  ℕ, zero, suc, ◌+◌, ◌-◌, ◌≤◌, ◌≡◌, refl, Bool, Option, none, some, ◌==◌, suc-add, add-sub, Extends,
  Extends-bind, Option-cases, Bool-cases, arith, inl, inr,
}
use cargos_buildroot.Kconfig.Expr.{
  Expr, e_symbol, e_not, e_equal, e_unequal, e_or, e_and, Op, op_of, operands, expr_type,
}
use cargos_buildroot.Kconfig.Equality.{
  Eliminate, eliminate_under, eliminate_second, eliminate_both, eq_eliminated, eq_step,
  eliminate_leaf, eliminate_by, eliminate_step, eq_fuel, eliminate_fuel, bound, expr_eq,
  expr_eliminate_eq, keep_if_none,
}
use cargos_buildroot.Kconfig.Equality.Total.{eq_fuel-ne-none, eliminate_both-ne-none}

module _ (go go' : Eliminate)
    (go_grows : (t : Op) (e1 e2 : Expr) → Extends (go t e1 e2) (go' t e1 e2))
    (eq eq' : Expr → Expr → Option Bool)
    (eq_grows : (e1 e2 : Expr) → Extends (eq e1 e2) (eq' e1 e2)) where
  eliminate_leaf_grows :
      (t : Op) (e1 e2 : Expr) → Extends (eliminate_leaf eq t e1 e2) (eliminate_leaf eq' t e1 e2)
  unfolding eliminate_leaf
  eliminate_leaf_grows t e1 e2 = ground (arith, eq_grows e1 e2)

  eliminate_by_grows :
      (t : Op) (e1 e2 : Expr) (o1 o2 : Option (Expr × Expr))
      → Extends (eliminate_by go eq t e1 e2 o1 o2) (eliminate_by go' eq' t e1 e2 o1 o2)
  eliminate_by_grows t e1 e2 (some (l, r)) _ =
      Extends-bind (go t l e2) (go' t l e2) _ _ (go_grows t l e2)
        λ (l', a2). Extends-bind (go t r a2) (go' t r a2) _ _ (go_grows t r a2) λ _. inr refl
  eliminate_by_grows t e1 e2 none (some (l, r)) =
      Extends-bind (go t e1 l) (go' t e1 l) _ _ (go_grows t e1 l)
        λ (a1, l'). Extends-bind (go t a1 r) (go' t a1 r) _ _ (go_grows t a1 r) λ _. inr refl
  eliminate_by_grows t e1 e2 none none = eliminate_leaf_grows t e1 e2

  eliminate_step_grows :
      (t : Op) (e1 e2 : Expr)
      → Extends (eliminate_step go eq t e1 e2) (eliminate_step go' eq' t e1 e2)
  unfolding eliminate_step
  eliminate_step_grows t e1 e2 = eliminate_by_grows t e1 e2 (operands t e1) (operands t e2)

  eliminate_under_grows :
      (o : Option Op) (e1 e2 : Expr)
      → Extends (eliminate_under go o e1 e2) (eliminate_under go' o e1 e2)
  eliminate_under_grows none e1 e2 = inr refl
  eliminate_under_grows (some t) e1 e2 = go_grows t e1 e2

  eliminate_second_grows :
      (e1 e2 : Expr) → Extends (eliminate_second go e1 e2) (eliminate_second go' e1 e2)
  eliminate_second_grows e1 e2 = elim (Bool-cases (expr_type e1 == expr_type e2)) [
    | inl e ↦ rw e (inr refl)
    | inr e ↦ rw e (eliminate_under_grows (op_of e2) e1 e2)
  ]

  pub eliminate_both_grows :
      (e1 e2 : Expr) → Extends (eliminate_both go e1 e2) (eliminate_both go' e1 e2)
  unfolding eliminate_both
  eliminate_both_grows e1 e2 =
      Extends-bind _ _ _ _ (eliminate_under_grows (op_of e1) e1 e2)
        λ (a1, a2). Extends-bind _ _ _ _ (eliminate_second_grows a1 a2) λ _. inr refl

  eq_eliminated_grows : (e1 e2 : Expr) → Extends (eq_eliminated go e1 e2) (eq_eliminated go' e1 e2)
  unfolding eq_eliminated
  eq_eliminated_grows e1 e2 = Extends-bind _ _ _ _ (eliminate_both_grows e1 e2) λ _. inr refl

  eq_step_grows : (e1 e2 : Expr) → Extends (eq_step go eq e1 e2) (eq_step go' eq' e1 e2)
  unfolding eq_step
  eq_step_grows (e_equal a b) (e_equal a' b') = inr refl
  eq_step_grows (e_unequal a b) (e_unequal a' b') = inr refl
  eq_step_grows (e_symbol a) (e_symbol b) = inr refl
  eq_step_grows (e_not a) (e_not b) = eq_grows a b
  eq_step_grows (e_and a b) (e_and a' b') = eq_eliminated_grows _ _
  eq_step_grows (e_or a b) (e_or a' b') = eq_eliminated_grows _ _
  eq_step_grows _ _ = inr refl

mutual
  unfolding eq_fuel eliminate_fuel

  eq_fuel_grows : (f k : ℕ) (e1 e2 : Expr) → Extends (eq_fuel f e1 e2) (eq_fuel (f + k) e1 e2)
  eq_fuel_grows zero k e1 e2 = inl refl
  eq_fuel_grows (suc f) k e1 e2 = rw (suc-add f k) (
      eq_step_grows (eliminate_fuel f) (eliminate_fuel (f + k)) (eliminate_fuel_grows f k)
        (eq_fuel f) (eq_fuel (f + k)) (eq_fuel_grows f k) e1 e2)

  eliminate_fuel_grows :
      (f k : ℕ) (t : Op) (e1 e2 : Expr)
      → Extends (eliminate_fuel f t e1 e2) (eliminate_fuel (f + k) t e1 e2)
  eliminate_fuel_grows zero k t e1 e2 = inl refl
  eliminate_fuel_grows (suc f) k t e1 e2 = rw (suc-add f k) (
      eliminate_step_grows (eliminate_fuel f) (eliminate_fuel (f + k)) (eliminate_fuel_grows f k)
        (eq_fuel f) (eq_fuel (f + k)) (eq_fuel_grows f k) t e1 e2)

-- With `bound` rounds of fuel or more, the recursion of `expr_eq` ends, and the answer is the same
-- for every such fuel.
pub eq_fuel_enough :
    (f : ℕ) (e1 e2 : Expr) → bound e1 e2 ≤ f → eq_fuel f e1 e2 ≡ some (expr_eq e1 e2)
unfolding expr_eq
eq_fuel_enough f e1 e2 h = rw (add-sub (bound e1 e2) f h) (
    ground (
      arith,
      eq_fuel-ne-none (bound e1 e2) e1 e2 (omega arith),
      eq_fuel_grows (bound e1 e2) (f - bound e1 e2) e1 e2,
    ))

eliminate_both_grown :
    (f k : ℕ) (e1 e2 : Expr)
    → Extends
        (eliminate_both (eliminate_fuel f) e1 e2)
        (eliminate_both (eliminate_fuel (f + k)) e1 e2)
eliminate_both_grown f k e1 e2 =
    eliminate_both_grows (eliminate_fuel f) (eliminate_fuel (f + k)) (eliminate_fuel_grows f k)
      (eq_fuel f) (eq_fuel (f + k)) (eq_fuel_grows f k) e1 e2

-- With `bound` rounds of fuel or more, the recursion of `expr_eliminate_eq` ends, and the two expressions
-- that are left are the same for every such fuel.
pub eliminate_both_enough :
    (f : ℕ) (e1 e2 : Expr)
    → bound e1 e2 ≤ f
    → (a b : Expr) × (eliminate_both (eliminate_fuel f) e1 e2 ≡ some (a, b))
      × (expr_eliminate_eq (some e1) (some e2) ≡ (some a, some b))
unfolding expr_eliminate_eq
eliminate_both_enough f e1 e2 h =
    let n = bound e1 e2 in
    elim (Option-cases (eliminate_both (eliminate_fuel n) e1 e2)) [
      | inl e ↦ absurd (eliminate_both-ne-none n e1 e2 (omega arith) e)
      | inr ((a, b), e) ↦ (
        a,
        b,
        rw (add-sub n f h) (ground (arith, e, eliminate_both_grown n (f - n) e1 e2)),
        rw (e, keep_if_none),
      )
    ]
