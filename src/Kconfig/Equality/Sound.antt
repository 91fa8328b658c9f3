-- ===== src/Kconfig/Equality/Sound.antt =====
-- support/kconfig/expr.c: expressions that `expr_eq` calls equal have equal values.
use cargos_buildroot.Base.{
  ℕ, zero, suc, ◌≡◌, refl, sym, ap, ap₂, ◌∙◌, Bool, true, Option, none, some, ◌==◌, ◌>>=◌,
  Option-cases, Bool-cases, arith, inl, inr,
}
use cargos_buildroot.Kconfig.Symbol.{Tristate, Store}
use cargos_buildroot.Kconfig.Symbol.Coherence.{IsCoherent}
use cargos_buildroot.Kconfig.Expr.{
  Expr, e_symbol, e_not, e_equal, e_unequal, e_or, e_and, Op, op_or, op_and, binary, operands, unit,
  op_of, expr_type, expr_eliminate_yn, value, expr_calc_value,
}
use cargos_buildroot.Kconfig.Expr.Values.{value-le}
use cargos_buildroot.Kconfig.Expr.Passes.{value-expr_eliminate_yn}
use cargos_buildroot.Kconfig.Expr.Operators.{
  combine, combine_medial, combine_assoc, combine_comm, operands-eq, value-binary,
}
use cargos_buildroot.Kconfig.Equality.{
  same_symbol, Eliminate, eliminate_under, eliminate_by, eliminate_second, eliminate_both,
  eq_eliminated, eq_step, eliminate_leaf, eliminate_left, eliminate_right, eliminate_step, eq_fuel,
  eliminate_fuel, bound, expr_eq, expr_eliminate_eq,
}

-- What holds of the pair of trees, if the fuel sufficed.
abbrev pub IfSome : Option (Expr × Expr) → (Expr → Expr → Type 0) → Type 0
IfSome none P = Unit {0}
IfSome (some (a, b)) P = P a b

pub IfSome-bind :
    (P Q : Expr → Expr → Type 0) (m : Option (Expr × Expr)) (f : Expr × Expr → Option (Expr × Expr))
    → IfSome m P
    → ((a b : Expr) → P a b → IfSome (f (a, b)) Q)
    → IfSome (m >>= f) Q
IfSome-bind P Q none f h k = tt
IfSome-bind P Q (some (a, b)) f h k = k a b h

IfSome-map :
    (P Q : Expr → Expr → Type 0) (m : Option (Expr × Expr))
    → IfSome m P
    → ((a b : Expr) → P a b → Q a b)
    → IfSome m Q
IfSome-map P Q none h k = tt
IfSome-map P Q (some (a, b)) h k = k a b h

same_symbol→eq : (e1 e2 : Expr) → same_symbol e1 e2 ≡ true → e1 ≡ e2
unfolding same_symbol
same_symbol→eq (e_symbol a) (e_symbol b) h = ground arith
same_symbol→eq _ _ h = cc

-- Both values are the new ones joined with one and the same value.
abbrev Removed : Op → Tristate → Tristate → Tristate → Tristate → Type 0
Removed t v1 v2 w1 w2 = (x : Tristate) × (v1 ≡ combine t w1 x) × (v2 ≡ combine t w2 x)

Removed-merge :
    (t : Op) (l r v l' v' r' w : Tristate)
    → Removed t l v l' v'
    → Removed t r v' r' w
    → Removed t (combine t l r) v (combine t l' r') w
Removed-merge t l r v l' v' r' w (x, p, q) (y, p', q') = (
  combine t y x,
  ap₂ (combine t) p p'
      ∙ combine_medial t l' x r' y
      ∙ ap (combine t (combine t l' r')) (combine_comm t x y),
  q ∙ ap (λ z. combine t z x) q' ∙ combine_assoc t w y x,
)

Removed-swap : (t : Op) (v1 v2 w1 w2 : Tristate) → Removed t v1 v2 w1 w2 → Removed t v2 v1 w2 w1
Removed-swap t v1 v2 w1 w2 (x, p, q) = (x, q, p)

module _ (st : Store) (c : IsCoherent st) where
  abbrev RemovedIn : Op → Expr → Expr → Expr → Expr → Type 0
  RemovedIn t e1 e2 a1 a2 = Removed t (value st e1) (value st e2) (value st a1) (value st a2)

  Removed_none : (t : Op) (a b : Expr) → RemovedIn t a b a b
  Removed_none op_or a b = (0, ground arith, ground arith)
  Removed_none op_and a b = (2, ground (arith, value-le st c a), ground (arith, value-le st c b))

  Removed_all : (t : Op) (a b : Expr) → value st a ≡ value st b → RemovedIn t a b (unit t) (unit t)
  unfolding unit value
  Removed_all op_or a b h = (value st a, ground (arith, c.no_value), ground (arith, c.no_value))
  Removed_all op_and a b h = (
    value st a,
    ground (arith, c.yes_value, value-le st c a),
    ground (arith, c.yes_value, value-le st c a),
  )

  -- Joined values are equal when the values that are left are.
  Removed-eq : (t : Op) (v1 v2 w1 w2 : Tristate) → Removed t v1 v2 w1 w2 → w1 ≡ w2 → v1 ≡ v2
  Removed-eq t v1 v2 w1 w2 (x, p, q) e = p ∙ ap (λ z. combine t z x) e ∙ sym q

  module _ (go : Eliminate)
      (go_sound : (t : Op) (e1 e2 : Expr) → IfSome (go t e1 e2) (RemovedIn t e1 e2))
      (eq : Expr → Expr → Option Bool)
      (eq_sound : (e1 e2 : Expr) → eq e1 e2 ≡ some true → value st e1 ≡ value st e2) where
    abbrev Equalizing : Expr → Expr → Expr → Expr → Type 0
    Equalizing e1 e2 a1 a2 = value st a1 ≡ value st a2 → value st e1 ≡ value st e2

    eliminate_leaf_sound :
        (t : Op) (e1 e2 : Expr) → IfSome (eliminate_leaf eq t e1 e2) (RemovedIn t e1 e2)
    unfolding eliminate_leaf
    eliminate_leaf_sound t e1 e2 =
        ground (arith, Removed_none t e1 e2, Removed_all t e1 e2, eq_sound e1 e2)

    eliminate_left_sound :
        (t : Op) (l r e2 : Expr)
        → IfSome (eliminate_left go t (l, r) e2) (RemovedIn t (binary t l r) e2)
    eliminate_left_sound t l r e2 = IfSome-bind _ _ (go t l e2) _ (go_sound t l e2) λ l' a2 p.
        IfSome-bind _ _ (go t r a2) _ (go_sound t r a2) λ r' b2 q.
          rw (value-binary st t l r, value-binary st t l' r') (Removed-merge t _ _ _ _ _ _ _ p q)

    eliminate_right_sound :
        (t : Op) (e1 l r : Expr)
        → IfSome (eliminate_right go t e1 (l, r)) (RemovedIn t e1 (binary t l r))
    eliminate_right_sound t e1 l r = IfSome-bind _ _ (go t e1 l) _ (go_sound t e1 l) λ a1 l' p.
        IfSome-bind _ _ (go t a1 r) _ (go_sound t a1 r) λ b1 r' q.
          rw (value-binary st t l r, value-binary st t l' r')
            (Removed-swap t _ _ _ _
              (Removed-merge t _ _ _ _ _ _ _ (Removed-swap t _ _ _ _ p) (Removed-swap t _ _ _ _ q)))

    eliminate_by_sound :
        (t : Op) (e1 e2 : Expr) (o1 o2 : Option (Expr × Expr))
        → operands t e1 ≡ o1
        → operands t e2 ≡ o2
        → IfSome (eliminate_by go eq t e1 e2 o1 o2) (RemovedIn t e1 e2)
    eliminate_by_sound t e1 e2 (some (l, r)) _ p q =
        rw (operands-eq t e1 l r p) (eliminate_left_sound t l r e2)
    eliminate_by_sound t e1 e2 none (some (l, r)) p q =
        rw (operands-eq t e2 l r q) (eliminate_right_sound t e1 l r)
    eliminate_by_sound t e1 e2 none none p q = eliminate_leaf_sound t e1 e2

    eliminate_step_sound :
        (t : Op) (e1 e2 : Expr) → IfSome (eliminate_step go eq t e1 e2) (RemovedIn t e1 e2)
    unfolding eliminate_step
    eliminate_step_sound t e1 e2 = eliminate_by_sound t e1 e2 _ _ refl refl

    eliminate_under_sound :
        (o : Option Op) (e1 e2 : Expr) → IfSome (eliminate_under go o e1 e2) (Equalizing e1 e2)
    eliminate_under_sound none e1 e2 = λ e. e
    eliminate_under_sound (some t) e1 e2 =
        IfSome-map _ _ (go t e1 e2) (go_sound t e1 e2) (λ a b r. Removed-eq t _ _ _ _ r)

    eliminate_second_sound : (e1 e2 : Expr) → IfSome (eliminate_second go e1 e2) (Equalizing e1 e2)
    eliminate_second_sound e1 e2 = elim (Bool-cases (expr_type e1 == expr_type e2)) [
      | inl e ↦ rw e (λ e. e)
      | inr e ↦ rw e (eliminate_under_sound (op_of e2) e1 e2)
    ]

    pub eliminate_both_sound : (e1 e2 : Expr) → IfSome (eliminate_both go e1 e2) (Equalizing e1 e2)
    unfolding eliminate_both
    eliminate_both_sound e1 e2 =
        IfSome-bind (Equalizing e1 e2) (Equalizing e1 e2) (eliminate_under go (op_of e1) e1 e2)
          (λ x. eliminate_second go x.0 x.1 >>= λ y.
            some (expr_eliminate_yn y.0, expr_eliminate_yn y.1))
          (eliminate_under_sound (op_of e1) e1 e2)
          λ a1 a2 p.
            IfSome-bind (Equalizing a1 a2) (Equalizing e1 e2) (eliminate_second go a1 a2)
              (λ x. some (expr_eliminate_yn x.0, expr_eliminate_yn x.1))
              (eliminate_second_sound a1 a2)
              (λ b1 b2 q e.
                p (q (sym (value-expr_eliminate_yn st c b1) ∙ e ∙ value-expr_eliminate_yn st c b2)))

    eq_eliminated_sound :
        (e1 e2 : Expr) → eq_eliminated go e1 e2 ≡ some true → value st e1 ≡ value st e2
    unfolding eq_eliminated
    eq_eliminated_sound e1 e2 h = elim (Option-cases (eliminate_both go e1 e2)) [
      | inl e ↦ ground (arith, e)
      | inr ((a, b), e) ↦
          let p : IfSome (some (a, b)) (Equalizing e1 e2) = rw e at (eliminate_both_sound e1 e2) in
          p (ap (value st) (same_symbol→eq a b (ground (arith, e))))
    ]

    eq_step_sound : (e1 e2 : Expr) → eq_step go eq e1 e2 ≡ some true → value st e1 ≡ value st e2
    unfolding eq_step value
    eq_step_sound (e_equal a b) (e_equal a' b') h = ground arith
    eq_step_sound (e_unequal a b) (e_unequal a' b') h = ground arith
    eq_step_sound (e_symbol a) (e_symbol b) h = ground arith
    eq_step_sound (e_not a) (e_not b) h = ground (arith, eq_sound a b)
    eq_step_sound (e_and a b) (e_and a' b') h = unfold value in eq_eliminated_sound _ _ h
    eq_step_sound (e_or a b) (e_or a' b') h = unfold value in eq_eliminated_sound _ _ h
    eq_step_sound _ _ h = cc

mutual
  unfolding eq_fuel eliminate_fuel

  eq_fuel_sound :
      (f : ℕ) (st : Store) (c : IsCoherent st) (e1 e2 : Expr)
      → eq_fuel f e1 e2 ≡ some true
      → value st e1 ≡ value st e2
  eq_fuel_sound zero st c e1 e2 h = cc
  eq_fuel_sound (suc f) st c e1 e2 h =
      eq_step_sound st c (eliminate_fuel f) (eliminate_fuel_sound f st c) (eq_fuel f)
        (eq_fuel_sound f st c) e1 e2 h

  eliminate_fuel_sound :
      (f : ℕ) (st : Store) (c : IsCoherent st) (t : Op) (e1 e2 : Expr)
      → IfSome (eliminate_fuel f t e1 e2) (RemovedIn st c t e1 e2)
  eliminate_fuel_sound zero st c t e1 e2 = tt
  eliminate_fuel_sound (suc f) st c t e1 e2 =
      eliminate_step_sound st c (eliminate_fuel f) (eliminate_fuel_sound f st c) (eq_fuel f)
        (eq_fuel_sound f st c) t e1 e2

-- Expressions that `expr_eq` calls equal have the same value under every coherent store.
pub expr_eq_sound :
    (st : Store) → IsCoherent st → (e1 e2 : Expr) → expr_eq e1 e2 ≡ true → value st e1 ≡ value st e2
unfolding expr_eq
expr_eq_sound st c e1 e2 h = eq_fuel_sound (bound e1 e2) st c e1 e2 (ground arith)

eliminated_sound :
    (st : Store) (c : IsCoherent st) (f : ℕ) (e1 e2 : Expr)
    → IfSome
        (eliminate_both (eliminate_fuel f) e1 e2)
        (λ a b. value st a ≡ value st b → value st e1 ≡ value st e2)
eliminated_sound st c f e1 e2 =
    eliminate_both_sound st c (eliminate_fuel f) (eliminate_fuel_sound f st c) (eq_fuel f)
      (eq_fuel_sound f st c) e1 e2

-- If elimination leaves two expressions of equal value, the expressions had equal values before.
pub expr_eliminate_eq_sound :
    (st : Store) (c : IsCoherent st) (e1 e2 : Option Expr)
    → let r = expr_eliminate_eq e1 e2 in
      expr_calc_value st r.0 ≡ expr_calc_value st r.1
      → expr_calc_value st e1 ≡ expr_calc_value st e2
unfolding expr_eliminate_eq expr_calc_value
expr_eliminate_eq_sound st c none _ h = h
expr_eliminate_eq_sound st c (some e1) none h = h
expr_eliminate_eq_sound st c (some e1) (some e2) h =
    ground (arith, eliminated_sound st c (bound e1 e2) e1 e2)
