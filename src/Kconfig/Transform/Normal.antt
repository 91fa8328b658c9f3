-- ===== src/Kconfig/Transform/Normal.antt =====
-- support/kconfig/expr.c: `expr_transform` ends, and its result is in normal form.
use cargos_buildroot.Base.{
  ℕ, zero, suc, ◌+◌, ◌*◌, ◌-◌, ◌≤◌, ◌≡◌, refl, Bool, true, false, ◌&&◌, ◌||◌, Option, some, ◌==◌,
  Ensures, Ensures-bind, Ensures-map, Extends, Extends-bind, arith, suc-add, add-sub, inl, inr,
  Option-cases,
}
use cargos_buildroot.Kconfig.Symbol.{Symbol, symbol_no, symbol_mod, symbol_yes, Store, type_of}
use cargos_buildroot.Kconfig.Expr.{Expr, e_symbol, e_not, e_equal, e_unequal, e_or, e_and}
use cargos_buildroot.Kconfig.Transform.{
  is_boolean, transform_equal, transform_unequal, negate_symbol, transform_not, transform_step,
  transform_fuel, weight, or_same, expr_transform,
}

abbrev pub is_ynm : Symbol → Bool
is_ynm s = s == symbol_no || s == symbol_mod || s == symbol_yes

-- The constants have no boolean type.
abbrev pub HasPlainConstants : Store → Type 0
HasPlainConstants st = (s : Symbol) → is_ynm s ≡ true → is_boolean (type_of st s) ≡ false

-- Only a symbol other than `y`, `m` and `n` is negated, and no boolean symbol is compared with one
-- of the three.
abbrev pub IsNormal : Store → Expr → Type 0
IsNormal st (e_symbol s) = Unit {0}
IsNormal st (e_not (e_symbol s)) = is_ynm s ≡ false
IsNormal st (e_not (e_not e)) = ⊥
IsNormal st (e_not (e_equal a b)) = ⊥
IsNormal st (e_not (e_unequal a b)) = ⊥
IsNormal st (e_not (e_or l r)) = ⊥
IsNormal st (e_not (e_and l r)) = ⊥
IsNormal st (e_equal a b) = (is_boolean (type_of st a) && is_ynm b) ≡ false
IsNormal st (e_unequal a b) = (is_boolean (type_of st a) && is_ynm b) ≡ false
IsNormal st (e_or l r) = IsNormal st l × IsNormal st r
IsNormal st (e_and l r) = IsNormal st l × IsNormal st r

weight-pos : (e : Expr) → 1 ≤ weight e
unfolding weight
weight-pos (e_symbol s) = omega arith
weight-pos (e_not e) = omega (arith, weight-pos e)
weight-pos (e_equal a b) = omega arith
weight-pos (e_unequal a b) = omega arith
weight-pos (e_or l r) = omega arith
weight-pos (e_and l r) = omega arith

module _ (st : Store) (plain : HasPlainConstants st) where
  abbrev Reduced : ℕ → Expr → Type 0
  Reduced n e = (weight e ≤ n) × IsNormal st e

  transform_equal-Reduced : (a b : Symbol) → Reduced 2 (transform_equal st a b)
  unfolding transform_equal weight
  transform_equal-Reduced a b = ground (arith, plain a)

  transform_unequal-Reduced : (a b : Symbol) → Reduced 2 (transform_unequal st a b)
  unfolding transform_unequal weight
  transform_unequal-Reduced a b = ground (arith, plain a)

  negate_symbol-Reduced : (s : Symbol) → Reduced 2 (negate_symbol s)
  unfolding negate_symbol weight
  negate_symbol-Reduced s = ground arith

  module _ (f : ℕ) (go : Expr → Option Expr)
      (go_ends : (e : Expr) → weight e ≤ f → Ensures (Reduced (weight e)) (go e)) where
    transform_not_ends :
        (n : ℕ) (e : Expr)
        → 2 * n ≤ suc f
        → Reduced n e
        → Ensures (Reduced (2 * n)) (transform_not go e)
    unfolding transform_not weight
    transform_not_ends n (e_not a) h r =
        Ensures-map (Reduced (weight a)) (Reduced (2 * n)) (go a)
          (go_ends a (omega (arith, weight-pos a))) (λ x (p, q). (omega arith, q))
    transform_not_ends n (e_equal a b) h r = (omega arith, r.1)
    transform_not_ends n (e_unequal a b) h r = (omega arith, r.1)
    transform_not_ends n (e_or a b) h r =
        Ensures-map (Reduced (suc (2 * weight a + 2 * weight b))) (Reduced (2 * n))
          (go (e_and (e_not a) (e_not b))) (go_ends (e_and (e_not a) (e_not b)) (omega arith))
          (λ x (p, q). (omega arith, q))
    transform_not_ends n (e_and a b) h r =
        Ensures-map (Reduced (suc (2 * weight a + 2 * weight b))) (Reduced (2 * n))
          (go (e_or (e_not a) (e_not b))) (go_ends (e_or (e_not a) (e_not b)) (omega arith))
          (λ x (p, q). (omega arith, q))
    transform_not_ends n (e_symbol s) h r =
        (omega (arith, (negate_symbol-Reduced s).0), (negate_symbol-Reduced s).1)

    transform_step_ends :
        (e : Expr) → weight e ≤ suc f → Ensures (Reduced (weight e)) (transform_step st go e)
    unfolding transform_step weight
    transform_step_ends (e_equal a b) h = transform_equal-Reduced a b
    transform_step_ends (e_unequal a b) h = transform_unequal-Reduced a b
    transform_step_ends (e_symbol s) h = (omega arith, tt)
    transform_step_ends (e_and l r) h =
        Ensures-bind (Reduced (weight l)) _ (go l) _ (go_ends l (omega arith)) λ l' (p, q).
          Ensures-bind (Reduced (weight r)) _ (go r) _ (go_ends r (omega arith))
            λ r' (p', q'). (omega arith, (q, q'))
    transform_step_ends (e_or l r) h =
        Ensures-bind (Reduced (weight l)) _ (go l) _ (go_ends l (omega arith)) λ l' (p, q).
          Ensures-bind (Reduced (weight r)) _ (go r) _ (go_ends r (omega arith))
            λ r' (p', q'). (omega arith, (q, q'))
    transform_step_ends (e_not e) h =
        Ensures-bind (Reduced (weight e)) _ (go e) (transform_not go)
          (go_ends e (omega (arith, weight-pos e))) λ e' r. transform_not_ends (weight e) e' h r

  transform_fuel_ends :
      (f : ℕ) (e : Expr) → weight e ≤ f → Ensures (Reduced (weight e)) (transform_fuel st f e)
  unfolding transform_fuel
  transform_fuel_ends zero e h = absurd (omega (arith, weight-pos e))
  transform_fuel_ends (suc f) e h =
      transform_step_ends f (transform_fuel st f) (transform_fuel_ends f) e h

transform_not_grows :
    (go go' : Expr → Option Expr)
    → ((e : Expr) → Extends (go e) (go' e))
    → (e : Expr) → Extends (transform_not go e) (transform_not go' e)
unfolding transform_not
transform_not_grows go go' h (e_not a) = h a
transform_not_grows go go' h (e_or a b) = h (e_and (e_not a) (e_not b))
transform_not_grows go go' h (e_and a b) = h (e_or (e_not a) (e_not b))
transform_not_grows go go' h (e_equal a b) = inr refl
transform_not_grows go go' h (e_unequal a b) = inr refl
transform_not_grows go go' h (e_symbol s) = inr refl

transform_step_grows :
    (st : Store) (go go' : Expr → Option Expr)
    → ((e : Expr) → Extends (go e) (go' e))
    → (e : Expr) → Extends (transform_step st go e) (transform_step st go' e)
unfolding transform_step
transform_step_grows st go go' h (e_equal a b) = inr refl
transform_step_grows st go go' h (e_unequal a b) = inr refl
transform_step_grows st go go' h (e_symbol s) = inr refl
transform_step_grows st go go' h (e_and l r) =
    Extends-bind _ _ _ _ (h l) λ l'. Extends-bind _ _ _ _ (h r) λ r'. inr refl
transform_step_grows st go go' h (e_or l r) =
    Extends-bind _ _ _ _ (h l) λ l'. Extends-bind _ _ _ _ (h r) λ r'. inr refl
transform_step_grows st go go' h (e_not e) =
    Extends-bind _ _ _ _ (h e) (transform_not_grows go go' h)

transform_fuel_grows :
    (st : Store) (f k : ℕ) (e : Expr)
    → Extends (transform_fuel st f e) (transform_fuel st (f + k) e)
unfolding transform_fuel
transform_fuel_grows st zero k e = inl refl
transform_fuel_grows st (suc f) k e = rw (suc-add f k) (
    transform_step_grows st (transform_fuel st f) (transform_fuel st (f + k))
      (transform_fuel_grows st f k) e)

-- Where the constants have no boolean type, the recursion of `expr_transform` ends with fuel for the
-- weight of the expression, with the same result for every such fuel.
pub transform_fuel_enough :
    (st : Store) (plain : HasPlainConstants st) (f : ℕ) (e : Expr)
    → weight e ≤ f
    → transform_fuel st f e ≡ some (expr_transform st e)
unfolding expr_transform
transform_fuel_enough st plain f e h = rw (add-sub (weight e) f h) (
    ground (
      arith,
      transform_fuel_ends st plain (weight e) e (omega arith),
      transform_fuel_grows st (weight e) (f - weight e) e,
    ))

-- Where the constants have no boolean type, `expr_transform` returns an expression in normal form:
-- it negates nothing but symbols other than the constants, and compares no boolean symbol with a
-- constant.
pub expr_transform-IsNormal :
    (st : Store) (plain : HasPlainConstants st) (e : Expr) → IsNormal st (expr_transform st e)
unfolding expr_transform
expr_transform-IsNormal st plain e = elim (Option-cases (transform_fuel st (weight e) e)) [
  | inl n ↦ ground (arith, n, transform_fuel_ends st plain (weight e) e (omega arith))
  | inr (x, n) ↦
      let r : Ensures (Reduced st plain (weight e)) (some x) =
        rw n at (transform_fuel_ends st plain (weight e) e (omega arith)) in
      rw (n, or_same) r.1
]

-- An expression in normal form is left as it is.
transform_fuel-eq_of_normal :
    (st : Store) (f : ℕ) (e : Expr) → IsNormal st e → weight e ≤ f → transform_fuel st f e ≡ some e
unfolding transform_fuel transform_step weight
transform_fuel-eq_of_normal st zero e n h = absurd (omega (arith, weight-pos e))
transform_fuel-eq_of_normal st (suc f) (e_equal a b) n h = ground arith
transform_fuel-eq_of_normal st (suc f) (e_unequal a b) n h = ground arith
transform_fuel-eq_of_normal st (suc f) (e_symbol s) n h = refl
transform_fuel-eq_of_normal st (suc f) (e_and l r) n h = rw (
  transform_fuel-eq_of_normal st f l n.0 (omega arith),
  transform_fuel-eq_of_normal st f r n.1 (omega arith),
)
transform_fuel-eq_of_normal st (suc f) (e_or l r) n h = rw (
  transform_fuel-eq_of_normal st f l n.0 (omega arith),
  transform_fuel-eq_of_normal st f r n.1 (omega arith),
)
transform_fuel-eq_of_normal st (suc f) (e_not (e_symbol s)) n h =
    rw (transform_fuel-eq_of_normal st f (e_symbol s) tt (omega arith)) (ground arith)
transform_fuel-eq_of_normal st (suc f) (e_not (e_not e)) n h = absurd n
transform_fuel-eq_of_normal st (suc f) (e_not (e_equal a b)) n h = absurd n
transform_fuel-eq_of_normal st (suc f) (e_not (e_unequal a b)) n h = absurd n
transform_fuel-eq_of_normal st (suc f) (e_not (e_or l r)) n h = absurd n
transform_fuel-eq_of_normal st (suc f) (e_not (e_and l r)) n h = absurd n

-- Where the constants have no boolean type, a second `expr_transform` changes nothing.
pub expr_transform_idem :
    (st : Store)
    → HasPlainConstants st
    → (e : Expr) → expr_transform st (expr_transform st e) ≡ expr_transform st e
expr_transform_idem st plain e =
    let x = expr_transform st e in
    ground (
      arith,
      transform_fuel_enough st plain (weight x) x (omega arith),
      transform_fuel-eq_of_normal st (weight x) x (expr_transform-IsNormal st plain e)
          (omega arith),
    )
