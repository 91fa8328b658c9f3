-- ===== src/Kconfig/Transform/Meaning.antt =====
-- support/kconfig/expr.c: `expr_transform` keeps the value of an expression.
use cargos_buildroot.Base.{
  ℕ, zero, suc, ◌≡◌, refl, ap, ap₂, ◌∙◌, false, Option, ◌⊎◌, inl, inr, Allows, Allows-bind,
  Allows-map, arith,
}
use cargos_buildroot.Kconfig.Symbol.{
  Symbol, Store, SymbolType, s_boolean, type_of, expr_not, expr_and, expr_or,
}
use cargos_buildroot.Kconfig.Symbol.Coherence.{IsCoherent, string_is_n, string_is_m, string_is_y}
use cargos_buildroot.Kconfig.Expr.{
  Expr, e_symbol, e_not, e_equal, e_unequal, e_or, e_and, value, same_string,
}
use cargos_buildroot.Kconfig.Expr.Values.{value-le}
use cargos_buildroot.Kconfig.Transform.{
  is_boolean, transform_equal, transform_unequal, negate_symbol, transform_not, transform_step,
  transform_fuel, weight, expr_transform,
}

is_boolean-cases : (t : SymbolType) → (t ≡ s_boolean) ⊎ (is_boolean t ≡ false)
is_boolean-cases s_boolean = inl refl
is_boolean-cases _ = inr refl

module _ (st : Store) (c : IsCoherent st) where
  abbrev Keeps : Expr → Option Expr → Type 0
  Keeps e = Allows (λ x. value st x ≡ value st e)

  value-transform_equal :
      (a b : Symbol) → value st (transform_equal st a b) ≡ value st (e_equal a b)
  unfolding transform_equal value same_string
  value-transform_equal a b = elim (is_boolean-cases (type_of st a)) [
    | inl t ↦ ground (
      arith,
      t,
      c.no_value,
      c.bounded a,
      c.boolean_value a t,
      string_is_n st c a (inl t),
      string_is_m st c a (inl t),
      string_is_y st c a (inl t),
    )
    | inr t ↦ rw t
  ]

  value-transform_unequal :
      (a b : Symbol) → value st (transform_unequal st a b) ≡ value st (e_unequal a b)
  unfolding transform_unequal value same_string
  value-transform_unequal a b = elim (is_boolean-cases (type_of st a)) [
    | inl t ↦ ground (
      arith,
      t,
      c.yes_value,
      c.bounded a,
      c.boolean_value a t,
      string_is_n st c a (inl t),
      string_is_m st c a (inl t),
      string_is_y st c a (inl t),
    )
    | inr t ↦ rw t
  ]

  value-negate_symbol : (s : Symbol) → value st (negate_symbol s) ≡ value st (e_not (e_symbol s))
  unfolding negate_symbol value
  value-negate_symbol s = ground (arith, c.no_value, c.mod_value, c.yes_value)

  module _ (go : Expr → Option Expr) (go_keeps : (e : Expr) → Keeps e (go e)) where
    transform_not-Keeps : (e : Expr) → Keeps (e_not e) (transform_not go e)
    unfolding transform_not value
    transform_not-Keeps (e_not a) =
        Allows-map (λ x. value st x ≡ value st a) _ (go a) (go_keeps a)
          (λ x p. p ∙ omega (arith, value-le st c a))
    transform_not-Keeps (e_equal a b) = ground arith
    transform_not-Keeps (e_unequal a b) = ground arith
    transform_not-Keeps (e_or a b) =
        Allows-map (λ x. value st x ≡ value st (e_and (e_not a) (e_not b))) _
          (go (e_and (e_not a) (e_not b))) (go_keeps (e_and (e_not a) (e_not b)))
          (λ x p. p ∙ ground (arith, value-le st c a, value-le st c b))
    transform_not-Keeps (e_and a b) =
        Allows-map (λ x. value st x ≡ value st (e_or (e_not a) (e_not b))) _
          (go (e_or (e_not a) (e_not b))) (go_keeps (e_or (e_not a) (e_not b)))
          (λ x p. p ∙ ground (arith, value-le st c a, value-le st c b))
    transform_not-Keeps (e_symbol s) = value-negate_symbol s

    transform_step-Keeps : (e : Expr) → Keeps e (transform_step st go e)
    unfolding transform_step value
    transform_step-Keeps (e_equal a b) = value-transform_equal a b
    transform_step-Keeps (e_unequal a b) = value-transform_unequal a b
    transform_step-Keeps (e_symbol s) = refl
    transform_step-Keeps (e_and l r) =
        Allows-bind (λ x. value st x ≡ value st l) _ (go l) _ (go_keeps l)
          λ l' p.
            Allows-bind (λ x. value st x ≡ value st r) _ (go r) _ (go_keeps r)
              λ r' q. ap₂ expr_and p q
    transform_step-Keeps (e_or l r) =
        Allows-bind (λ x. value st x ≡ value st l) _ (go l) _ (go_keeps l)
          λ l' p.
            Allows-bind (λ x. value st x ≡ value st r) _ (go r) _ (go_keeps r)
              λ r' q. ap₂ expr_or p q
    transform_step-Keeps (e_not e) =
        Allows-bind (λ x. value st x ≡ value st e) _ (go e) (transform_not go) (go_keeps e)
          λ e' p.
            Allows-map (λ x. value st x ≡ value st (e_not e')) _ (transform_not go e')
              (transform_not-Keeps e') (λ x q. q ∙ ap expr_not p)

  transform_fuel-Keeps : (f : ℕ) (e : Expr) → Keeps e (transform_fuel st f e)
  unfolding transform_fuel
  transform_fuel-Keeps zero e = tt
  transform_fuel-Keeps (suc f) e =
      transform_step-Keeps (transform_fuel st f) (transform_fuel-Keeps f) e

-- Under a coherent store `expr_transform` keeps the value of every expression.
pub value-expr_transform :
    (st : Store) → IsCoherent st → (e : Expr) → value st (expr_transform st e) ≡ value st e
unfolding expr_transform
value-expr_transform st c e = ground (arith, transform_fuel-Keeps st c (weight e) e)
