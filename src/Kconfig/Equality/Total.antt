-- ===== src/Kconfig/Equality/Total.antt =====
-- support/kconfig/expr.c: the fuel of `expr_eq` and `expr_eliminate_eq` suffices.
use cargos_buildroot.Base.{
  ℕ, zero, suc, ◌+◌, ◌*◌, ◌≤◌, ◌≡◌, refl, Bool, Option, none, some, ◌==◌, ◌>>=◌, Bool-cases, arith,
  inl, inr, ◌≢◌, ◌⊎◌,
}
use cargos_buildroot.Kconfig.Expr.{
  Expr, e_symbol, e_not, e_equal, e_unequal, e_or, e_and, Op, operands, op_of, expr_type,
  expr_eliminate_yn, size,
}
use cargos_buildroot.Kconfig.Expr.Passes.{size-expr_eliminate_yn}
use cargos_buildroot.Kconfig.Expr.Operators.{size-pos, size-unit, size-binary, size-operands}
use cargos_buildroot.Kconfig.Equality.{
  Eliminate, eliminate_under, eliminate_second, eliminate_both, eq_eliminated, eq_step,
  eliminate_leaf, eliminate_left, eliminate_right, eliminate_by, eliminate_step, eq_fuel,
  eliminate_fuel, bound,
}

-- There is a result, and neither tree has grown.
abbrev Shrinks : ℕ → ℕ → Option (Expr × Expr) → Type 0
Shrinks n m none = ⊥
Shrinks n m (some (a, b)) = (size a ≤ n) × (size b ≤ m)

Shrinks-bind :
    (n m n' m' : ℕ) (o : Option (Expr × Expr)) (f : Expr × Expr → Option (Expr × Expr))
    → Shrinks n m o
    → ((a b : Expr) → size a ≤ n → size b ≤ m → Shrinks n' m' (f (a, b)))
    → Shrinks n' m' (o >>= f)
Shrinks-bind n m n' m' (some (a, b)) f h k = k a b h.0 h.1
Shrinks-bind n m n' m' none f h k = absurd h

-- Where elimination starts, the type is that of one of the sides.
abbrev IsSplit : Op → Expr → Expr → Type 0
IsSplit t e1 e2 = (operands t e1 ≢ none) ⊎ (operands t e2 ≢ none)

op_of-operands : (e : Expr) (t : Op) → op_of e ≡ some t → operands t e ≢ none
unfolding op_of operands
op_of-operands (e_or l r) t h = ground arith
op_of-operands (e_and l r) t h = ground arith
op_of-operands _ t h = cc

-- What the functions do with fuel `f`.
module _ (f : ℕ) (go : Eliminate)
    (go_split : (t : Op) (e1 e2 : Expr)
      → IsSplit t e1 e2
      → 3 * (size e1 + size e2) ≤ f
      → Shrinks (size e1) (size e2) (go t e1 e2))
    (go_any : (t : Op) (e1 e2 : Expr)
      → 3 * (size e1 + size e2) + 2 ≤ f
      → Shrinks (size e1) (size e2) (go t e1 e2))
    (eq : Expr → Expr → Option Bool)
    (eq_any : (e1 e2 : Expr) → 3 * (size e1 + size e2) + 1 ≤ f → eq e1 e2 ≢ none) where
  eliminate_leaf-Shrinks :
      (t : Op) (e1 e2 : Expr)
      → 3 * (size e1 + size e2) + 1 ≤ f
      → Shrinks (size e1) (size e2) (eliminate_leaf eq t e1 e2)
  unfolding eliminate_leaf
  eliminate_leaf-Shrinks t e1 e2 h =
      ground (arith, eq_any e1 e2 h, size-pos e1, size-pos e2, size-unit t)

  eliminate_left-Shrinks :
      (t : Op) (l r e2 : Expr)
      → 3 * (size l + size r + size e2) ≤ f
      → Shrinks (suc (size l + size r)) (size e2) (eliminate_left go t (l, r) e2)
  eliminate_left-Shrinks t l r e2 h =
      Shrinks-bind (size l) (size e2) _ _ (go t l e2) _ (go_any t l e2 (omega (arith, size-pos r)))
        λ l' a2 p q.
          Shrinks-bind (size r) (size a2) _ _ (go t r a2) _
            (go_any t r a2 (omega (arith, size-pos l)))
            λ r' b2 p' q'. (omega (arith, size-binary t l' r'), omega arith)

  eliminate_right-Shrinks :
      (t : Op) (e1 l r : Expr)
      → 3 * (size e1 + size l + size r) ≤ f
      → Shrinks (size e1) (suc (size l + size r)) (eliminate_right go t e1 (l, r))
  eliminate_right-Shrinks t e1 l r h =
      Shrinks-bind (size e1) (size l) _ _ (go t e1 l) _ (go_any t e1 l (omega (arith, size-pos r)))
        λ a1 l' p q.
          Shrinks-bind (size a1) (size r) _ _ (go t a1 r) _
            (go_any t a1 r (omega (arith, size-pos l)))
            λ b1 r' p' q'. (omega arith, omega (arith, size-binary t l' r'))

  eliminate_by-Shrinks :
      (t : Op) (e1 e2 : Expr) (o1 o2 : Option (Expr × Expr))
      → operands t e1 ≡ o1
      → operands t e2 ≡ o2
      → 3 * (size e1 + size e2) ≤ suc f
      → (o1 ≡ none → o2 ≡ none → 3 * (size e1 + size e2) + 1 ≤ f)
      → Shrinks (size e1) (size e2) (eliminate_by go eq t e1 e2 o1 o2)
  eliminate_by-Shrinks t e1 e2 (some (l, r)) _ p q h k =
      rw (size-operands t e1 l r p)
        (eliminate_left-Shrinks t l r e2 (omega (arith, size-operands t e1 l r p)))
  eliminate_by-Shrinks t e1 e2 none (some (l, r)) p q h k =
      rw (size-operands t e2 l r q)
        (eliminate_right-Shrinks t e1 l r (omega (arith, size-operands t e2 l r q)))
  eliminate_by-Shrinks t e1 e2 none none p q h k = eliminate_leaf-Shrinks t e1 e2 (k refl refl)

  eliminate_step-Shrinks_any :
      (t : Op) (e1 e2 : Expr)
      → 3 * (size e1 + size e2) + 2 ≤ suc f
      → Shrinks (size e1) (size e2) (eliminate_step go eq t e1 e2)
  unfolding eliminate_step
  eliminate_step-Shrinks_any t e1 e2 h =
      eliminate_by-Shrinks t e1 e2 _ _ refl refl (omega arith) (λ _ _. omega arith)

  eliminate_step-Shrinks_split :
      (t : Op) (e1 e2 : Expr)
      → IsSplit t e1 e2
      → 3 * (size e1 + size e2) ≤ suc f
      → Shrinks (size e1) (size e2) (eliminate_step go eq t e1 e2)
  unfolding eliminate_step
  eliminate_step-Shrinks_split t e1 e2 s h =
      eliminate_by-Shrinks t e1 e2 _ _ refl refl h (λ p q. ground arith)

  eliminate_under-Shrinks :
      (o : Option Op) (e1 e2 : Expr)
      → ((t : Op) → o ≡ some t → IsSplit t e1 e2)
      → 3 * (size e1 + size e2) ≤ f
      → Shrinks (size e1) (size e2) (eliminate_under go o e1 e2)
  eliminate_under-Shrinks none e1 e2 s h = omega arith
  eliminate_under-Shrinks (some t) e1 e2 s h = go_split t e1 e2 (s t refl) h

  eliminate_second-Shrinks :
      (e1 e2 : Expr)
      → 3 * (size e1 + size e2) ≤ f
      → Shrinks (size e1) (size e2) (eliminate_second go e1 e2)
  eliminate_second-Shrinks e1 e2 h = elim (Bool-cases (expr_type e1 == expr_type e2)) [
    | inl e ↦ rw e (omega arith)
    | inr e ↦ rw e (eliminate_under-Shrinks (op_of e2) e1 e2 (λ t p. inr (op_of-operands e2 t p)) h)
  ]

  pub eliminate_both-Shrinks :
      (e1 e2 : Expr)
      → 3 * (size e1 + size e2) ≤ f
      → Shrinks (size e1) (size e2) (eliminate_both go e1 e2)
  unfolding eliminate_both
  eliminate_both-Shrinks e1 e2 h =
      Shrinks-bind (size e1) (size e2) _ _ (eliminate_under go (op_of e1) e1 e2)
        (λ x.
          eliminate_second go x.0 x.1 >>= λ y. some (expr_eliminate_yn y.0, expr_eliminate_yn y.1))
        (eliminate_under-Shrinks (op_of e1) e1 e2 (λ t p. inl (op_of-operands e1 t p)) h)
        λ a1 a2 p q.
          Shrinks-bind (size a1) (size a2) _ _ (eliminate_second go a1 a2)
            (λ y. some (expr_eliminate_yn y.0, expr_eliminate_yn y.1))
            (eliminate_second-Shrinks a1 a2 (omega arith))
            λ b1 b2 p' q'.
              (omega (arith, size-expr_eliminate_yn b1), omega (arith, size-expr_eliminate_yn b2))

  eq_eliminated-ne-none :
      (e1 e2 : Expr) → 3 * (size e1 + size e2) ≤ f → eq_eliminated go e1 e2 ≢ none
  unfolding eq_eliminated
  eq_eliminated-ne-none e1 e2 h = ground (arith, eliminate_both-Shrinks e1 e2 h)

  eq_step-ne-none :
      (e1 e2 : Expr) → 3 * (size e1 + size e2) + 1 ≤ suc f → eq_step go eq e1 e2 ≢ none
  unfolding eq_step size
  eq_step-ne-none (e_equal a b) (e_equal a' b') h = cc
  eq_step-ne-none (e_unequal a b) (e_unequal a' b') h = cc
  eq_step-ne-none (e_symbol a) (e_symbol b) h = cc
  eq_step-ne-none (e_not a) (e_not b) h = eq_any a b (omega arith)
  eq_step-ne-none (e_and a b) (e_and a' b') h = eq_eliminated-ne-none _ _ (omega arith)
  eq_step-ne-none (e_or a b) (e_or a' b') h = eq_eliminated-ne-none _ _ (omega arith)
  eq_step-ne-none _ _ h = cc

mutual
  unfolding eq_fuel eliminate_fuel

  pub eq_fuel-ne-none :
      (f : ℕ) (e1 e2 : Expr) → 3 * (size e1 + size e2) + 1 ≤ f → eq_fuel f e1 e2 ≢ none
  eq_fuel-ne-none zero e1 e2 h = absurd (omega arith)
  eq_fuel-ne-none (suc f) e1 e2 h =
      eq_step-ne-none f (eliminate_fuel f) (split_Shrinks f) (any_Shrinks f) (eq_fuel f)
        (eq_fuel-ne-none f) e1 e2 h

  split_Shrinks :
      (f : ℕ) (t : Op) (e1 e2 : Expr)
      → IsSplit t e1 e2
      → 3 * (size e1 + size e2) ≤ f
      → Shrinks (size e1) (size e2) (eliminate_fuel f t e1 e2)
  split_Shrinks zero t e1 e2 s h = absurd (omega (arith, size-pos e1))
  split_Shrinks (suc f) t e1 e2 s h =
      eliminate_step-Shrinks_split f (eliminate_fuel f) (split_Shrinks f) (any_Shrinks f)
        (eq_fuel f) (eq_fuel-ne-none f) t e1 e2 s h

  any_Shrinks :
      (f : ℕ) (t : Op) (e1 e2 : Expr)
      → 3 * (size e1 + size e2) + 2 ≤ f
      → Shrinks (size e1) (size e2) (eliminate_fuel f t e1 e2)
  any_Shrinks zero t e1 e2 h = absurd (omega arith)
  any_Shrinks (suc f) t e1 e2 h =
      eliminate_step-Shrinks_any f (eliminate_fuel f) (split_Shrinks f) (any_Shrinks f) (eq_fuel f)
        (eq_fuel-ne-none f) t e1 e2 h

pub eliminate_both-ne-none :
    (f : ℕ) (e1 e2 : Expr) → bound e1 e2 ≤ f → eliminate_both (eliminate_fuel f) e1 e2 ≢ none
eliminate_both-ne-none f e1 e2 h = ground (
  arith,
  eliminate_both-Shrinks f (eliminate_fuel f) (split_Shrinks f) (any_Shrinks f) (eq_fuel f)
      (eq_fuel-ne-none f) e1 e2 (omega arith),
)
