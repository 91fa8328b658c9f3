-- ===== src/Kconfig/Expr/Operators.antt =====
-- support/kconfig/expr.c: what the passes on || and && share: the operators on values, and the sizes of
-- the nodes that they take apart and build.
use cargos_buildroot.Base.{ℕ, suc, ◌+◌, ◌≤◌, ◌≡◌, refl, some, arith}
use cargos_buildroot.Kconfig.Symbol.{Tristate, expr_and, expr_or, Store}
use cargos_buildroot.Kconfig.Symbol.Coherence.{IsCoherent}
use cargos_buildroot.Kconfig.Expr.{
  Expr, e_symbol, e_not, e_equal, e_unequal, e_or, e_and, Op, op_or, op_and, binary, operands, unit,
  size, value,
}

abbrev pub combine : Op → Tristate → Tristate → Tristate
combine op_or = expr_or
combine op_and = expr_and

pub combine_medial :
    (t : Op) (a b c d : ℕ)
    → combine t (combine t a b) (combine t c d) ≡ combine t (combine t a c) (combine t b d)
combine_medial op_or a b c d = ground arith
combine_medial op_and a b c d = ground arith

pub combine_assoc : (t : Op) (a b c : ℕ) → combine t (combine t a b) c ≡ combine t a (combine t b c)
combine_assoc op_or a b c = ground arith
combine_assoc op_and a b c = ground arith

pub combine_comm : (t : Op) (a b : ℕ) → combine t a b ≡ combine t b a
combine_comm op_or a b = ground arith
combine_comm op_and a b = ground arith

pub operands-eq : (t : Op) (e l r : Expr) → operands t e ≡ some (l, r) → e ≡ binary t l r
unfolding operands binary
operands-eq op_or (e_or a b) l r h = ground arith
operands-eq op_and (e_and a b) l r h = ground arith
operands-eq op_and _ l r h = cc
operands-eq op_or _ l r h = cc

pub value-binary :
    (st : Store) (t : Op) (l r : Expr)
    → value st (binary t l r) ≡ combine t (value st l) (value st r)
unfolding value binary
value-binary st op_or l r = refl
value-binary st op_and l r = refl

pub size-pos : (e : Expr) → 1 ≤ size e
unfolding size
size-pos (e_symbol s) = omega arith
size-pos (e_not e) = omega arith
size-pos (e_equal a b) = omega arith
size-pos (e_unequal a b) = omega arith
size-pos (e_or l r) = omega arith
size-pos (e_and l r) = omega arith

pub size-unit : (t : Op) → size (unit t) ≡ 1
unfolding size unit
size-unit op_or = refl
size-unit op_and = refl

pub size-binary : (t : Op) (l r : Expr) → size (binary t l r) ≡ suc (size l + size r)
unfolding size binary
size-binary op_or l r = refl
size-binary op_and l r = refl

pub size-operands :
    (t : Op) (e l r : Expr) → operands t e ≡ some (l, r) → size e ≡ suc (size l + size r)
unfolding operands size
size-operands op_or (e_or a b) l r h = ground arith
size-operands op_and (e_and a b) l r h = ground arith
size-operands op_and _ l r h = cc
size-operands op_or _ l r h = cc

-- The value of the constant is neutral.
abbrev pub neutral : Op → Tristate
neutral op_or = 0
neutral op_and = 2

pub combine-neutral : (t : Op) (v : Tristate) → v ≤ 2 → combine t v (neutral t) ≡ v
combine-neutral op_or v h = ground arith
combine-neutral op_and v h = ground arith

pub value-unit : (st : Store) → IsCoherent st → (t : Op) → value st (unit t) ≡ neutral t
unfolding value unit
value-unit st c op_or = c.no_value
value-unit st c op_and = c.yes_value

pub combine_idem : (t : Op) (v : Tristate) → combine t v v ≡ v
combine_idem op_or v = ground arith
combine_idem op_and v = ground arith
