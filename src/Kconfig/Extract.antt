-- ===== src/Kconfig/Extract.antt =====
-- support/kconfig/expr.c: `expr_extract_eq`, which moves the operands that two trees share into a
-- third. The recursion takes fuel; one round for each node of the two trees is enough.
pub mod Meaning
use cargos_buildroot.Base.{
  ℕ, zero, suc, ◌+◌, Bool, true, false, Option, none, some, if◌then◌else◌, ◌>>=◌,
}
use cargos_buildroot.Kconfig.Expr.{Expr, Op, binary, operands, unit, expr_eliminate_yn, size}
use cargos_buildroot.Kconfig.Equality.{expr_eq}

-- `*ep`, `*ep1` and `*ep2`. The first is NULL until something is extracted.
pub record Extraction : Type 0 where
  pub common : Option Expr
  pub left : Expr
  pub right : Expr

abbrev pub Extract : Type 0
Extract = Option Expr → Expr → Expr → Option Extraction

-- `*ep = *ep ? expr_alloc_two(type, *ep, e1) : e1`
unfoldable pub extend : Op → Option Expr → Expr → Expr
unfolding binary
extend t none e = e
extend t (some acc) e = binary t acc e

unfoldable pub extract_leaf : Op → Extract
unfolding extend unit expr_eq
extract_leaf t acc e1 e2 =
    if expr_eq e1 e2
    then some (record { common = some (extend t acc e1); left = unit t; right = unit t })
    else some (record { common = acc; left = e1; right = e2 })

abbrev pub extract_left : Op → Extract → Option Expr → Expr × Expr → Expr → Option Extraction
extract_left t go acc (l, r) e2 = do
  a ← go acc l e2
  b ← go a.common r a.right
  some (record { common = b.common; left = binary t a.left b.left; right = b.right })

abbrev pub extract_right : Op → Extract → Option Expr → Expr → Expr × Expr → Option Extraction
extract_right t go acc e1 (l, r) = do
  a ← go acc e1 l
  b ← go a.common a.left r
  some (record { common = b.common; left = b.left; right = binary t a.right b.right })

abbrev pub extract_by :
    Op
    → Extract
    → Option Expr
    → Expr
    → Expr
    → Option (Expr × Expr)
    → Option (Expr × Expr)
    → Option Extraction
extract_by t go acc e1 e2 (some lr) _ = extract_left t go acc lr e2
extract_by t go acc e1 e2 none (some lr) = extract_right t go acc e1 lr
extract_by t go acc e1 e2 none none = extract_leaf t acc e1 e2

unfoldable pub expr_extract_eq : ℕ → Op → Extract
unfolding operands binary extract_leaf
expr_extract_eq zero t acc e1 e2 = none
expr_extract_eq (suc f) t acc e1 e2 =
    extract_by t (expr_extract_eq f t) acc e1 e2 (operands t e1) (operands t e2)

-- `expr_extract_eq_and` and `expr_extract_eq_or`, for the two types.
abbrev pub clean : Option Extraction → Option Extraction
clean none = none
clean (some x) = elim x.common [
  | none ↦ some x
  | some e ↦ some (record {
    common = some e;
    left = expr_eliminate_yn x.left;
    right = expr_eliminate_yn x.right;
  })
]

unfoldable pub extract_eq : Op → Expr → Expr → Option Extraction
unfolding expr_extract_eq expr_eliminate_yn size
extract_eq t e1 e2 = clean (expr_extract_eq (suc (size e1 + size e2)) t none e1 e2)
