-- ===== src/Kconfig/Extract/Meaning.antt =====
-- support/kconfig/expr.c: the parts that `expr_extract_eq` leaves, joined with the common part, have
-- the values of the trees that it was given.
use cargos_buildroot.Base.{
  ℕ, zero, suc, ◌+◌, ◌≤◌, ◌≡◌, refl, sym, ap, ◌∙◌, Option, none, some, Option-cases, Bool-cases,
  arith, inl, inr, Ensures, Ensures-bind, Ensures-map, Ensures-some,
}
use cargos_buildroot.Kconfig.Symbol.{Tristate, Store}
use cargos_buildroot.Kconfig.Symbol.Coherence.{IsCoherent}
use cargos_buildroot.Kconfig.Expr.{Expr, Op, binary, operands, unit, size, value}
use cargos_buildroot.Kconfig.Expr.Values.{value-le}
use cargos_buildroot.Kconfig.Expr.Passes.{value-expr_eliminate_yn}
use cargos_buildroot.Kconfig.Expr.Operators.{
  combine, combine_assoc, combine_comm, combine-neutral, neutral, value-unit, operands-eq,
  value-binary, size-pos, size-unit, size-binary, size-operands,
}
use cargos_buildroot.Kconfig.Equality.{expr_eq}
use cargos_buildroot.Kconfig.Equality.Sound.{expr_eq_sound}
use cargos_buildroot.Kconfig.Extract.{
  Extraction, Extract, extend, extract_leaf, extract_left, extract_right, extract_by,
  expr_extract_eq, clean, extract_eq,
}

-- The value of what is extracted so far.
abbrev pub common_value : Store → Op → Option Expr → Tristate
common_value st t none = neutral t
common_value st t (some e) = value st e

abbrev pub joined : Store → Op → Option Expr → Expr → Tristate
joined st t acc e = combine t (common_value st t acc) (value st e)

-- a ⊕ (l ⊕ r) = c ⊕ (l' ⊕ r'), if a ⊕ l = b ⊕ l' and b ⊕ r = c ⊕ r'.
combine_chain :
    (t : Op) (a b d l l' r r' : Tristate)
    → combine t a l ≡ combine t b l'
    → combine t b r ≡ combine t d r'
    → combine t a (combine t l r) ≡ combine t d (combine t l' r')
combine_chain t a b d l l' r r' p q =
    sym (combine_assoc t a l r)
    ∙ ap (λ z. combine t z r) (p ∙ combine_comm t b l')
    ∙ combine_assoc t l' b r
    ∙ ap (combine t l') (q ∙ combine_comm t d r')
    ∙ sym (combine_assoc t l' r' d)
    ∙ combine_comm t (combine t l' r') d

module _ (st : Store) (c : IsCoherent st) (t : Op) where
  -- Both trees keep their value, up to the common part, and do not grow.
  abbrev Splits : Option Expr → Expr → Expr → Extraction → Type 0
  Splits acc e1 e2 x =
      (joined st t acc e1 ≡ joined st t x.common x.left)
      × (joined st t acc e2 ≡ joined st t x.common x.right)
      × (size x.left ≤ size e1)
      × (size x.right ≤ size e2)

  value-extend :
      (acc : Option Expr) (e : Expr)
      → value st (extend t acc e) ≡ combine t (common_value st t acc) (value st e)
  unfolding extend
  value-extend none e =
      sym (combine_comm t (neutral t) (value st e) ∙ combine-neutral t _ (value-le st c e))
  value-extend (some a) e = value-binary st t a e

  moved :
      (acc : Option Expr) (e : Expr)
      → joined st t acc e ≡ joined st t (some (extend t acc e)) (unit t)
  moved acc e =
      rw (value-unit st c t, combine-neutral t _ (value-le st c (extend t acc e)))
        (sym (value-extend acc e))

  extract_leaf-Splits :
      (acc : Option Expr) (e1 e2 : Expr) → Ensures (Splits acc e1 e2) (extract_leaf t acc e1 e2)
  unfolding extract_leaf
  extract_leaf-Splits acc e1 e2 = elim (Bool-cases (expr_eq e1 e2)) [
    | inl e ↦ rw e (
      moved acc e1,
      ap (combine t (common_value st t acc)) (sym (expr_eq_sound st c e1 e2 e)) ∙ moved acc e1,
      omega (arith, size-unit t, size-pos e1),
      omega (arith, size-unit t, size-pos e2),
    )
    | inr e ↦ rw e (refl, refl, omega arith, omega arith)
  ]

  module _ (f : ℕ) (go : Extract)
      (go_splits : (acc : Option Expr) (e1 e2 : Expr)
        → size e1 + size e2 ≤ f
        → Ensures (Splits acc e1 e2) (go acc e1 e2)) where
    extract_left-Splits :
        (acc : Option Expr) (l r e2 : Expr)
        → size l + size r + size e2 ≤ f
        → Ensures (Splits acc (binary t l r) e2) (extract_left t go acc (l, r) e2)
    extract_left-Splits acc l r e2 h =
        Ensures-bind (Splits acc l e2) _ (go acc l e2) _ (go_splits acc l e2 (omega arith))
          λ a (p, q, m, n).
            Ensures-bind (Splits a.common r a.right) _ (go a.common r a.right) _
              (go_splits a.common r a.right (omega arith))
              λ b (p', q', m', n'). (
                rw (value-binary st t l r, value-binary st t a.left b.left)
                    (combine_chain t _ _ _ _ _ _ _ p p'),
                q ∙ q',
                omega (arith, size-binary t l r, size-binary t a.left b.left),
                omega arith,
              )

    extract_right-Splits :
        (acc : Option Expr) (e1 l r : Expr)
        → size e1 + size l + size r ≤ f
        → Ensures (Splits acc e1 (binary t l r)) (extract_right t go acc e1 (l, r))
    extract_right-Splits acc e1 l r h =
        Ensures-bind (Splits acc e1 l) _ (go acc e1 l) _ (go_splits acc e1 l (omega arith))
          λ a (p, q, m, n).
            Ensures-bind (Splits a.common a.left r) _ (go a.common a.left r) _
              (go_splits a.common a.left r (omega arith))
              λ b (p', q', m', n'). (
                p ∙ p',
                rw (value-binary st t l r, value-binary st t a.right b.right)
                    (combine_chain t _ _ _ _ _ _ _ q q'),
                omega arith,
                omega (arith, size-binary t l r, size-binary t a.right b.right),
              )

    extract_by-Splits :
        (acc : Option Expr) (e1 e2 : Expr) (o1 o2 : Option (Expr × Expr))
        → operands t e1 ≡ o1
        → operands t e2 ≡ o2
        → size e1 + size e2 ≤ suc f
        → Ensures (Splits acc e1 e2) (extract_by t go acc e1 e2 o1 o2)
    extract_by-Splits acc e1 e2 (some (l, r)) _ p q h =
        rw (operands-eq t e1 l r p)
          (extract_left-Splits acc l r e2 (omega (arith, size-operands t e1 l r p)))
    extract_by-Splits acc e1 e2 none (some (l, r)) p q h =
        rw (operands-eq t e2 l r q)
          (extract_right-Splits acc e1 l r (omega (arith, size-operands t e2 l r q)))
    extract_by-Splits acc e1 e2 none none p q h = extract_leaf-Splits acc e1 e2

  expr_extract_eq-Splits :
      (f : ℕ) (acc : Option Expr) (e1 e2 : Expr)
      → size e1 + size e2 ≤ f
      → Ensures (Splits acc e1 e2) (expr_extract_eq f t acc e1 e2)
  unfolding expr_extract_eq
  expr_extract_eq-Splits zero acc e1 e2 h = absurd (omega (arith, size-pos e1))
  expr_extract_eq-Splits (suc f) acc e1 e2 h =
      extract_by-Splits f (expr_extract_eq f t) (expr_extract_eq-Splits f) acc e1 e2 _ _ refl refl h

  joined-none : (e : Expr) → joined st t none e ≡ value st e
  joined-none e = combine_comm t (neutral t) _ ∙ combine-neutral t _ (value-le st c e)

  abbrev Recovers : Expr → Expr → Extraction → Type 0
  Recovers e1 e2 x =
      (value st e1 ≡ joined st t x.common x.left) × (value st e2 ≡ joined st t x.common x.right)

  clean-Recovers :
      (e1 e2 : Expr) (o : Option Extraction)
      → Ensures (Recovers e1 e2) o
      → Ensures (Recovers e1 e2) (clean o)
  clean-Recovers e1 e2 none h = absurd h
  clean-Recovers e1 e2 (some x) h = elim (Option-cases x.common) [
    | inl e ↦ ground (arith, e)
    | inr (a, e) ↦
        ground (arith, e, value-expr_eliminate_yn st c x.left, value-expr_eliminate_yn st c x.right)
  ]

-- Under a coherent store, `expr_extract_eq_and` and `expr_extract_eq_or` return, and the value of
-- each tree is that of its remaining part joined, by the operator, with the common part.
pub extract_eq_recovers :
    (st : Store) (c : IsCoherent st) (t : Op) (e1 e2 : Expr)
    → (x : Extraction) × (extract_eq t e1 e2 ≡ some x)
      × (value st e1 ≡ joined st t x.common x.left)
      × (value st e2 ≡ joined st t x.common x.right)
unfolding extract_eq
extract_eq_recovers st c t e1 e2 =
    let start = expr_extract_eq (suc (size e1 + size e2)) t none e1 e2 in
    let (x, p, r) = Ensures-some (Recovers st c t e1 e2) (clean start) (
      clean-Recovers st c t e1 e2 start (
        Ensures-map (Splits st c t none e1 e2) (Recovers st c t e1 e2) start
          (expr_extract_eq-Splits st c t (suc (size e1 + size e2)) none e1 e2 (omega arith))
          (λ y s. (sym (joined-none st c t e1) ∙ s.0, sym (joined-none st c t e2) ∙ s.1)))) in
    (x, p, r.0, r.1)
