-- ===== src/Kconfig/Expr/Passes.antt =====
-- support/kconfig/expr.c: the passes `expr_eliminate_yn` and `expr_trans_bool`.
use cargos_buildroot.Base.{
  suc, ◌+◌, ◌≤◌, ◌≡◌, refl, ◌≢◌, Bool, true, false, ◌||◌, ◌⊎◌, inl, inr, arith, ap, ◌∙◌,
}
use cargos_buildroot.Kconfig.Symbol.{
  Symbol, symbol_no, symbol_yes, Store, SymbolType, s_tristate, type_of, sym_get_tristate_value,
}
use cargos_buildroot.Kconfig.Symbol.Coherence.{IsCoherent, string_is_n}
use cargos_buildroot.Kconfig.Expr.{
  Expr, e_symbol, e_not, e_equal, e_unequal, e_or, e_and, value, size, is_symbol, and_yn, or_yn,
  expr_eliminate_yn, expr_trans_bool, same_string, is_tristate,
}
use cargos_buildroot.Kconfig.Expr.Values.{value-le}

pub is_symbol→eq : (s : Symbol) (e : Expr) → is_symbol s e ≡ true → e ≡ e_symbol s
unfolding is_symbol
is_symbol→eq s (e_symbol t) h = ground arith
is_symbol→eq s (e_not e) h = cc
is_symbol→eq s (e_equal a b) h = cc
is_symbol→eq s (e_unequal a b) h = cc
is_symbol→eq s (e_or l r) h = cc
is_symbol→eq s (e_and l r) h = cc

module _ (st : Store) (c : IsCoherent st) where
  value-of_no : (e : Expr) → is_symbol symbol_no e ≡ true → value st e ≡ 0
  unfolding value
  value-of_no e h = ap (value st) (is_symbol→eq _ e h) ∙ c.no_value

  value-of_yes : (e : Expr) → is_symbol symbol_yes e ≡ true → value st e ≡ 2
  unfolding value
  value-of_yes e h = ap (value st) (is_symbol→eq _ e h) ∙ c.yes_value

  value-and_yn : (l r : Expr) → value st (and_yn l r) ≡ value st (e_and l r)
  unfolding and_yn value
  value-and_yn l r = ground (
    arith,
    c.no_value,
    value-of_no l,
    value-of_no r,
    value-of_yes l,
    value-of_yes r,
    value-le st c l,
    value-le st c r,
  )

  value-or_yn : (l r : Expr) → value st (or_yn l r) ≡ value st (e_or l r)
  unfolding or_yn value
  value-or_yn l r = ground (
    arith,
    c.yes_value,
    value-of_no l,
    value-of_no r,
    value-of_yes l,
    value-of_yes r,
    value-le st c l,
    value-le st c r,
  )

  -- Under a coherent store, `expr_eliminate_yn` keeps the value of every expression.
  pub value-expr_eliminate_yn : (e : Expr) → value st (expr_eliminate_yn e) ≡ value st e
  unfolding expr_eliminate_yn value
  value-expr_eliminate_yn (e_and l r) =
      value-and_yn (expr_eliminate_yn l) (expr_eliminate_yn r)
      ∙ simp (value-expr_eliminate_yn l, value-expr_eliminate_yn r)
  value-expr_eliminate_yn (e_or l r) =
      value-or_yn (expr_eliminate_yn l) (expr_eliminate_yn r)
      ∙ simp (value-expr_eliminate_yn l, value-expr_eliminate_yn r)
  value-expr_eliminate_yn (e_symbol s) = refl
  value-expr_eliminate_yn (e_not e) = refl
  value-expr_eliminate_yn (e_equal a b) = refl
  value-expr_eliminate_yn (e_unequal a b) = refl

abbrev is_constant : Expr → Bool
is_constant e = is_symbol symbol_no e || is_symbol symbol_yes e

-- No operand, at any depth above a negation, is the constant `y` or `n`.
abbrev pub IsFree : Expr → Type 0
IsFree (e_and l r) = IsFree l × IsFree r × (is_constant l ≡ false) × (is_constant r ≡ false)
IsFree (e_or l r) = IsFree l × IsFree r × (is_constant l ≡ false) × (is_constant r ≡ false)
IsFree e = Unit {0}

pub expr_eliminate_yn-eq_of_free : (e : Expr) → IsFree e → expr_eliminate_yn e ≡ e
unfolding expr_eliminate_yn and_yn or_yn
expr_eliminate_yn-eq_of_free (e_and l r) h =
    rw (expr_eliminate_yn-eq_of_free l h.0, expr_eliminate_yn-eq_of_free r h.1) (ground arith)
expr_eliminate_yn-eq_of_free (e_or l r) h =
    rw (expr_eliminate_yn-eq_of_free l h.0, expr_eliminate_yn-eq_of_free r h.1) (ground arith)
expr_eliminate_yn-eq_of_free (e_symbol s) h = refl
expr_eliminate_yn-eq_of_free (e_not e) h = refl
expr_eliminate_yn-eq_of_free (e_equal a b) h = refl
expr_eliminate_yn-eq_of_free (e_unequal a b) h = refl

size-and_yn : (l r : Expr) → size (and_yn l r) ≤ suc (size l + size r)
unfolding and_yn size
size-and_yn l r = ground arith

size-or_yn : (l r : Expr) → size (or_yn l r) ≤ suc (size l + size r)
unfolding or_yn size
size-or_yn l r = ground arith

pub size-expr_eliminate_yn : (e : Expr) → size (expr_eliminate_yn e) ≤ size e
unfolding expr_eliminate_yn size
size-expr_eliminate_yn (e_and l r) =
    omega (arith, size-and_yn, size-expr_eliminate_yn l, size-expr_eliminate_yn r)
size-expr_eliminate_yn (e_or l r) =
    omega (arith, size-or_yn, size-expr_eliminate_yn l, size-expr_eliminate_yn r)
size-expr_eliminate_yn (e_symbol s) = omega arith
size-expr_eliminate_yn (e_not e) = omega arith
size-expr_eliminate_yn (e_equal a b) = omega arith
size-expr_eliminate_yn (e_unequal a b) = omega arith

is_tristate-cases : (t : SymbolType) → (t ≡ s_tristate) ⊎ (is_tristate t ≡ false)
is_tristate-cases s_tristate = inl refl
is_tristate-cases _ = inr refl

-- Under a coherent store in which no tristate symbol is `m`, `expr_trans_bool` keeps the value of
-- every expression.
pub value-expr_trans_bool :
    (st : Store) (c : IsCoherent st)
    → ((s : Symbol) → type_of st s ≡ s_tristate → sym_get_tristate_value st s ≢ 1)
    → (e : Expr) → value st (expr_trans_bool st e) ≡ value st e
unfolding expr_trans_bool value same_string
value-expr_trans_bool st c n (e_symbol s) = refl
value-expr_trans_bool st c n (e_not e) = ground (arith, value-expr_trans_bool st c n e)
value-expr_trans_bool st c n (e_equal a b) = refl
value-expr_trans_bool st c n (e_unequal a b) = elim (is_tristate-cases (type_of st a)) [
  | inl t ↦ ground (arith, n a t, string_is_n st c a (inr t), c.bounded a)
  | inr t ↦ rw t
]
value-expr_trans_bool st c n (e_or l r) =
    ground (arith, value-expr_trans_bool st c n l, value-expr_trans_bool st c n r)
value-expr_trans_bool st c n (e_and l r) =
    ground (arith, value-expr_trans_bool st c n l, value-expr_trans_bool st c n r)
