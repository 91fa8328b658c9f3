-- ===== src/Kconfig/Join/Sound.antt =====
-- support/kconfig/expr.c: a joined operand has the value of the two that it replaces.
use cargos_buildroot.Base.{
  ◌≡◌, refl, true, ◌&&◌, Option, none, some, inl, inr, ◌==◌, Allows, Allows-bind, Allows-map,
  Bool-cases, arith, eq_iff,
}
use cargos_buildroot.Kconfig.Symbol.{
  Symbol, Store, SymbolType, s_boolean, s_tristate, type_of, sym_get_string_value,
}
use cargos_buildroot.Kconfig.Symbol.Coherence.{
  IsCoherent, IsLogical, string_is_n, string_is_m, string_is_y,
}
use cargos_buildroot.Kconfig.Expr.{
  Expr, e_symbol, e_not, e_equal, e_unequal, e_or, e_and, value, same_string,
}
use cargos_buildroot.Kconfig.Equality.{expr_eq}
use cargos_buildroot.Kconfig.Equality.Sound.{expr_eq_sound}
use cargos_buildroot.Kconfig.Join.{
  first_symbol, second_symbol, is_logical, common_symbol, join_or_tristate, join_or_boolean,
  join_or_rules, expr_join_or, join_clash, join_unequal, join_and_tristate, join_and_rules,
  expr_join_and,
}

-- The symbol on the left of a comparison, alone, or negated.
abbrev Leads : Symbol → Expr → Type 0
Leads s (e_symbol a) = a ≡ s
Leads s (e_equal a b) = a ≡ s
Leads s (e_unequal a b) = a ≡ s
Leads s (e_not (e_symbol a)) = a ≡ s
Leads s _ = Unit {0}

itself : {A : Type 0} (o : Option A) → Allows (λ a. o ≡ some a) o
itself none = tt
itself (some a) = refl

first_symbol-Leads : (s : Symbol) (e : Expr) → first_symbol e ≡ some s → Leads s e
unfolding first_symbol
first_symbol-Leads s (e_symbol a) h = ground arith
first_symbol-Leads s (e_equal a b) h = ground arith
first_symbol-Leads s (e_unequal a b) h = ground arith
first_symbol-Leads s (e_not (e_symbol a)) h = ground arith
first_symbol-Leads s _ h = tt

second_symbol-Leads : (s : Symbol) (e : Expr) → second_symbol e ≡ some s → Leads s e
unfolding second_symbol
second_symbol-Leads s (e_symbol a) h = ground arith
second_symbol-Leads s (e_equal a b) h = ground arith
second_symbol-Leads s (e_unequal a b) h = ground arith
second_symbol-Leads s (e_not (e_symbol a)) h = ground arith
second_symbol-Leads s _ h = tt

is_logical-IsLogical : (st : Store) (s : Symbol) → is_logical (type_of st s) ≡ true → IsLogical st s
is_logical-IsLogical st s h = ground arith

common_symbol_lem :
    (st : Store) (e1 e2 : Expr)
    → Allows (λ s. Leads s e1 × Leads s e2 × IsLogical st s) (common_symbol st e1 e2)
unfolding common_symbol
common_symbol_lem st e1 e2 =
    Allows-bind (λ s. first_symbol e1 ≡ some s) _ (first_symbol e1) _ (itself (first_symbol e1))
      λ s p.
        Allows-bind (λ s. second_symbol e2 ≡ some s) _ (second_symbol e2) _
          (itself (second_symbol e2))
          λ t q. elim (Bool-cases (s == t && is_logical (type_of st s))) [
            | inl e ↦ rw e (
              first_symbol-Leads s e1 p,
              second_symbol-Leads s e2 (ground arith),
              is_logical-IsLogical st s (ground arith),
            )
            | inr e ↦ rw e tt
          ]

-- For a logical symbol the two sides' values are functions of the symbol's own value.
module _ (st : Store) (c : IsCoherent st) (s : Symbol) (t : IsLogical st s) where
  abbrev OrValue : Expr → Expr → Expr → Type 0
  OrValue e1 e2 x = value st x ≡ value st (e_or e1 e2)

  abbrev AndValue : Expr → Expr → Expr → Type 0
  AndValue e1 e2 x = value st x ≡ value st (e_and e1 e2)

  join_or_tristate_sound :
      (e1 e2 : Expr) → Leads s e1 → Leads s e2 → Allows (OrValue e1 e2) (join_or_tristate s e1 e2)
  unfolding join_or_tristate value same_string
  join_or_tristate_sound (e_equal a b) (e_equal a' b') p q =
      ground (arith, c.bounded s, string_is_n st c s t, string_is_m st c s t, string_is_y st c s t)
  join_or_tristate_sound _ _ p q = ground arith

  join_or_boolean_sound :
      type_of st s ≡ s_boolean
      → (e1 e2 : Expr) → Leads s e1
      → Leads s e2
      → Allows (OrValue e1 e2) (join_or_boolean e1 e2)
  unfolding join_or_boolean value
  join_or_boolean_sound b e1 e2 p q = ground (arith, c.bounded s, c.boolean_value s b, c.yes_value)

  join_clash-equal :
      (b d : Symbol) → Allows (AndValue (e_equal s b) (e_unequal s d)) (join_clash st s b d)
  unfolding join_clash value same_string
  join_clash-equal b d = ground (
    arith,
    c.no_value,
    c.const_strings b d,
    eq_iff (sym_get_string_value st s) (sym_get_string_value st b),
    eq_iff (sym_get_string_value st s) (sym_get_string_value st d),
  )

  join_unequal_sound :
      (e1 e2 : Expr) → Leads s e1 → Leads s e2 → Allows (AndValue e1 e2) (join_unequal s e1 e2)
  unfolding join_unequal value same_string
  join_unequal_sound (e_unequal a b) (e_unequal a' b') p q =
      ground (arith, c.bounded s, string_is_n st c s t, string_is_m st c s t, string_is_y st c s t)
  join_unequal_sound _ _ p q = ground arith

  join_and_tristate_sound :
      (e1 e2 : Expr)
      → Leads s e1
      → Leads s e2
      → Allows (AndValue e1 e2) (join_and_tristate st s e1 e2)
  unfolding join_and_tristate value
  join_and_tristate_sound (e_equal a b) (e_unequal a' d) p q = rw (p, q) (join_clash-equal b d)
  join_and_tristate_sound (e_unequal a d) (e_equal a' b) p q =
      Allows-map (AndValue (e_equal s b) (e_unequal s d)) _ _ (join_clash-equal b d)
        (λ x e. ground (arith, e))
  join_and_tristate_sound e1 e2 p q = join_unequal_sound e1 e2 p q

  join_and_rules_sound :
      (e1 e2 : Expr) → Leads s e1 → Leads s e2 → Allows (AndValue e1 e2) (join_and_rules st s e1 e2)
  unfolding join_and_rules value same_string
  join_and_rules_sound e1 e2 p q = ground (
    arith,
    c.bounded s,
    string_is_n st c s t,
    string_is_m st c s t,
    string_is_y st c s t,
    join_and_tristate_sound e1 e2 p q,
  )

  join_or_rules_sound :
      (k : SymbolType)
      → type_of st s ≡ k
      → (e1 e2 : Expr) → Leads s e1
      → Leads s e2
      → Allows (OrValue e1 e2) (join_or_rules k s e1 e2)
  join_or_rules_sound s_tristate k e1 e2 p q = join_or_tristate_sound e1 e2 p q
  join_or_rules_sound s_boolean k e1 e2 p q = join_or_boolean_sound k e1 e2 p q
  join_or_rules_sound _ k e1 e2 p q = tt

module _ (st : Store) (c : IsCoherent st) (e1 e2 : Expr) where
  joined_or : Allows (λ x. value st x ≡ value st (e_or e1 e2)) (expr_join_or st e1 e2)
  unfolding expr_join_or value
  joined_or = elim (Bool-cases (expr_eq e1 e2)) [
    | inl e ↦ rw e (ground (arith, expr_eq_sound st c e1 e2 e))
    | inr e ↦ rw e (
        Allows-bind (λ s. Leads s e1 × Leads s e2 × IsLogical st s) _ (common_symbol st e1 e2) _
          (common_symbol_lem st e1 e2)
          (λ s (p, q, t). join_or_rules_sound st c s t (type_of st s) refl e1 e2 p q))
  ]

  joined_and : Allows (λ x. value st x ≡ value st (e_and e1 e2)) (expr_join_and st e1 e2)
  unfolding expr_join_and value
  joined_and = elim (Bool-cases (expr_eq e1 e2)) [
    | inl e ↦ rw e (ground (arith, expr_eq_sound st c e1 e2 e))
    | inr e ↦ rw e (
        Allows-bind (λ s. Leads s e1 × Leads s e2 × IsLogical st s) _ (common_symbol st e1 e2) _
          (common_symbol_lem st e1 e2) (λ s (p, q, t). join_and_rules_sound st c s t e1 e2 p q))
  ]

-- Under a coherent store, the expression that `expr_join_or` returns has the value of the
-- disjunction of its arguments.
pub expr_join_or_sound :
    (st : Store)
    → IsCoherent st
    → (e1 e2 x : Expr) → expr_join_or st e1 e2 ≡ some x
    → value st x ≡ value st (e_or e1 e2)
expr_join_or_sound st c e1 e2 x h = rw h at (joined_or st c e1 e2)

-- Under a coherent store, the expression that `expr_join_and` returns has the value of the
-- conjunction of its arguments.
pub expr_join_and_sound :
    (st : Store)
    → IsCoherent st
    → (e1 e2 x : Expr) → expr_join_and st e1 e2 ≡ some x
    → value st x ≡ value st (e_and e1 e2)
expr_join_and_sound st c e1 e2 x h = rw h at (joined_and st c e1 e2)
