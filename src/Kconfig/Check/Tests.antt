-- ===== src/Kconfig/Check/Tests.antt =====
-- support/kconfig/symbol.c: four symbols of which two depend on each other, with a choice; and four that depend on
-- each other in order.
use cargos_buildroot.Base.{
  ◌≡◌, ◌<◌, refl, sym, ap, subst, ◌⊎◌, true, false, ◌||◌, none, some, List, [], ◌∷◌, if◌then◌else◌,
  ◌==◌, arith, Bool-cases, inl, inr,
}
use cargos_buildroot.Kconfig.Symbol.{Symbol}
use cargos_buildroot.Kconfig.Expr.{Expr, e_symbol, e_or}
use cargos_buildroot.Kconfig.Menu.Deps.{p_prompt, PropertyData}
use cargos_buildroot.Kconfig.Check.{Marks, Checks, check_all}
use cargos_buildroot.Kconfig.Check.Flags.{has}
use cargos_buildroot.Kconfig.Check.Laws.{IsClosed, AllBelow}
use cargos_buildroot.Kconfig.Check.Ends.{IsClear, check_all_no_error}
use cargos_buildroot.Kconfig.Check.Covers.{IsGrounded}
use cargos_buildroot.Kconfig.Check.Grounded.{check_all-IsGrounded}

abbrev unmarked : Marks
unmarked = record { check = λ s. false; checked = λ s. false; reports = 0 }

abbrev shown_if : Expr → List PropertyData
shown_if e = record { type = p_prompt; text = none; visible = some e; expr = none; menu = 1 } ∷ []

-- 4 depends on 5 or 7, 5 on 4; 6 and 7 are the values of the choice 8.
abbrev cyclic : Checks
cyclic = record {
  rev_dep = λ s. none;
  props = λ s.
      if s == 4
      then shown_if (e_or (e_symbol 5) (e_symbol 7))
      else (if s == 5 then shown_if (e_symbol 4) else []);
  choice_of = λ s. if s == 6 || s == 7 then some 8 else none;
  values = λ s. if s == 8 then some (6 ∷ 7 ∷ []) else none;
}

abbrev ordered : Checks
ordered = record {
  rev_dep = λ s. none;
  props = λ s.
      if s == 4
      then shown_if (e_or (e_symbol 5) (e_symbol 7))
      else (if s == 5 then shown_if (e_symbol 6) else []);
  choice_of = λ s. none;
  values = λ s. none;
}

cyclic_below : (s : Symbol) → AllBelow 9 (cyclic.props s)
cyclic_below s = elim (Bool-cases (s == 4)) [
  | inl e ↦ rw e ((omega arith, omega arith), tt, tt)
  | inr e ↦ elim (Bool-cases (s == 5)) [
    | inl f ↦ rw (e, f) (omega arith, tt, tt)
    | inr f ↦ rw (e, f) tt
  ]
]

ordered_below : (s : Symbol) → AllBelow 9 (ordered.props s)
ordered_below s = elim (Bool-cases (s == 4)) [
  | inl e ↦ rw e ((omega arith, omega arith), tt, tt)
  | inr e ↦ elim (Bool-cases (s == 5)) [
    | inl f ↦ rw (e, f) (omega arith, tt, tt)
    | inr f ↦ rw (e, f) tt
  ]
]

some_eq : {A : Type 0} (a b : A) → some a ≡ some b → a ≡ b
some_eq a b h = cc

is_8 : (s c : Symbol) → cyclic.choice_of s ≡ some c → 8 ≡ c
is_8 s c h = elim (Bool-cases (s == 6 || s == 7)) [
  | inl e ↦ some_eq 8 c (rw e at h)
  | inr e ↦ let gone : cyclic.choice_of s ≡ none = rw e refl in cc
]

has_values :
    (c : Symbol) (vs : List Symbol)
    → cyclic.values c ≡ some vs
    → ((c == 8) ≡ true) × ((6 ∷ 7 ∷ []) ≡ vs)
has_values c vs h = elim (Bool-cases (c == 8)) [
  | inl e ↦ (e, some_eq (6 ∷ 7 ∷ []) vs (rw e at h))
  | inr e ↦ let gone : cyclic.values c ≡ none = rw e refl in cc
]

value_of_8 :
    (c : Symbol) (vs : List Symbol) (s : Symbol)
    → cyclic.values c ≡ some vs
    → has vs s ≡ true
    → cyclic.choice_of s ≡ some c
value_of_8 c vs s h k =
    let held = has_values c vs h in
    let same : 8 ≡ c = ground (arith, held.0) in
    let member : has (6 ∷ 7 ∷ []) s ≡ true = subst (λ us. has us s ≡ true) (sym held.1) k in
    let either : (s == 6 || s == 7) ≡ true = ground (arith, member) in rw either (ap some same)

not_value_8 : (c : Symbol) → (c == 8) ≡ true → cyclic.choice_of c ≡ none
not_value_8 c e = let neither : (c == 6 || c == 7) ≡ false = ground (arith, e) in rw neither refl

cyclic-IsClosed : IsClosed cyclic 9
cyclic-IsClosed = record {
  rev_dep_below = λ s. tt;
  props_below = cyclic_below;
  choice_below = λ s c h. subst (λ d. d < 9) (is_8 s c h) (omega arith);
  value_of = value_of_8;
  no_value = λ c vs h. not_value_8 c (has_values c vs h).0;
  no_choice_value = λ s c h. subst (λ d. cyclic.choice_of d ≡ none) (is_8 s c h) refl;
}

ordered-IsClosed : IsClosed ordered 9
ordered-IsClosed = record {
  rev_dep_below = λ s. tt;
  props_below = ordered_below;
  choice_below = λ s c h. cc;
  value_of = λ c vs s h k. cc;
  no_value = λ c vs h. refl;
  no_choice_value = λ s c h. refl;
}

check_all_no_error_example :
    (m' : Marks) × (check_all cyclic 20 (4 ∷ 5 ∷ 6 ∷ 7 ∷ 8 ∷ []) unmarked ≡ some (0, m'))
    × IsClear m'
check_all_no_error_example =
    check_all_no_error cyclic 9 20 (4 ∷ 5 ∷ 6 ∷ 7 ∷ 8 ∷ []) unmarked cyclic-IsClosed
      (omega arith, (omega arith, (omega arith, (omega arith, (omega arith, tt))))) (λ t. refl)
      (omega arith)

check_all-IsGrounded_example :
    (m' : Marks) × (check_all ordered 20 (4 ∷ 5 ∷ 6 ∷ 7 ∷ []) unmarked ≡ some (0, m'))
    × ((0 < m'.reports) ⊎ ((s : Symbol) → has (4 ∷ 5 ∷ 6 ∷ 7 ∷ []) s ≡ true → IsGrounded ordered s))
check_all-IsGrounded_example =
    check_all-IsGrounded ordered 9 20 (4 ∷ 5 ∷ 6 ∷ 7 ∷ []) unmarked ordered-IsClosed
      (λ s. (refl, refl)) (omega arith, (omega arith, (omega arith, (omega arith, tt)))) (λ t. refl)
      (λ t. refl) (omega arith)
