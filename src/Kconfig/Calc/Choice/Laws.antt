-- ===== src/Kconfig/Calc/Choice/Laws.antt =====
-- support/kconfig/symbol.c: a choice has a visible value whenever one of its values is visible.
use cargos_buildroot.Base.{
  and_true, ap, ◌∙◌, ◌&&◌, if◌then◌else◌, ◌≡◌, ◌≢◌, refl, Bool, true, false, Option, none, some,
  List, [], ◌∷◌, arith, ◌==◌, ◌||◌, Bool-cases, inl, inr, ◌⊎◌,
}
use cargos_buildroot.Kconfig.Symbol.{Tristate, tri_no, Symbol, Store}
use cargos_buildroot.Kconfig.Expr.{expr_calc_value}
use cargos_buildroot.Kconfig.Calc.{Property}
use cargos_buildroot.Kconfig.Calc.Choice.{
  prop_get_symbol, shown_symbol, or_else, default_symbol, first_shown, sym_choice_default,
  sym_calc_choice, keeps_user, mark_values,
}

abbrev pub one_of : List Symbol → Symbol → Bool
one_of [] s = false
one_of (t ∷ values) s = t == s || one_of values s

module _ (visible : Symbol → Tristate) where
  -- The symbol, if there is one, is visible.
  abbrev pub IsShown : Option Symbol → Type 0
  IsShown none = Unit {0}
  IsShown (some s) = visible s ≢ tri_no

  shown_symbol-IsShown : (o : Option Symbol) → IsShown (shown_symbol visible o)
  shown_symbol-IsShown none = tt
  shown_symbol-IsShown (some s) = of_test s (Bool-cases (visible s == tri_no))
    where
      of_test :
          (s : Symbol)
          → ((visible s == tri_no) ≡ true) ⊎ ((visible s == tri_no) ≡ false)
          → IsShown (shown_symbol visible (some s))
      of_test s (inl e) = rw e tt
      of_test s (inr e) = rw e (ground arith)

  or_else-IsShown : (o o' : Option Symbol) → IsShown o → IsShown o' → IsShown (or_else o o')
  or_else-IsShown none o' h h' = h'
  or_else-IsShown (some s) o' h h' = h

  default_symbol-IsShown :
      (st : Store) (props : List Property) → IsShown (default_symbol st visible props)
  unfolding default_symbol
  default_symbol-IsShown st [] = tt
  default_symbol-IsShown st (p ∷ props) =
      elim (Bool-cases (expr_calc_value st p.visible == tri_no)) [
        | inl e ↦ rw e (default_symbol-IsShown st props)
        | inr e ↦ rw e (
            or_else-IsShown (shown_symbol visible (prop_get_symbol p.expr))
              (default_symbol st visible props) (shown_symbol-IsShown (prop_get_symbol p.expr))
              (default_symbol-IsShown st props))
      ]

  first_shown-IsShown : (values : List Symbol) → IsShown (first_shown visible values)
  unfolding first_shown
  first_shown-IsShown [] = tt
  first_shown-IsShown (s ∷ values) = elim (Bool-cases (visible s == tri_no)) [
    | inl e ↦ rw e (first_shown-IsShown values)
    | inr e ↦ rw e (ground arith)
  ]

  first_shown-ne_none :
      (values : List Symbol) (s : Symbol)
      → one_of values s ≡ true
      → visible s ≢ tri_no
      → first_shown visible values ≢ none
  unfolding first_shown
  first_shown-ne_none [] s m v = cc
  first_shown-ne_none (t ∷ values) s m v = ground (arith, first_shown-ne_none values s)

  some_shown :
      (o : Option Symbol)
      → IsShown o
      → o ≢ none
      → (t : Symbol) × (o ≡ some t) × (visible t ≢ tri_no)
  some_shown none h n = absurd (n refl)
  some_shown (some t) h n = (t, refl, h)

  or_else-ne_none : (o o' : Option Symbol) → o' ≢ none → or_else o o' ≢ none
  or_else-ne_none none o' h = h
  or_else-ne_none (some s) o' h = ground arith

  -- If one of the values of a choice is visible, the choice gets a value, and one that is visible,
  -- whatever the defaults and the user's value are.
  pub sym_calc_choice_shows :
      (st : Store) (props : List Property) (values : List Symbol) (user : Option Symbol)
      (s : Symbol)
      → one_of values s ≡ true
      → visible s ≢ tri_no
      → (t : Symbol) × (sym_calc_choice st visible props values user ≡ some t)
        × (visible t ≢ tri_no)
  unfolding sym_calc_choice sym_choice_default
  sym_calc_choice_shows st props values user s m v =
      let of_user = shown_symbol visible user in
      let of_default = default_symbol st visible props in
      let first = first_shown visible values in
      some_shown (or_else of_user (or_else of_default first))
        (or_else-IsShown of_user (or_else of_default first) (shown_symbol-IsShown user) (
          or_else-IsShown of_default first (default_symbol-IsShown st props)
            (first_shown-IsShown values)))
        (or_else-ne_none of_user (or_else of_default first)
          (or_else-ne_none of_default first (first_shown-ne_none values s m v)))

  mark_values_mono :
      (values : List Symbol) (has_value : Symbol → Bool) (t : Symbol)
      → has_value t ≡ true
      → mark_values visible values has_value t ≡ true
  unfolding mark_values
  mark_values_mono [] has_value t h = h
  mark_values_mono (s ∷ values) has_value t h = elim (Bool-cases (visible s == tri_no)) [
    | inl e ↦ rw e (mark_values_mono values has_value t h)
    | inr e ↦
        rw e (mark_values_mono values (λ u. if u == s then true else has_value u) t (ground arith))
  ]

  mark_values_all :
      (values : List Symbol) (has_value : Symbol → Bool) (t : Symbol)
      → one_of values t ≡ true
      → (visible t == tri_no) ≡ false
      → mark_values visible values has_value t ≡ true
  unfolding mark_values
  mark_values_all [] has_value t m v = cc
  mark_values_all (s ∷ values) has_value t m v = elim (Bool-cases (s == t)) [
    | inl e ↦
        let same : s ≡ t = ground arith in
        let shown : (visible s == tri_no) ≡ false = ap (λ u. visible u == tri_no) same ∙ v in
        let set = λ (u : Symbol). if u == s then true else has_value u in
        rw shown (mark_values_mono values set t (ground arith))
    | inr e ↦
        mark_values_all values
          (if visible s == tri_no then has_value else (λ u. if u == s then true else has_value u)) t
          (ground arith) v
  ]

  keeps_user_all :
      (values : List Symbol) (has_value : Symbol → Bool) (flag : Bool)
      → ((t : Symbol) → one_of values t ≡ true → (visible t == tri_no) ≡ false → has_value t ≡ true)
      → keeps_user visible has_value values flag ≡ flag
  unfolding keeps_user
  keeps_user_all [] has_value flag h = refl
  keeps_user_all (s ∷ values) has_value flag h =
      let rest : (t : Symbol)
          → one_of values t ≡ true
          → (visible t == tri_no) ≡ false
          → has_value t ≡ true =
        λ t m v. h t (ground arith) v in
      elim (Bool-cases (visible s == tri_no)) [
        | inl e ↦ rw e (keeps_user_all values has_value flag rest)
        | inr e ↦
            let marked = h s (ground arith) e in
            keeps_user_all values has_value
              (if visible s == tri_no then flag else flag && has_value s) rest
            ∙ rw (e, marked) (and_true flag)
      ]

  -- After the user has chosen a visible value, the choice keeps the flag of the user's value, and the value is the one that is
  -- calculated.
  pub sym_calc_choice_chosen :
      (st : Store) (props : List Property) (values : List Symbol) (has_value : Symbol → Bool)
      (s : Symbol)
      → visible s ≢ tri_no
      → (keeps_user visible (mark_values visible values has_value) values true ≡ true)
        × (sym_calc_choice st visible props values (some s) ≡ some s)
  unfolding sym_calc_choice
  sym_calc_choice_chosen st props values has_value s v = (
    keeps_user_all values (mark_values visible values has_value) true
        (mark_values_all values has_value),
    (let shown : (visible s == tri_no) ≡ false = ground arith in rw shown refl),
  )
