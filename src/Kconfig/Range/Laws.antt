-- ===== src/Kconfig/Range/Laws.antt =====
-- support/kconfig/symbol.c: the values that a symbol may take.
use cargos_buildroot.Base.{
  zero, suc, ◌≤◌, ◌≡◌, ◌≢◌, refl, true, false, ◌&&◌, ◌||◌, not, some, inl, inr, arith, Bool-cases,
  ◌==◌, if◌then◌else◌,
}
use cargos_buildroot.Kconfig.Symbol.{Tristate, tri_mod, tri_no, Store}
use cargos_buildroot.Kconfig.Range.{
  Conditions, Limits, is_boolean_type, is_tristate_type, sym_get_type, calc_visible,
  sym_calc_visibility, sym_tristate_within_range, can_set, toggle, sym_toggle_tristate_value,
}

-- A value in range lies between what other symbols select and what the prompts allow, which the former
-- does not reach, and a boolean symbol is never m.
pub sym_tristate_within_range_bounds :
    (c : Conditions) (l : Limits) (modules_val val : Tristate)
    → sym_tristate_within_range c l modules_val val ≡ true
    → (l.rev_dep_tri ≤ val)
      × (val ≤ l.visible)
      × ((is_boolean_type (sym_get_type c l.visible modules_val) && val == tri_mod) ≡ false)
unfolding sym_tristate_within_range
sym_tristate_within_range_bounds c l modules_val val h = ground arith

-- A symbol that is no tristate, or any symbol without modules, is never visible as m.
pub sym_calc_visibility-ne_mod :
    (st : Store) (c : Conditions) (modules_val : Tristate) (l : Limits)
    → (not (is_tristate_type c.type) || modules_val == tri_no) ≡ true
    → (sym_calc_visibility st c modules_val l).visible ≢ tri_mod
unfolding sym_calc_visibility calc_visible
sym_calc_visibility-ne_mod st c modules_val l h = ground arith

-- The loop from the three values that a tristate has, with the first value that is tried and the second.
toggle_two :
    (c : Conditions) (l : Limits) (modules_val oldval first second : Tristate)
    → sym_toggle_tristate_value c l modules_val oldval ≡ (
        if sym_tristate_within_range c l modules_val first
        then some first
        else if sym_tristate_within_range c l modules_val second
        then some second
        else some oldval)
    → first ≤ 2
    → second ≤ 2
    → oldval ≤ 2
    → (v : Tristate) × (sym_toggle_tristate_value c l modules_val oldval ≡ some v)
      × (v ≤ 2)
      × ((oldval == v || sym_tristate_within_range c l modules_val v) ≡ true)
toggle_two c l modules_val oldval first second h p q r =
    elim (Bool-cases (sym_tristate_within_range c l modules_val first)) [
      | inl e ↦ (first, ground arith, p, ground arith)
      | inr e ↦ elim (Bool-cases (sym_tristate_within_range c l modules_val second)) [
        | inl f ↦ (second, ground arith, q, ground arith)
        | inr f ↦ (oldval, ground arith, r, ground arith)
      ]
    ]

-- Toggling a tristate value ends after three values at most, with one that is in range or with the
-- old one.
pub sym_toggle_tristate_value_ends :
    (c : Conditions) (l : Limits) (modules_val oldval : Tristate)
    → oldval ≤ 2
    → (v : Tristate) × (sym_toggle_tristate_value c l modules_val oldval ≡ some v)
      × (v ≤ 2)
      × ((oldval == v || sym_tristate_within_range c l modules_val v) ≡ true)
unfolding sym_toggle_tristate_value toggle can_set
sym_toggle_tristate_value_ends c l modules_val zero h =
    toggle_two c l modules_val 0 1 2 refl (omega arith) (omega arith) (omega arith)
sym_toggle_tristate_value_ends c l modules_val (suc zero) h =
    toggle_two c l modules_val 1 2 0 refl (omega arith) (omega arith) (omega arith)
sym_toggle_tristate_value_ends c l modules_val (suc (suc zero)) h =
    toggle_two c l modules_val 2 0 1 refl (omega arith) (omega arith) (omega arith)
sym_toggle_tristate_value_ends c l modules_val (suc (suc (suc n))) h = grind arith
