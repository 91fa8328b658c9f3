-- ===== src/Kconfig/Calc/Laws.antt =====
-- support/kconfig/symbol.c: the user's value and the defaults of boolean and tristate symbols.
use cargos_buildroot.Base.{◌≤◌, ◌≡◌, Bool, true, false, ◌&&◌, ◌||◌, not, some, List, arith, ◌==◌}
use cargos_buildroot.Kconfig.Symbol.{Tristate, tri_no, tri_mod, tri_yes, expr_or, Store}
use cargos_buildroot.Kconfig.Range.{
  Conditions, Limits, is_boolean_type, is_tristate_type, sym_get_type, sym_tristate_within_range,
}
use cargos_buildroot.Kconfig.Range.Laws.{sym_tristate_within_range_bounds}
use cargos_buildroot.Kconfig.Calc.{
  Property, UserValue, Assignment, default_of, own_value, own_write, no_mod, calc_tristate,
  sym_set_tristate_value, default_tristate,
}

no_mod_ge : (boolean : Bool) (own rev : Tristate) → rev ≤ no_mod boolean (expr_or own rev)
no_mod_ge boolean own rev = ground arith

no_mod-ne_mod :
    (boolean : Bool) (tri : Tristate) → (boolean && no_mod boolean tri == tri_mod) ≡ false
no_mod-ne_mod boolean tri = ground arith

module _ (c : Conditions) (l : Limits) (modules_val : Tristate) where
  -- What a value in range tells of the branch that `sym_calc_value` takes.
  in_range_cases :
      (val : Tristate)
      → sym_tristate_within_range c l modules_val val ≡ true
      → ((l.visible == tri_no) ≡ false)
        × ((c.is_choice_value && l.visible == tri_yes && not (val == tri_yes)) ≡ false)
  unfolding sym_tristate_within_range
  in_range_cases val h = ground arith

  -- A value in range is accepted, and as long as the limits stay, it is the value that is calculated
  -- next, whatever the defaults are.
  pub calc_tristate-set :
      (st : Store) (is_choice write : Bool) (props : List Property) (oldval val : Tristate)
      → sym_tristate_within_range c l modules_val val ≡ true
      → (a : Assignment) × (sym_set_tristate_value c l modules_val oldval val ≡ some a)
        × ((calc_tristate st c l modules_val is_choice props a.user write a.chooses).tri ≡ val)
  unfolding sym_set_tristate_value calc_tristate own_value
  calc_tristate-set st is_choice write props oldval val h = (
    record {
      user = record { has_value = true; tri = val };
      chooses = c.is_choice_value && val == tri_yes;
      clears = not (oldval == val);
    },
    ground arith,
    ground (arith, in_range_cases val h, sym_tristate_within_range_bounds c l modules_val val h),
  )

  -- Unless the symbol is the value of a choice that is visible as y, what other symbols select is a lower
  -- bound of its value; and a symbol that is boolean, by its type or for want of modules, is never m.
  pub calc_tristate_bounds :
      (st : Store) (is_choice write chosen : Bool) (props : List Property) (user : UserValue)
      → (c.is_choice_value && l.visible == tri_yes) ≡ false
      → let v = calc_tristate st c l modules_val is_choice props user write chosen in
        (l.rev_dep_tri ≤ v.tri)
        × ((is_boolean_type (sym_get_type c l.visible modules_val) && v.tri == tri_mod) ≡ false)
  unfolding calc_tristate
  calc_tristate_bounds st is_choice write chosen props user h =
      let boolean = is_boolean_type (sym_get_type c l.visible modules_val) in
      let own = own_value st is_choice props user l.visible in
      rw h (no_mod_ge boolean own l.rev_dep_tri, no_mod-ne_mod boolean (expr_or own l.rev_dep_tri))

  -- Where no prompt is visible, the user's value does not count.
  pub calc_tristate_hidden :
      (st : Store) (is_choice write chosen : Bool) (props : List Property) (user user' : UserValue)
      → l.visible ≡ tri_no
      → calc_tristate st c l modules_val is_choice props user write chosen
        ≡ calc_tristate st c l modules_val is_choice props user' write chosen
  unfolding calc_tristate own_value own_write
  calc_tristate_hidden st is_choice write chosen props user user' h = ground arith

  -- A boolean or tristate symbol without a value of the user, which is no choice and no value of one, has
  -- the value that `sym_get_string_default` tells.
  pub calc_tristate-default :
      (st : Store) (write chosen : Bool) (props : List Property) (user : UserValue)
      → user.has_value ≡ false
      → c.is_choice_value ≡ false
      → (is_boolean_type c.type || is_tristate_type c.type) ≡ true
      → (calc_tristate st c l modules_val false props user write chosen).tri
        ≡ default_tristate st c l modules_val props
  unfolding calc_tristate own_value default_of default_tristate sym_get_type
  calc_tristate-default st write chosen props user h k t = ground arith
