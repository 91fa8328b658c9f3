-- ===== src/Kconfig/Range.antt =====
-- support/kconfig/symbol.c: the visibility of a symbol and the tristate values that it may take.
pub mod Laws
mod Tests
use cargos_buildroot.Base.{
  ℕ, zero, suc, Bool, true, false, ◌&&◌, ◌||◌, not, Option, none, some, List, [], ◌∷◌,
  if◌then◌else◌, ◌==◌, leb,
}
use cargos_buildroot.Kconfig.Symbol.{
  SymbolType, s_boolean, s_tristate, Tristate, tri_no, tri_mod, tri_yes, expr_or, Store,
}
use cargos_buildroot.Kconfig.Expr.{Expr, expr_calc_value}

-- What the functions below read of a symbol: its type, the conditions of its prompts, its two
-- dependencies, and SYMBOL_CHOICEVAL.
pub record Conditions : Type 0 where
  pub type : SymbolType
  pub prompts : List (Option Expr)
  pub dir_dep : Option Expr
  pub rev_dep : Option Expr
  pub is_choice_value : Bool

-- What `sym_calc_visibility` leaves in the symbol.
pub record Limits : Type 0 where
  pub visible : Tristate
  pub dir_dep_tri : Tristate
  pub rev_dep_tri : Tristate

unfoldable pub is_boolean_type : SymbolType → Bool
is_boolean_type s_boolean = true
is_boolean_type _ = false

unfoldable pub is_tristate_type : SymbolType → Bool
is_tristate_type s_tristate = true
is_tristate_type _ = false

unfoldable pub sym_get_type : Conditions → Tristate → Tristate → SymbolType
unfolding is_tristate_type
sym_get_type c visible modules_val =
    if is_tristate_type c.type
    then (if c.is_choice_value && visible == tri_yes
        then s_boolean
        else if modules_val == tri_no
        then s_boolean
        else c.type)
    else c.type

-- The loop over the prompts.
unfoldable pub any_prompt : Store → List (Option Expr) → Tristate → Tristate
unfolding expr_calc_value
any_prompt st [] tri = tri
any_prompt st (e ∷ prompts) tri = any_prompt st prompts (expr_or tri (expr_calc_value st e))

unfoldable pub calc_visible : Store → Conditions → Tristate → Tristate
unfolding any_prompt is_tristate_type
calc_visible st c modules_val =
    let tri = any_prompt st c.prompts tri_no in
    if tri == tri_mod && (not (is_tristate_type c.type) || modules_val == tri_no)
    then tri_yes
    else tri

unfoldable pub calc_dir_dep : Store → Conditions → Tristate
unfolding expr_calc_value
calc_dir_dep st c =
    let tri = expr_calc_value st c.dir_dep in if tri == tri_mod then tri_yes else tri

unfoldable pub dep_value : Store → Option Expr → Tristate
unfolding expr_calc_value
dep_value st none = tri_no
dep_value st (some e) = expr_calc_value st (some e)

unfoldable pub calc_rev_dep : Store → Conditions → Tristate → Tristate → Tristate
unfolding dep_value is_boolean_type sym_get_type
calc_rev_dep st c visible modules_val =
    let tri = dep_value st c.rev_dep in
    if tri == tri_mod && is_boolean_type (sym_get_type c visible modules_val) then tri_yes else tri

-- A value of a choice keeps its dependencies as they are.
unfoldable pub sym_calc_visibility : Store → Conditions → Tristate → Limits → Limits
unfolding calc_visible calc_dir_dep calc_rev_dep
sym_calc_visibility st c modules_val l =
    let visible = calc_visible st c modules_val in
    if c.is_choice_value then record l { visible = visible } else record {
      visible = visible;
      dir_dep_tri = calc_dir_dep st c;
      rev_dep_tri = calc_rev_dep st c visible modules_val;
    }

unfoldable pub sym_tristate_within_range : Conditions → Limits → Tristate → Tristate → Bool
unfolding sym_get_type is_boolean_type is_tristate_type
sym_tristate_within_range c l modules_val val =
    let type = sym_get_type c l.visible modules_val in
    if l.visible == tri_no
    then false
    else if not (is_boolean_type type) && not (is_tristate_type type)
    then false
    else if is_boolean_type type && val == tri_mod
    then false
    else if leb l.visible l.rev_dep_tri
    then false
    else if c.is_choice_value && l.visible == tri_yes
    then val == tri_yes
    else leb l.rev_dep_tri val && leb val l.visible

-- `sym_set_tristate_value` returns true; it changes nothing where it returns false.
unfoldable pub can_set : Conditions → Limits → Tristate → Tristate → Tristate → Bool
unfolding sym_tristate_within_range
can_set c l modules_val oldval val = oldval == val || sym_tristate_within_range c l modules_val val

abbrev pub next_value : Tristate → Tristate
next_value zero = tri_mod
next_value (suc zero) = tri_yes
next_value (suc (suc n)) = tri_no

-- The loop of `sym_toggle_tristate_value`.
unfoldable pub toggle : ℕ → Conditions → Limits → Tristate → Tristate → Tristate → Option Tristate
unfolding can_set
toggle zero c l modules_val oldval newval = none
toggle (suc fuel) c l modules_val oldval newval =
    let val = next_value newval in
    let again = toggle fuel c l modules_val oldval val in
    if can_set c l modules_val oldval val
    then some val
    else if oldval == val
    then some val
    else again

unfoldable pub sym_toggle_tristate_value :
    Conditions → Limits → Tristate → Tristate → Option Tristate
unfolding toggle
sym_toggle_tristate_value c l modules_val oldval = toggle 3 c l modules_val oldval oldval
