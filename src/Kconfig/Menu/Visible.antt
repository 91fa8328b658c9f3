-- ===== src/Kconfig/Menu/Visible.antt =====
-- support/kconfig/menu.c: which menus are visible or empty, once the symbols have their values.
pub mod Laws
use cargos_buildroot.Base.{
  ℕ, zero, suc, Bool, true, false, not, Option, none, some, if◌then◌else◌, ◌==◌,
}
use cargos_buildroot.Kconfig.Symbol.{Tristate, Symbol, Store, sym_get_tristate_value}
use cargos_buildroot.Kconfig.Expr.{Expr, expr_calc_value}
use cargos_buildroot.Kconfig.Menu.{Links}

-- What the functions read of a menu: the condition of its prompt, if it has one, and for a menu with a symbol the
-- value of it that `sym_calc_value` leaves; its visibility; and its symbol.
pub record Look : Type 0 where
  pub has_prompt : Bool
  pub prompt : Option Expr
  pub prompt_tri : Tristate
  pub visibility : Option Expr
  pub sym : Option Symbol

-- What they write: the value of the prompt of a menu without a symbol, and the flag SYMBOL_DEF_USER.
pub record Seen : Type 0 where
  pub tri : ℕ → Tristate
  pub def_user : Symbol → Bool

abbrev pub set_tri : ℕ → Tristate → Seen → Seen
set_tri m v seen = record seen { tri = λ a. if a == m then v else seen.tri a }

abbrev pub set_def_user : Symbol → Seen → Seen
set_def_user s seen = record seen { def_user = λ t. if t == s then true else seen.def_user t }

abbrev pub is_hidden : Store → Option Expr → Bool
is_hidden st none = false
is_hidden st (some e) = expr_calc_value st (some e) == 0

-- Its last part, for a menu whose prompt is not visible; `loop` is the loop over the menus of a list.
unfoldable pub visible_child : Store → Option Symbol → (Seen → Bool × Seen) → Seen → Bool × Seen
visible_child st none loop seen = (false, seen)
visible_child st (some s) loop seen =
    if sym_get_tristate_value st s == 0
    then (false, seen)
    else (if (loop seen).0 then (true, set_def_user s (loop seen).1) else (false, (loop seen).1))

abbrev pub prompt_value : Store → Look → Option Symbol → Tristate
prompt_value st look none = expr_calc_value st look.prompt
prompt_value st look (some s) = look.prompt_tri

abbrev pub calc_prompt : Store → ℕ → Look → Option Symbol → Seen → Seen
calc_prompt st m look none seen = set_tri m (expr_calc_value st look.prompt) seen
calc_prompt st m look (some s) seen = seen

unfoldable pub is_visible_by :
    Store → (ℕ → Links) → (ℕ → Look) → (Option ℕ → Seen → Bool × Seen) → ℕ → Seen → Bool × Seen
unfolding visible_child
is_visible_by st links look loop m seen =
    if not (look m).has_prompt
    then (false, seen)
    else if is_hidden st (look m).visibility
    then (false, seen)
    else let seen' = calc_prompt st m (look m) (look m).sym seen in
      if not (prompt_value st (look m) (look m).sym == 0)
      then (true, seen')
      else visible_child st (look m).sym (loop (links m).list) seen'

-- The loop `for (child = menu->list; child; child = child->next)` with its return.
unfoldable pub any_visible : Store → (ℕ → Links) → (ℕ → Look) → ℕ → Option ℕ → Seen → Bool × Seen
unfolding is_visible_by
any_visible st links look zero m seen = (false, seen)
any_visible st links look (suc fuel) none seen = (false, seen)
any_visible st links look (suc fuel) (some m) seen =
    let r = is_visible_by st links look (any_visible st links look fuel) m seen in
    let rest = any_visible st links look fuel (links m).next r.1 in
    if r.0 then (true, r.1) else rest

unfoldable pub menu_is_visible : Store → (ℕ → Links) → (ℕ → Look) → ℕ → ℕ → Seen → Bool × Seen
unfolding any_visible is_visible_by
menu_is_visible st links look fuel m seen =
    is_visible_by st links look (any_visible st links look fuel) m seen

unfoldable pub menu_is_empty : Store → (ℕ → Links) → (ℕ → Look) → ℕ → ℕ → Seen → Bool × Seen
unfolding any_visible
menu_is_empty st links look fuel m seen =
    let r = any_visible st links look fuel (links m).list seen in (not r.0, r.1)
