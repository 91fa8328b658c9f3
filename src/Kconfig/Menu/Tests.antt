-- ===== src/Kconfig/Menu/Tests.antt =====
-- support/kconfig/menu.c, confdata.c: four menus, two of them of one symbol.
use cargos_buildroot.Base.{
  ℕ, ◌≡◌, ◌≢◌, ◌↔◌, ◌⊎◌, refl, true, false, none, some, [], ◌∷◌, ◌==◌, Text, bytes, text_eq,
  if◌then◌else◌, arith,
}
use cargos_buildroot.Kconfig.Symbol.{
  Symbol, expr_and, sym_get_tristate_value, s_boolean, s_int, s_string,
}
use cargos_buildroot.Kconfig.Sample.{sample, sample-IsCoherent}
use cargos_buildroot.Kconfig.Expr.{Expr, e_symbol, e_not, e_or, value, expr_calc_value}
use cargos_buildroot.Kconfig.Menu.Deps.{
  menu_check_dep, check_dep, p_prompt, PropertyData, Parsed, menu_add_prop,
}
use cargos_buildroot.Kconfig.Menu.Deps.Laws.{
  without_modules, value-menu_check_dep, upper_menus, lowest, menu_add_prop-lowest,
}
use cargos_buildroot.Kconfig.Menu.Visible.{Look, Seen, menu_is_visible, menu_is_empty}
use cargos_buildroot.Kconfig.Menu.Visible.Laws.{shows, opens, Shows, menu_is_empty-Shows}
use cargos_buildroot.Kconfig.Menu.Forest.{tree}
use cargos_buildroot.Kconfig.Menu.{Links}
use cargos_buildroot.Kconfig.Strings.{sym_escape_string_value}
use cargos_buildroot.Kconfig.Config.Line.{line_says}
use cargos_buildroot.Kconfig.Config.Read.{Configuration, Symbols, conf_read_simple}
use cargos_buildroot.Kconfig.Config.Write.{Item}
use cargos_buildroot.Kconfig.Config.RoundTrip.Values.{HasString, is_value}
use cargos_buildroot.Kconfig.Menu.{
  rootmenu, menu_init, Source, done, config, block, build, walk, menu_add_entry, menu_add_menu,
  menu_end_menu, write_slot,
}
use cargos_buildroot.Kconfig.Menu.Order.{walk-build}
use cargos_buildroot.Kconfig.Menu.Write.{MenuData, SymbolText, conf_write_menus}
use cargos_buildroot.Kconfig.Menu.Write.Recovers.{conf_write_menus_recovers}
use cargos_buildroot.Kconfig.Config.Read.{reset_def}
use cargos_buildroot.Kconfig.Menu.Minimal.{DefaultData, is_kept, conf_write_defconfig}
use cargos_buildroot.Kconfig.Menu.Minimal.Redundant.{IsRedundant}
use cargos_buildroot.Kconfig.Menu.Minimal.Laws.{conf_write_defconfig_recovers}

-- The symbol NET, a menu in which it stands again, and HOST.
abbrev files : Source
files = config (block (config done) (config done))

abbrev made : ℕ → Links
made = (build files menu_init).menus

walk-build_example :
    let b = build files menu_init in
    walk b.menus 5 4 (b.menus rootmenu).list ≡ some (1 ∷ 2 ∷ 3 ∷ 4 ∷ [])
walk-build_example = walk-build files 5 4 (omega arith) (omega arith)

abbrev table : Symbols
table = record {
  sym_find = λ name. if text_eq name (bytes "NET") then some 5 else some 6;
  choice_of = λ s. none;
  is_choice = λ s. false;
  is_listed = λ s. true;
}

abbrev item_of : Symbol → Item
item_of s =
    if s == 5
    then record { name = bytes "NET"; type = s_int; str = [] }
    else record { name = bytes "HOST"; type = s_string; str = bytes "a\"b" }

abbrev menu_data : ℕ → MenuData
menu_data m = record {
  sym = if m == 2 then none else (if m == 4 then some 6 else some 5);
  shown = true;
  prompt = bytes "Drivers";
}

abbrev symbol_text : Symbol → SymbolText
symbol_text s = record { is_choice = false; item = item_of s }

abbrev unread : Configuration
unread = record {
  defs = λ s. record {
    type = if s == 6 then s_string else s_boolean;
    tri = 2;
    val = none;
    chosen = none;
    has_value = true;
  };
  changes = 0;
  warnings = 3;
}

conf_write_menus_recovers_example :
    (text : Text) × (conf_write_menus made menu_data symbol_text
        (λ s. s == 6)
        5
        4
        []
        (bytes "Sample Configuration")
      ≡ some text)
    × HasString ((conf_read_simple table (λ n. true) [] text unread).defs 6) (bytes "a\"b")
unfolding build menu_add_entry menu_add_menu menu_end_menu menu_init write_slot text_eq line_says
    is_value sym_escape_string_value
conf_write_menus_recovers_example =
    conf_write_menus_recovers made (tree files 1) 5 4 table (λ n. true) []
      (bytes "Sample Configuration") menu_data symbol_text (λ s. s == 6) unread 6 refl refl refl
      (
        refl,
        refl,
        refl,
        tt,
        (refl, refl, refl, (refl, refl, refl, tt, tt), (refl, refl, refl, tt, tt)),
      )
      (omega arith) (omega arith) (λ m. refl) refl (omega arith, refl, refl, refl)
      ((tt, refl, refl), ((refl, refl), ((tt, refl, refl), (((refl, refl, refl), refl, refl), tt))))
      refl refl refl refl refl refl refl

-- `!m || EXT4`.
abbrev not_module : Expr
not_module = e_or (e_not (e_symbol 1)) (e_symbol 4)

value-menu_check_dep_example :
    (sym_get_tristate_value (sample 1) 3 ≢ 0
      → value (sample 1) (menu_check_dep 3 not_module) ≡ value (sample 1) not_module)
    × (sym_get_tristate_value (sample 1) 3 ≡ 0
        → value (sample 1) (menu_check_dep 3 not_module)
          ≡ value (sample 1) (without_modules not_module))
value-menu_check_dep_example =
    value-menu_check_dep (sample 1) 3 not_module (sample-IsCoherent 1 (omega arith))

-- Every menu is visible if EXT4 is set.
abbrev entered : Parsed
entered = record {
  entry = λ m. record { sym = some 5; prompt = none; visibility = some (e_symbol 4); dep = none };
  props = λ s. [];
  types = λ s. s_boolean;
  warnings = 0;
}

menu_add_prop-lowest_example :
    (prop : PropertyData) × (((menu_add_prop made 5 3 3 p_prompt
          (some (bytes "Net"))
          none
          (some (e_symbol 3))
          entered).entry
        3).prompt
      ≡ some prop)
    × (expr_calc_value (sample 1) prop.visible
        ≡ expr_and
            (expr_calc_value (sample 1) (check_dep 3 (some (e_symbol 3))))
            (lowest (sample 1) entered.entry (upper_menus made 5 (made 3).parent)))
menu_add_prop-lowest_example =
    menu_add_prop-lowest (sample 1) made 5 3 3 (bytes "Net") none (some (e_symbol 3)) entered
      (sample-IsCoherent 1 (omega arith))

abbrev look_at : ℕ → Look
look_at m = record {
  has_prompt = true;
  prompt = some (e_symbol 0);
  prompt_tri = if m == 4 then 2 else 0;
  visibility = none;
  sym = if m == 2 then none else some 5;
}

abbrev unseen : Seen
unseen = record { tri = λ m. 0; def_user = λ s. false }

menu_is_empty-Shows_example :
    (((menu_is_empty (sample 1) made look_at 5 0 unseen).0 ≡ false)
      ↔ Shows (sample 1) look_at (tree files 1))
    × (((menu_is_visible (sample 1) made look_at 5 0 unseen).0 ≡ true) ↔ (
        (shows (sample 1) look_at 0 ≡ true)
        ⊎ ((opens (sample 1) look_at 0 ≡ true) × Shows (sample 1) look_at (tree files 1))))
unfolding build menu_add_entry menu_add_menu menu_end_menu menu_init write_slot
menu_is_empty-Shows_example =
    menu_is_empty-Shows (sample 1) look_at made 0 (tree files 1) 5 unseen refl
      (
        refl,
        refl,
        refl,
        tt,
        (refl, refl, refl, (refl, refl, refl, tt, tt), (refl, refl, refl, tt, tt)),
      )
      (omega arith)

-- NET, a number without a value, has its default; HOST does not.
abbrev defaults : Symbol → DefaultData
defaults s = record { visible = 2; rev_dep_tri = 0; tri = 0; string_default = []; value_of = none }

conf_write_defconfig_recovers_example :
    (text : Text) × (conf_write_defconfig made menu_data symbol_text defaults (λ s. true) 5 4 []
      ≡ some text)
    × (((true ≡ true)
          × (¬ IsRedundant symbol_text defaults 6)
          × HasString ((conf_read_simple table (λ n. true) [] text unread).defs 6) (bytes "a\"b"))
        ⊎ (((true ≡ false) ⊎ IsRedundant symbol_text defaults 6)
            × ((conf_read_simple table (λ n. true) [] text unread).defs 6
                ≡ reset_def table 6 (unread.defs 6))))
unfolding build menu_add_entry menu_add_menu menu_end_menu menu_init write_slot text_eq line_says
    is_value sym_escape_string_value is_kept
conf_write_defconfig_recovers_example =
    conf_write_defconfig_recovers made (tree files 1) 5 4 table (λ n. true) [] menu_data symbol_text
      defaults (λ s. true) unread 6 refl refl refl
      (
        refl,
        refl,
        refl,
        tt,
        (refl, refl, refl, (refl, refl, refl, tt, tt), (refl, refl, refl, tt, tt)),
      )
      (omega arith) (omega arith) (λ m. refl) refl
      ((tt, refl, refl), (tt, ((tt, refl, refl), (((refl, refl, refl), refl, refl), tt)))) refl refl
      refl refl refl refl
