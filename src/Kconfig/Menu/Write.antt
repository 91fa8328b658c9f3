-- ===== src/Kconfig/Menu/Write.antt =====
-- support/kconfig/confdata.c: `conf_write` over the menus, with the flag SYMBOL_WRITE.
pub mod Entries
pub mod Recovers
use cargos_buildroot.Base.{
  ℕ, Bool, true, false, not, Option, none, some, List, [], ◌∷◌, Text, if◌then◌else◌, ◌==◌, ◌>>=◌,
}
use cargos_buildroot.Kconfig.Symbol.{Symbol}
use cargos_buildroot.Kconfig.Config.Write.{Item, MenuEntry, heading, choice, option, conf_write}
use cargos_buildroot.Kconfig.Menu.{Links, rootmenu, walk}

-- What the loop reads of a menu: its symbol; and for one without, whether it is visible, and its prompt.
pub record MenuData : Type 0 where
  pub sym : Option Symbol
  pub shown : Bool
  pub prompt : Text

-- What it reads of a symbol: the flag SYMBOL_CHOICE, and what `conf_write_symbol` is given.
pub record SymbolText : Type 0 where
  pub is_choice : Bool
  pub item : Item

abbrev pub clear_write : Symbol → (Symbol → Bool) → Symbol → Bool
clear_write s write t = if t == s then false else write t

-- The entries for the menus in their order; `write` is the flag SYMBOL_WRITE, once `sym_calc_value` has set it, and
-- the flag of a symbol is cleared when the symbol is written.
unfoldable pub menu_entries :
    (ℕ → MenuData) → (Symbol → SymbolText) → (Symbol → Bool) → List ℕ → List MenuEntry
menu_entries menus symbols write [] = []
menu_entries menus symbols write (m ∷ ms) = elim (menus m).sym [
  | none ↦ heading (menus m).shown (menus m).prompt ∷ menu_entries menus symbols write ms
  | some s ↦ elim (symbols s).is_choice [
    | true ↦ choice ∷ menu_entries menus symbols write ms
    | false ↦
        option (write s) (symbols s).item ∷ menu_entries menus symbols (clear_write s write) ms
  ]
]

-- The text of the file; `none` is that the fuel of the loop ran out.
unfoldable pub conf_write_menus :
    (ℕ → Links)
    → (ℕ → MenuData)
    → (Symbol → SymbolText)
    → (Symbol → Bool)
    → ℕ
    → ℕ
    → Text
    → Text
    → Option Text
unfolding walk menu_entries conf_write
conf_write_menus links menus symbols write depth fuel prefix title =
    walk links depth fuel (links rootmenu).list >>= λ ms.
    some (conf_write prefix title (menu_entries menus symbols write ms))
