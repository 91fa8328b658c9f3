-- ===== src/Kconfig/Menu/Minimal.antt =====
-- support/kconfig/confdata.c: `conf_write_defconfig`, which writes the symbols that differ from their defaults.
pub mod Redundant
pub mod Laws
use cargos_buildroot.Base.{
  ℕ, Bool, true, false, ◌&&◌, not, Option, none, some, List, [], ◌∷◌, Text, text_eq, ltb, ◌==◌,
  ◌>>=◌,
}
use cargos_buildroot.Kconfig.Symbol.{Tristate, Symbol, SymbolType, s_boolean}
use cargos_buildroot.Kconfig.Config.Write.{MenuEntry, heading, choice, option, write_entries}
use cargos_buildroot.Kconfig.Menu.{Links, rootmenu, walk}
use cargos_buildroot.Kconfig.Menu.Write.{MenuData, SymbolText, clear_write}

-- The choice that a symbol is a value of: SYMBOL_OPTIONAL, and what `sym_choice_default` gives.
pub record ChoiceData : Type 0 where
  pub is_optional : Bool
  pub choice_default : Option Symbol

-- What is read of a symbol that has the flag SYMBOL_WRITE; `string_default` is what `sym_get_string_default` gives.
pub record DefaultData : Type 0 where
  pub visible : Tristate
  pub rev_dep_tri : Tristate
  pub tri : Tristate
  pub string_default : Text
  pub value_of : Option ChoiceData

unfoldable pub sym_is_changable : DefaultData → Bool
sym_is_changable d = ltb d.rev_dep_tri d.visible

abbrev pub is_default_symbol : Symbol → Option Symbol → Bool
is_default_symbol s none = false
is_default_symbol s (some ds) = s == ds

abbrev pub is_s_boolean : SymbolType → Bool
is_s_boolean s_boolean = true
is_s_boolean _ = false

-- A symbol that is the default of its choice, and is `y` as a boolean symbol.
unfoldable pub is_choice_default : Symbol → SymbolType → Tristate → Option ChoiceData → Bool
is_choice_default s type tri none = false
is_choice_default s type tri (some cs) =
    not cs.is_optional && is_default_symbol s cs.choice_default && is_s_boolean type && tri == 2

-- The symbol is not skipped.
unfoldable pub is_kept : (Symbol → SymbolText) → (Symbol → DefaultData) → Symbol → Bool
unfolding sym_is_changable text_eq is_choice_default
is_kept symbols defaults s =
    let item = (symbols s).item in
    let d = defaults s in
    sym_is_changable d
    && not (text_eq item.str d.string_default)
    && not (is_choice_default s item.type d.tri d.value_of)

-- The entries for the menus in their order; a menu without a symbol writes nothing.
unfoldable pub defconfig_entries :
    (ℕ → MenuData)
    → (Symbol → SymbolText)
    → (Symbol → DefaultData)
    → (Symbol → Bool)
    → List ℕ
    → List MenuEntry
unfolding is_kept
defconfig_entries menus symbols defaults write [] = []
defconfig_entries menus symbols defaults write (m ∷ ms) = elim (menus m).sym [
  | none ↦ heading false [] ∷ defconfig_entries menus symbols defaults write ms
  | some s ↦ elim (symbols s).is_choice [
    | true ↦ choice ∷ defconfig_entries menus symbols defaults write ms
    | false ↦
        option (write s && is_kept symbols defaults s) (symbols s).item
        ∷ defconfig_entries menus symbols defaults (clear_write s write) ms
  ]
]

-- The text of the file; `none` is that the fuel of the loop ran out.
unfoldable pub conf_write_defconfig :
    (ℕ → Links)
    → (ℕ → MenuData)
    → (Symbol → SymbolText)
    → (Symbol → DefaultData)
    → (Symbol → Bool)
    → ℕ
    → ℕ
    → Text
    → Option Text
unfolding walk defconfig_entries write_entries
conf_write_defconfig links menus symbols defaults write depth fuel prefix =
    walk links depth fuel (links rootmenu).list >>= λ ms.
    some (write_entries prefix (defconfig_entries menus symbols defaults write ms))
