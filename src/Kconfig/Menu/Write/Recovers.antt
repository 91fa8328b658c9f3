-- ===== src/Kconfig/Menu/Write/Recovers.antt =====
-- support/kconfig/confdata.c: each symbol in the menus is written once, and read back.
use cargos_buildroot.Base.{ℕ, ◌≤◌, ◌<◌, ◌≡◌, refl, sym, subst, Bool, true, false, none, some, Text}
use cargos_buildroot.Kconfig.Symbol.{Symbol}
use cargos_buildroot.Kconfig.Strings.{all_bytes}
use cargos_buildroot.Kconfig.Config.Line.Laws.{Grows, in_name}
use cargos_buildroot.Kconfig.Config.Read.{Configuration, Symbols, conf_read_simple}
use cargos_buildroot.Kconfig.Config.Read.Laws.{is_symbol_of}
use cargos_buildroot.Kconfig.Config.Write.{conf_write}
use cargos_buildroot.Kconfig.Config.RoundTrip.Values.{HasString, is_value}
use cargos_buildroot.Kconfig.Config.RoundTrip.Heading.{IsTitle}
use cargos_buildroot.Kconfig.Config.RoundTrip.Reads.{AllWritten}
use cargos_buildroot.Kconfig.Config.RoundTrip.Recovers.{conf_read_simple-conf_write}
use cargos_buildroot.Kconfig.Menu.{Links, rootmenu}
use cargos_buildroot.Kconfig.Menu.Forest.{Forest, first, preorder, size, Represents}
use cargos_buildroot.Kconfig.Menu.Walk.{walk-preorder}
use cargos_buildroot.Kconfig.Menu.Write.{MenuData, SymbolText, menu_entries, conf_write_menus}
use cargos_buildroot.Kconfig.Menu.Write.Entries.{
  has_menu, AllFit, menu_entries-Around, menu_entries-AllWritten,
}

-- For any tree of menus under `rootmenu` that the links stand for, where `rootmenu` has no parent and no menu behind
-- it, let a symbol be in a menu and have the flag SYMBOL_WRITE. Let each symbol of the menus that is no choice be the
-- one that `sym_find` gives for its name and be no value of the symbol as a choice; if it has the flag, let its name
-- and its value have no byte that a line cannot have, and its value fit its type. Let the symbol be no choice, and
-- have for the reader the type it is written with. Let the prefix have no byte that a name cannot have, the title fit
-- into its buffer, no line of the heading and no menu comment that is written read like a statement, `realloc` not
-- fail, the fuel be at least the number of menus below the root and the depth more. Then conf_write ends, and reading
-- what it wrote gives the symbol the string it was written with.
pub conf_write_menus_recovers :
    (links : ℕ → Links) (f : Forest) (depth fuel : ℕ) (env : Symbols) (realloc : ℕ → Bool)
    (prefix title : Text) (menus : ℕ → MenuData) (symbols : Symbol → SymbolText)
    (write : Symbol → Bool) (st : Configuration) (s : Symbol)
    → (links rootmenu).parent ≡ none
    → (links rootmenu).next ≡ none
    → (links rootmenu).list ≡ first f
    → Represents links (some rootmenu) f
    → size f < depth
    → size f ≤ fuel
    → Grows realloc
    → all_bytes in_name prefix ≡ true
    → IsTitle prefix title
    → AllFit env menus symbols prefix s write (preorder f)
    → has_menu menus s (preorder f) ≡ true
    → write s ≡ true
    → (symbols s).is_choice ≡ false
    → env.sym_find (symbols s).item.name ≡ some s
    → is_symbol_of s (env.choice_of s) ≡ false
    → (st.defs s).type ≡ (symbols s).item.type
    → is_value (symbols s).item.type (symbols s).item.str ≡ true
    → (text : Text) × (conf_write_menus links menus symbols write depth fuel prefix title
        ≡ some text)
      × HasString ((conf_read_simple env realloc prefix text st).defs s) (symbols s).item.str
unfolding conf_write_menus
conf_write_menus_recovers links f depth fuel env realloc prefix title menus symbols write st s
      parent next list represents d e g p w fits h k n found c t v =
    let ms = preorder f in
    let lines = menu_entries menus symbols write ms in
    let written =
      menu_entries-AllWritten env menus symbols prefix s write write ms (λ u h. h) fits in
    let around = menu_entries-Around env menus symbols prefix s write n write ms fits k h in
    let same = around.2 in
    let order = walk-preorder links depth fuel rootmenu f parent next list represents d e in
    (
      conf_write prefix title lines,
      rw order refl,
      subst
          (λ es.
            HasString ((conf_read_simple env realloc prefix (conf_write prefix title es) st).defs s)
              (symbols s).item.str)
          (sym same)
          (conf_read_simple-conf_write env realloc prefix title st s around.0 around.1
            (symbols s).item g p w (subst (AllWritten prefix) same written) found t c v around.3
            around.4),
    )
