-- ===== src/Kconfig/Menu.antt =====
-- support/kconfig/menu.c: the links of the menu tree, as the parser makes them, and the loop over all
-- entries in `conf_write` (support/kconfig/confdata.c).
pub mod Forest
pub mod Walk
pub mod Slots
pub mod Build
pub mod Order
pub mod Write
pub mod Minimal
pub mod Deps
pub mod Visible
mod Tests
use cargos_buildroot.Base.{
  ℕ, zero, suc, Option, none, some, List, [], ◌∷◌, if◌then◌else◌, ◌==◌, ◌>>=◌,
}

-- The pointers of a `struct menu`; a menu is its address, and NULL is `none`.
pub record Links : Type 0 where
  pub next : Option ℕ
  pub list : Option ℕ
  pub parent : Option ℕ

-- A place that holds a pointer: `&menu->next` or `&menu->list`.
pub data Slot : Type 0 where
  next_of list_of : ℕ → Slot

-- The menus, the address that `xmalloc` gives next, and the variables of menu.c and lkc.h.
pub record Builder : Type 0 where
  pub menus : ℕ → Links
  pub fresh : ℕ
  pub current_entry : ℕ
  pub current_menu : Option ℕ
  pub last_entry_ptr : Slot

abbrev pub rootmenu : ℕ
rootmenu = 0

abbrev pub no_links : Links
no_links = record { next = none; list = none; parent = none }

-- `*slot = v`.
unfoldable pub write_slot : Slot → Option ℕ → (ℕ → Links) → ℕ → Links
write_slot (next_of m) v menus a = if a == m then record (menus a) { next = v } else menus a
write_slot (list_of m) v menus a = if a == m then record (menus a) { list = v } else menus a

abbrev pub put_links : ℕ → Links → (ℕ → Links) → ℕ → Links
put_links m l menus a = if a == m then l else menus a

-- `_menu_init`, before any menu is made.
unfoldable pub menu_init : Builder
menu_init = record {
  menus = λ m. no_links;
  fresh = suc rootmenu;
  current_entry = rootmenu;
  current_menu = some rootmenu;
  last_entry_ptr = list_of rootmenu;
}

-- The links that `menu_add_entry` makes.
unfoldable pub menu_add_entry : Builder → Builder
unfolding write_slot
menu_add_entry b =
    let made = put_links b.fresh (record no_links { parent = b.current_menu }) b.menus in
    record b {
      menus = write_slot b.last_entry_ptr (some b.fresh) made;
      fresh = suc b.fresh;
      current_entry = b.fresh;
      last_entry_ptr = next_of b.fresh;
    }

unfoldable pub menu_add_menu : Builder → Builder
menu_add_menu b = record b {
  last_entry_ptr = list_of b.current_entry;
  current_menu = some b.current_entry;
}

-- It is not called where `current_menu` is NULL.
unfoldable pub menu_end_menu : Builder → Builder
menu_end_menu b = elim b.current_menu [
  | none ↦ b
  | some m ↦ record b { last_entry_ptr = next_of m; current_menu = (b.menus m).parent }
]

-- What the parser meets in the files: an entry; or an entry with a block of entries (menu, choice, if) up to its
-- end; each with what follows.
pub data Source : Type 0 where
  done : Source
  config : Source → Source
  block : Source → Source → Source

-- The calls of the parser's actions.
unfoldable pub build : Source → Builder → Builder
unfolding menu_add_entry menu_add_menu menu_end_menu
build done b = b
build (config rest) b = build rest (menu_add_entry b)
build (block inner rest) b =
    build rest (menu_end_menu (build inner (menu_add_menu (menu_add_entry b))))

abbrev pub or_next : Option ℕ → Option ℕ → Option ℕ
or_next none o = o
or_next (some m) o = some m

-- The loop `while ((menu = menu->parent))`, for the parent so far; `fuel` bounds the depth.
unfoldable pub climb : (ℕ → Links) → ℕ → Option ℕ → Option ℕ
climb menus zero m = none
climb menus (suc fuel) none = none
climb menus (suc fuel) (some m) =
    let higher = climb menus fuel (menus m).parent in or_next (menus m).next higher

-- The part of the loop behind the label `next`.
unfoldable pub next_menu : (ℕ → Links) → ℕ → ℕ → Option ℕ
unfolding climb
next_menu menus depth m =
    or_next (menus m).list (or_next (menus m).next (climb menus depth (menus m).parent))

-- The menus that the loop comes by, from `menu` on; `fuel` bounds their number, `none` is that it ran out.
unfoldable pub walk : (ℕ → Links) → ℕ → ℕ → Option ℕ → Option (List ℕ)
unfolding next_menu
walk menus depth fuel none = some []
walk menus depth zero (some m) = none
walk menus depth (suc fuel) (some m) =
    walk menus depth fuel (next_menu menus depth m) >>= λ ms. some (m ∷ ms)
