-- ===== src/Kconfig/Menu/Order.antt =====
-- support/kconfig/menu.c, confdata.c: the loop over the menus, after the parser has made them.
use cargos_buildroot.Base.{
  ℕ, zero, suc, ◌+◌, ◌≤◌, ◌<◌, ◌≡◌, refl, ap, sym, ◌∙◌, some, ◌∷◌, ◌++◌, arith,
}
use cargos_buildroot.Kconfig.Menu.{
  rootmenu, list_of, menu_init, Source, done, config, block, build, walk,
}
use cargos_buildroot.Kconfig.Menu.Forest.{preorder, size, entries, tree, range}
use cargos_buildroot.Kconfig.Menu.Walk.{walk-preorder}
use cargos_buildroot.Kconfig.Menu.Slots.{write_slot-parent, write_slot-next}
use cargos_buildroot.Kconfig.Menu.Build.{Ready, build-Built}

range-append : (n a b : ℕ) → range n (a + b) ≡ range n a ++ range (n + a) b
range-append n zero b =
    let left : 0 + b ≡ b = omega arith in
    let right : n + 0 ≡ n = omega arith in rw (left, right) refl
range-append n (suc a) b =
    let left : suc a + b ≡ suc (a + b) = omega arith in
    let right : n + suc a ≡ suc n + a = omega arith in
    rw (left, right) (ap (λ ms. n ∷ ms) (range-append (suc n) a b))

preorder-tree : (s : Source) (n : ℕ) → preorder (tree s n) ≡ range n (entries s)
preorder-tree done n = refl
preorder-tree (config rest) n = ap (λ ms. n ∷ ms) (preorder-tree rest (suc n))
preorder-tree (block inner rest) n =
    rw (preorder-tree inner (suc n), preorder-tree rest (suc n + entries inner))
      (ap (λ ms. n ∷ ms) (sym (range-append (suc n) (entries inner) (entries rest))))

size-tree : (s : Source) (n : ℕ) → size (tree s n) ≡ entries s
size-tree done n = refl
size-tree (config rest) n = omega (arith, size-tree rest (suc n))
size-tree (block inner rest) n =
    rw (size-tree inner (suc n), size-tree rest (suc n + entries inner)) refl

Ready-init : Ready rootmenu menu_init
unfolding menu_init
Ready-init = record { current = refl; below = omega arith; slot_below = omega arith; free = refl }

-- After the parser's calls for a source, with fuel for the number of entries and a depth above it, the loop ends, and
-- comes by each entry once, in the order of the source.
pub walk-build :
    (s : Source) (depth fuel : ℕ)
    → entries s < depth
    → entries s ≤ fuel
    → let b = build s menu_init in
      walk b.menus depth fuel (b.menus rootmenu).list ≡ some (range 1 (entries s))
unfolding menu_init
walk-build s depth fuel h k =
    let b = build s menu_init in
    let built = build-Built s rootmenu menu_init Ready-init in
    let at = built.kept rootmenu (omega arith) in
    let counted = size-tree s 1 in
    walk-preorder b.menus depth fuel rootmenu (tree s 1)
      (ap (λ l. l.parent) at
        ∙ write_slot-parent (list_of rootmenu) (b.menus rootmenu).list menu_init.menus rootmenu)
      (ap (λ l. l.next) at
        ∙ write_slot-next rootmenu (b.menus rootmenu).list menu_init.menus rootmenu)
      built.linked built.tree_made (omega (arith, counted)) (omega (arith, counted))
    ∙ ap some (preorder-tree s 1)
