-- ===== src/Kconfig/Menu/Build.antt =====
-- support/kconfig/menu.c: the calls of the parser make the tree of the source.
use cargos_buildroot.Base.{
  ℕ, suc, ◌+◌, ◌≤◌, ◌<◌, ◌≡◌, ◌≢◌, refl, ap, sym, ◌∙◌, subst, Option, none, some, arith,
}
use cargos_buildroot.Kconfig.Menu.{
  Links, next_of, list_of, Builder, no_links, write_slot, put_links, menu_add_entry, menu_add_menu,
  menu_end_menu, Source, done, config, block, build,
}
use cargos_buildroot.Kconfig.Menu.Forest.{first, Represents, entries, tree}
use cargos_buildroot.Kconfig.Menu.Slots.{
  read_slot, menu_of, Kept, write_slot_other, read_slot-write_slot, write_slot_same,
  write_slot_cong, put_links_other, put_links_self, Kept-trans, write_slot-parent, write_slot-list,
  write_slot-next,
}

-- The slot at which the next entry is put is free, and it and the menu stand below the fresh address.
pub record Ready (p : ℕ) (b : Builder) : Type 0 where
  pub current : b.current_menu ≡ some p
  pub below : p < b.fresh
  pub slot_below : menu_of b.last_entry_ptr < b.fresh
  pub free : read_slot b.last_entry_ptr b.menus ≡ none

-- What the calls for a source do.
pub record Built (p : ℕ) (s : Source) (b b' : Builder) : Type 0 where
  pub ready : Ready p b'
  pub counted : b'.fresh ≡ b.fresh + entries s
  pub tree_made : Represents b'.menus (some p) (tree s b.fresh)
  pub linked : read_slot b.last_entry_ptr b'.menus ≡ first (tree s b.fresh)
  pub kept : Kept b.last_entry_ptr b.fresh b.menus b'.menus

Represents-kept :
    (menus menus' : ℕ → Links) (parent : Option ℕ) (s : Source) (n : ℕ)
    → ((a : ℕ) → n ≤ a → a < n + entries s → menus' a ≡ menus a)
    → Represents menus parent (tree s n)
    → Represents menus' parent (tree s n)
Represents-kept menus menus' parent done n h r = tt
Represents-kept menus menus' parent (config rest) n h (p, l, x, i, r) =
    let here = h n (omega arith) (omega arith) in
    (
      ap (λ k. k.parent) here ∙ p,
      ap (λ k. k.list) here ∙ l,
      ap (λ k. k.next) here ∙ x,
      tt,
      Represents-kept menus menus' parent rest (suc n) (λ a le lt. h a (omega arith) (omega arith))
          r,
    )
Represents-kept menus menus' parent (block inner rest) n h (p, l, x, i, r) =
    let here = h n (omega arith) (omega arith) in
    (
      ap (λ k. k.parent) here ∙ p,
      ap (λ k. k.list) here ∙ l,
      ap (λ k. k.next) here ∙ x,
      Represents-kept menus menus' (some n) inner (suc n)
          (λ a le lt. h a (omega arith) (omega arith)) i,
      Represents-kept menus menus' parent rest (suc n + entries inner)
          (λ a le lt. h a (omega arith) (omega arith)) r,
    )

-- `menu_add_entry`: the new entry, the slot before it, and the other menus.
added_entry :
    (p : ℕ) (b : Builder)
    → Ready p b
    → (Ready p (menu_add_entry b))
      × ((menu_add_entry b).menus b.fresh ≡ record no_links { parent = some p })
      × (read_slot b.last_entry_ptr (menu_add_entry b).menus ≡ some b.fresh)
      × Kept b.last_entry_ptr b.fresh b.menus (menu_add_entry b).menus
unfolding menu_add_entry
added_entry p b r =
    let n = b.fresh in
    let links : Links = record no_links { parent = b.current_menu } in
    let made = put_links n links b.menus in
    let apart : n ≢ menu_of b.last_entry_ptr = omega (arith, r.slot_below) in
    let read = read_slot-write_slot b.last_entry_ptr (some n) made in
    let entry : write_slot b.last_entry_ptr (some n) made n ≡ record no_links { parent = some p } =
      write_slot_other b.last_entry_ptr (some n) made n apart
      ∙ (put_links_self n links b.menus ∙ ap (λ c. record no_links { parent = c }) r.current) in
    (
      record {
        current = r.current;
        below = omega (arith, r.below);
        slot_below = omega arith;
        free = ap (λ k. k.next) entry;
      },
      entry,
      read,
      λ a h. rw read (
          write_slot_cong b.last_entry_ptr (some n) made b.menus a
            (put_links_other n a links b.menus (omega arith))),
    )

module _ (p : ℕ) where
  build_config :
      (s : Source) (b b' : Builder)
      → Ready p b
      → Built p s (menu_add_entry b) b'
      → Built p (config s) b b'
  unfolding menu_add_entry
  build_config s b b' r k =
      let (r1, entry, linked, kept) = added_entry p b r in
      let n = b.fresh in
      let made = (menu_add_entry b).menus in
      let at = k.kept n (omega arith) in
      let (read, kept') =
        Kept-trans b.last_entry_ptr (next_of n) n (suc n) b.menus made b'.menus r.slot_below
          (omega arith) (omega arith) kept k.kept in
      record {
        ready = k.ready;
        counted = omega (arith, k.counted);
        tree_made = (
          ap (λ l. l.parent) at
              ∙ (write_slot-parent (next_of n) (b'.menus n).next made n ∙ ap (λ l. l.parent) entry),
          ap (λ l. l.list) at
              ∙ (write_slot-list n (b'.menus n).next made n ∙ ap (λ l. l.list) entry),
          k.linked,
          tt,
          k.tree_made,
        );
        linked = read ∙ linked;
        kept = kept';
      }

  menu_end_menu_lem :
      (m : ℕ) (b : Builder)
      → b.current_menu ≡ some m
      → menu_end_menu b ≡ record b { last_entry_ptr = next_of m; current_menu = (b.menus m).parent }
  unfolding menu_end_menu
  menu_end_menu_lem m b e = rw (menu_end_menu, e) refl

  added_menu : (b : Builder) → Ready p b → Ready b.fresh (menu_add_menu (menu_add_entry b))
  unfolding menu_add_menu menu_add_entry
  added_menu b r =
      let (r1, entry, linked, kept) = added_entry p b r in
      record {
        current = refl;
        below = omega arith;
        slot_below = omega arith;
        free = ap (λ l. l.list) entry;
      }

  module _ (inner s : Source) (b b2 : Builder) (r : Ready p b)
      (i : Built b.fresh inner (menu_add_menu (menu_add_entry b)) b2) where
    -- The block's entry, once the entries in it are made.
    block_entry :
        ((b2.menus b.fresh).parent ≡ some p)
        × ((b2.menus b.fresh).next ≡ none)
        × (b2.fresh ≡ suc b.fresh + entries inner)
    unfolding menu_add_menu menu_add_entry
    block_entry =
        let (r1, entry, linked, kept) = added_entry p b r in
        let n = b.fresh in
        let made = (menu_add_entry b).menus in
        let at = i.kept n (omega arith) in
        (
          ap (λ l. l.parent) at
              ∙ (write_slot-parent (list_of n) (b2.menus n).list made n ∙ ap (λ l. l.parent) entry),
          ap (λ l. l.next) at
              ∙ (write_slot-next n (b2.menus n).list made n ∙ ap (λ l. l.next) entry),
          i.counted,
        )

    ended_menu : Ready p (menu_end_menu b2)
    ended_menu =
        let (parent, next, counted) = block_entry in
        subst (Ready p) (sym (menu_end_menu_lem b.fresh b2 i.ready.current)) (record {
          current = parent;
          below = omega (arith, r.below, counted);
          slot_below = omega (arith, counted);
          free = next;
        })

    build_block : (b' : Builder) → Built p s (menu_end_menu b2) b' → Built p (block inner s) b b'
    unfolding menu_add_menu menu_add_entry
    build_block b' k' =
        let n = b.fresh in
        let (parent, next, counted) = block_entry in
        let (r1, entry, linked, kept) = added_entry p b r in
        let k = subst (λ c. Built p s c b') (menu_end_menu_lem n b2 i.ready.current) k' in
        let made = (menu_add_entry b).menus in
        let (read2, kept2) =
          Kept-trans b.last_entry_ptr (list_of n) n (suc n) b.menus made b2.menus r.slot_below
            (omega arith) (omega arith) kept i.kept in
        let (read, kept') =
          Kept-trans b.last_entry_ptr (next_of n) n b2.fresh b.menus b2.menus b'.menus r.slot_below
            (omega arith) (omega (arith, counted)) kept2 k.kept in
        let at = k.kept n (omega (arith, counted)) in
        let inside : (a : ℕ) → suc n ≤ a → a < suc n + entries inner → b'.menus a ≡ b2.menus a =
          λ a le lt.
            k.kept a (omega (arith, counted))
            ∙ write_slot_other (next_of n) (b'.menus n).next b2.menus a (omega arith) in
        record {
          ready = k.ready;
          counted = omega (arith, k.counted, counted);
          tree_made = (
            ap (λ l. l.parent) at
                ∙ (write_slot-parent (next_of n) (b'.menus n).next b2.menus n ∙ parent),
            ap (λ l. l.list) at ∙ (write_slot-list n (b'.menus n).next b2.menus n ∙ i.linked),
            k.linked ∙ ap (λ f. first (tree s f)) counted,
            Represents-kept b2.menus b'.menus (some n) inner (suc n) inside i.tree_made,
            subst (λ f. Represents b'.menus (some p) (tree s f)) counted k.tree_made,
          );
          linked = read ∙ (read2 ∙ linked);
          kept = kept';
        }

-- The calls for a source, from a free slot on.
pub build-Built : (s : Source) (p : ℕ) (b : Builder) → Ready p b → Built p s b (build s b)
unfolding build
build-Built done p b r = record {
  ready = r;
  counted = omega arith;
  tree_made = tt;
  linked = r.free;
  kept = λ a h. write_slot_same b.last_entry_ptr b.menus a;
}
build-Built (config s) p b r =
    let (r1, entry, linked, kept) = added_entry p b r in
    build_config p s b (build (config s) b) r (build-Built s p (menu_add_entry b) r1)
build-Built (block inner s) p b r =
    let b1 = menu_add_menu (menu_add_entry b) in
    let i = build-Built inner b.fresh b1 (added_menu p b r) in
    let b2 = build inner b1 in
    build_block p inner s b b2 r i (build (block inner s) b)
      (build-Built s p (menu_end_menu b2) (ended_menu p inner s b b2 r i))
