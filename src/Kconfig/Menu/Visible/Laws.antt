-- ===== src/Kconfig/Menu/Visible/Laws.antt =====
-- support/kconfig/menu.c: the visible menus of a tree.
use cargos_buildroot.Base.{
  ℕ, zero, suc, ◌<◌, ◌≡◌, refl, ◌∙◌, sym, ◌↔◌, ◌⊎◌, Bool, true, false, ◌&&◌, ◌||◌, not, Option,
  none, some, if◌then◌else◌, ◌==◌, arith, Bool-cases, inl, inr,
}
use cargos_buildroot.Kconfig.Symbol.{Symbol, Store, sym_get_tristate_value}
use cargos_buildroot.Kconfig.Menu.{Links}
use cargos_buildroot.Kconfig.Menu.Forest.{Forest, leaf, menu, first, size, Represents}
use cargos_buildroot.Kconfig.Menu.Visible.{
  Look, Seen, is_hidden, visible_child, prompt_value, calc_prompt, is_visible_by, any_visible,
  menu_is_visible, menu_is_empty,
}

or_true : (x y : Bool) → ((x || true) || y) ≡ true
or_true true y = refl
or_true false y = refl

or_last : (x : Bool) → (x || true) ≡ true
or_last true = refl
or_last false = refl

module _ (st : Store) (look : ℕ → Look) where
  -- The prompt of the menu is visible.
  abbrev pub shows : ℕ → Bool
  shows m =
      (look m).has_prompt
      && not (is_hidden st (look m).visibility)
      && not (prompt_value st (look m) (look m).sym == 0)

  abbrev pub is_on : Option Symbol → Bool
  is_on none = false
  is_on (some s) = not (sym_get_tristate_value st s == 0)

  -- The menu is visible where one below it is: it has a prompt, its visibility holds and its symbol is not `n`.
  abbrev pub opens : ℕ → Bool
  opens m = (look m).has_prompt && not (is_hidden st (look m).visibility) && is_on (look m).sym

  -- Some menu of a tree shows, or shows below menus that open.
  pub data Shows : Forest → Type 0 where
    here : {m : ℕ} → {inner rest : Forest} → shows m ≡ true → Shows (menu m inner rest)
    below :
        {m : ℕ} → {inner rest : Forest} → opens m ≡ true → Shows inner → Shows (menu m inner rest)
    behind : {m : ℕ} → {inner rest : Forest} → Shows rest → Shows (menu m inner rest)

  abbrev any_shows : Forest → Bool
  any_shows leaf = false
  any_shows (menu m inner rest) = (shows m || (opens m && any_shows inner)) || any_shows rest

  visible_child-open :
      (o : Option Symbol) (loop : Seen → Bool × Seen) (b : Bool) (seen : Seen)
      → ((s : Seen) → (loop s).0 ≡ b)
      → (visible_child st o loop seen).0 ≡ (is_on o && b)
  unfolding visible_child
  visible_child-open none loop b seen h = refl
  visible_child-open (some s) loop b seen h = elim (Bool-cases (sym_get_tristate_value st s == 0)) [
    | inl e ↦ rw e refl
    | inr e ↦ elim (Bool-cases b) [
      | inl t ↦ rw (e, h seen, t) refl
      | inr f ↦ rw (e, h seen, f) refl
    ]
  ]

  is_visible_by-shows :
      (links : ℕ → Links) (loop : Option ℕ → Seen → Bool × Seen) (m : ℕ) (b : Bool) (seen : Seen)
      → ((s : Seen) → (loop (links m).list s).0 ≡ b)
      → (is_visible_by st links look loop m seen).0 ≡ (shows m || (opens m && b))
  unfolding is_visible_by
  is_visible_by-shows links loop m b seen h = elim (Bool-cases (look m).has_prompt) [
    | inr p ↦ rw p refl
    | inl p ↦ elim (Bool-cases (is_hidden st (look m).visibility)) [
      | inl v ↦ rw (p, v) refl
      | inr v ↦ elim (Bool-cases (prompt_value st (look m) (look m).sym == 0)) [
        | inr n ↦ rw (p, v, n) refl
        | inl n ↦
            rw (p, v, n)
              (visible_child-open (look m).sym (loop (links m).list) b
                (calc_prompt st m (look m) (look m).sym seen) h)
      ]
    ]
  ]

  any_of :
      (r rest : Bool × Seen) (x y : Bool)
      → r.0 ≡ x
      → rest.0 ≡ y
      → (if r.0 then (true, r.1) else rest).0 ≡ (x || y)
  any_of r rest x y h k = elim (Bool-cases x) [ inl e ↦ rw (h, e) refl | inr e ↦ rw (h, e) k ]

  any_visible-shows :
      (links : ℕ → Links) (parent : Option ℕ) (f : Forest) (fuel : ℕ) (seen : Seen)
      → Represents links parent f
      → size f < fuel
      → (any_visible st links look fuel (first f) seen).0 ≡ any_shows f
  unfolding any_visible
  any_visible-shows links parent f zero seen r l = absurd (omega arith)
  any_visible-shows links parent leaf (suc fuel) seen r l = refl
  any_visible-shows links parent (menu m inner rest) (suc fuel) seen r l =
      let loop = any_visible st links look fuel in
      let inside : (s : Seen) → (loop (links m).list s).0 ≡ any_shows inner =
        λ s. rw r.1 (any_visible-shows links (some m) inner fuel s r.3 (omega arith)) in
      let this = is_visible_by-shows links loop m (any_shows inner) seen inside in
      let after = (is_visible_by st links look loop m seen).1 in
      let others : (loop (links m).next after).0 ≡ any_shows rest =
        rw r.2 (any_visible-shows links parent rest fuel after r.4 (omega arith)) in
      any_of (is_visible_by st links look loop m seen) (loop (links m).next after)
        (shows m || (opens m && any_shows inner)) (any_shows rest) this others

  any_shows-Shows : (f : Forest) → any_shows f ≡ true → Shows f
  any_shows-Shows leaf h = absurd (ground (arith, h))
  any_shows-Shows (menu m inner rest) h = elim (Bool-cases (shows m)) [
    | inl e ↦ here e
    | inr e ↦ elim (Bool-cases (opens m)) [
      | inr o ↦ behind (any_shows-Shows rest (rw (e, o) at h))
      | inl o ↦ elim (Bool-cases (any_shows inner)) [
        | inl i ↦ below o (any_shows-Shows inner i)
        | inr i ↦ behind (any_shows-Shows rest (rw (e, o, i) at h))
      ]
    ]
  ]

  Shows-any_shows : (f : Forest) → Shows f → any_shows f ≡ true
  Shows-any_shows leaf h = elim h [ ]
  Shows-any_shows (menu m inner rest) (here h) = rw h refl
  Shows-any_shows (menu m inner rest) (below h i) =
      rw (h, Shows-any_shows inner i) (or_true (shows m) (any_shows rest))
  Shows-any_shows (menu m inner rest) (behind i) =
      rw (Shows-any_shows rest i) (or_last (shows m || (opens m && any_shows inner)))

  child-Shows :
      (links : ℕ → Links) (m : ℕ) (f : Forest) (fuel : ℕ) (seen : Seen)
      → (links m).list ≡ first f
      → Represents links (some m) f
      → size f < fuel
      → (any_visible st links look fuel (links m).list seen).0 ≡ any_shows f
  child-Shows links m f fuel seen l r k = rw l (any_visible-shows links (some m) f fuel seen r k)

opened :
    (st : Store) (look : ℕ → Look) (m : ℕ) (f : Forest)
    → (shows st look m || (opens st look m && any_shows st look f)) ≡ true
    → (shows st look m ≡ true) ⊎ ((opens st look m ≡ true) × Shows st look f)
opened st look m f h = elim (Bool-cases (shows st look m)) [
  | inl e ↦ inl e
  | inr e ↦ elim (Bool-cases (opens st look m)) [
    | inl o ↦ inr (o, any_shows-Shows st look f (rw (e, o) at h))
    | inr o ↦ absurd (ground (arith, rw (e, o) at h))
  ]
]

-- For a menu whose links stand for a tree below it, and fuel above the size of the tree: menu_is_empty answers false
-- just when a menu of the tree has a visible prompt itself, or lies below menus that have a prompt, a visibility that
-- holds and a symbol that is not `n`; and menu_is_visible answers true just when the prompt of the menu is visible or
-- it is such a menu that opens and is not empty.
pub menu_is_empty-Shows :
    (st : Store) (look : ℕ → Look) (links : ℕ → Links) (m : ℕ) (f : Forest) (fuel : ℕ) (seen : Seen)
    → (links m).list ≡ first f
    → Represents links (some m) f
    → size f < fuel
    → (((menu_is_empty st links look fuel m seen).0 ≡ false) ↔ Shows st look f)
      × (((menu_is_visible st links look fuel m seen).0 ≡ true)
          ↔ ((shows st look m ≡ true) ⊎ ((opens st look m ≡ true) × Shows st look f)))
unfolding menu_is_empty menu_is_visible
menu_is_empty-Shows st look links m f fuel seen l r k =
    let loop = any_visible st links look fuel in
    let child : (s : Seen) → (loop (links m).list s).0 ≡ any_shows st look f =
      λ s. child-Shows st look links m f fuel s l r k in
    let this = is_visible_by-shows st look links loop m (any_shows st look f) seen child in
    (
      (
        λ h. any_shows-Shows st look f (ground (arith, h, child seen)),
        λ h. ground (arith, child seen, Shows-any_shows st look f h),
      ),
      (
        λ h. opened st look m f (sym this ∙ h),
        λ h. this ∙ elim h [
          | inl e ↦ rw e refl
          | inr (o, i) ↦ rw (o, Shows-any_shows st look f i) (or_last (shows st look m))
        ],
      ),
    )
