-- ===== src/Kconfig/Menu/Walk.antt =====
-- support/kconfig/confdata.c: the loop over the menus comes by every entry once, in the order of the tree.
use cargos_buildroot.Base.{
  ℕ, zero, suc, ◌+◌, ◌-◌, ◌≤◌, ◌<◌, ◌≡◌, refl, ap, sym, ◌∙◌, Option, none, some, Option-cases, inl,
  inr, List, [], ◌∷◌, ◌++◌, arith,
}
use mathlib.Core.List.{append_assoc, append-nil}
use cargos_buildroot.Kconfig.Menu.{Links, or_next, climb, next_menu, walk}
use cargos_buildroot.Kconfig.Menu.Forest.{Forest, leaf, menu, first, preorder, size, Represents}

-- What is put in front of the menus that are still to come.
abbrev with_front : List ℕ → Option (List ℕ) → Option (List ℕ)
with_front ms none = none
with_front ms (some rest) = some (ms ++ rest)

with_front-nil : (o : Option (List ℕ)) → with_front [] o ≡ o
with_front-nil none = refl
with_front-nil (some rest) = refl

or_next-none : (o : Option ℕ) → or_next o none ≡ o
or_next-none none = refl
or_next-none (some m) = refl

walk-none : (menus : ℕ → Links) (depth k : ℕ) → walk menus depth k none ≡ some []
unfolding walk
walk-none menus depth zero = refl
walk-none menus depth (suc k) = refl

with_front-append :
    (ms ms' : List ℕ) (o : Option (List ℕ))
    → with_front ms (with_front ms' o) ≡ with_front (ms ++ ms') o
with_front-append ms ms' none = refl
with_front-append ms ms' (some rest) = ap some (sym (append_assoc ms ms' rest))

with_front-cons :
    (m : ℕ) (ms : List ℕ) (o : Option (List ℕ))
    → with_front (m ∷ []) (with_front ms o) ≡ with_front (m ∷ ms) o
with_front-cons m ms none = refl
with_front-cons m ms (some rest) = refl

module _ (menus : ℕ → Links) (depth : ℕ) where
  -- From a parent, the loop climbs to `goal`, with fuel from `d` on.
  abbrev Climbs : ℕ → Option ℕ → Option ℕ → Type 0
  Climbs d parent goal = (g : ℕ) → d ≤ g → climb menus g parent ≡ goal

  Climbs-next :
      (d m : ℕ) (parent goal rest : Option ℕ)
      → Climbs d parent goal
      → (menus m).parent ≡ parent
      → (menus m).next ≡ rest
      → Climbs (suc d) (some m) (or_next rest goal)
  unfolding climb
  Climbs-next d m parent goal rest c p n zero h = absurd (omega arith)
  Climbs-next d m parent goal rest c p n (suc g) h = rw (climb, p, n, c g (omega arith)) refl

  walk_step :
      (fuel m : ℕ)
      → walk menus depth (suc fuel) (some m)
        ≡ with_front (m ∷ []) (walk menus depth fuel (next_menu menus depth m))
  unfolding walk
  walk_step fuel m = elim (Option-cases (walk menus depth fuel (next_menu menus depth m))) [
    | inl e ↦ rw (walk, e) refl
    | inr (ms, e) ↦ rw (walk, e) refl
  ]

  next_step :
      (m d : ℕ) (parent goal : Option ℕ) (inner rest : Option ℕ)
      → (menus m).parent ≡ parent
      → (menus m).list ≡ inner
      → (menus m).next ≡ rest
      → Climbs d parent goal
      → d ≤ depth
      → next_menu menus depth m ≡ or_next inner (or_next rest goal)
  unfolding next_menu
  next_step m d parent goal inner rest p l n c h = rw (next_menu, p, l, n, c depth h) refl

  walk_forest :
      (f : Forest) (parent goal : Option ℕ) (d k : ℕ)
      → Represents menus parent f
      → Climbs d parent goal
      → d + size f ≤ depth
      → walk menus depth (size f + k) (or_next (first f) goal)
        ≡ with_front (preorder f) (walk menus depth k goal)
  walk_forest leaf parent goal d k r c h =
      let same : 0 + k ≡ k = omega arith in rw same (sym (with_front-nil (walk menus depth k goal)))
  walk_forest (menu m inner rest) parent goal d k (p, l, n, ri, rr) c h =
      let below = or_next (first rest) goal in
      let climbs = Climbs-next d m parent goal (first rest) c p n in
      let step = next_step m d parent goal (first inner) (first rest) p l n c (omega arith) in
      let inner_walk =
        walk_forest inner (some m) below (suc d) (size rest + k) ri climbs (omega arith) in
      let rest_walk = walk_forest rest parent goal d k rr c (omega arith) in
      let fuel = size inner + (size rest + k) in
      let same : suc (size inner + size rest) + k ≡ suc fuel = omega arith in
      let tail =
        ap (λ o. walk menus depth fuel o) step
        ∙ (inner_walk
            ∙ (ap (λ o. with_front (preorder inner) o) rest_walk
                ∙ with_front-append (preorder inner) (preorder rest) (walk menus depth k goal))) in
      rw same (
        walk_step fuel m
        ∙ (ap (λ o. with_front (m ∷ []) o) tail
            ∙ with_front-cons m (preorder inner ++ preorder rest) (walk menus depth k goal)))

  Climbs-root :
      (root : ℕ) → (menus root).parent ≡ none → (menus root).next ≡ none → Climbs 1 (some root) none
  unfolding climb
  Climbs-root root p n zero h = absurd (omega arith)
  Climbs-root root p n (suc zero) h = rw (climb, n) refl
  Climbs-root root p n (suc (suc g)) h = rw (climb, p, n) refl

-- From the list of a root on, which has neither a parent nor a menu behind it, the loop ends, and comes by each
-- menu of the tree that the links stand for, once and in the order of the tree.
pub walk-preorder :
    (menus : ℕ → Links) (depth fuel root : ℕ) (f : Forest)
    → (menus root).parent ≡ none
    → (menus root).next ≡ none
    → (menus root).list ≡ first f
    → Represents menus (some root) f
    → size f < depth
    → size f ≤ fuel
    → walk menus depth fuel (menus root).list ≡ some (preorder f)
walk-preorder menus depth fuel root f p n l r h k =
    let spare : fuel ≡ size f + (fuel - size f) = omega arith in
    let climbs = Climbs-root menus depth root p n in
    let all = walk_forest menus depth f (some root) none 1 (fuel - size f) r climbs (omega arith) in
    rw (spare, l)
      (rw⁻¹ (or_next-none (first f))
        (all ∙ (rw (walk-none menus depth (fuel - size f)) (ap some (append-nil (preorder f))))))
