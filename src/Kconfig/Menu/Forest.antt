-- ===== src/Kconfig/Menu/Forest.antt =====
-- support/kconfig/menu.c: the tree that the links of menus stand for.
use cargos_buildroot.Base.{ℕ, zero, suc, ◌+◌, ◌≡◌, Option, none, some, List, [], ◌∷◌, ◌++◌}
use cargos_buildroot.Kconfig.Menu.{Links, Source, done, config, block}

-- The entries of a list of menus: the first one, the entries below it, and those behind it.
pub data Forest : Type 0 where
  leaf : Forest
  menu : ℕ → Forest → Forest → Forest

abbrev pub first : Forest → Option ℕ
first leaf = none
first (menu m inner rest) = some m

abbrev pub preorder : Forest → List ℕ
preorder leaf = []
preorder (menu m inner rest) = m ∷ (preorder inner ++ preorder rest)

abbrev pub size : Forest → ℕ
size leaf = 0
size (menu m inner rest) = suc (size inner + size rest)

-- The links of a list of menus below `parent` are those of the tree.
abbrev pub Represents : (ℕ → Links) → Option ℕ → Forest → Type 0
Represents menus parent leaf = Unit {0}
Represents menus parent (menu m inner rest) =
    ((menus m).parent ≡ parent)
    × ((menus m).list ≡ first inner)
    × ((menus m).next ≡ first rest)
    × Represents menus (some m) inner
    × Represents menus parent rest

-- The tree of the source, its entries numbered from `n` on in their order.
abbrev pub entries : Source → ℕ
entries done = 0
entries (config rest) = suc (entries rest)
entries (block inner rest) = suc (entries inner + entries rest)

abbrev pub tree : Source → ℕ → Forest
tree done n = leaf
tree (config rest) n = menu n leaf (tree rest (suc n))
tree (block inner rest) n = menu n (tree inner (suc n)) (tree rest (suc n + entries inner))

abbrev pub range : ℕ → ℕ → List ℕ
range n zero = []
range n (suc k) = n ∷ range (suc n) k
