-- ===== src/Kconfig/Menu/Deps/Laws.antt =====
-- support/kconfig/menu.c: what dependencies and prompts are worth after the parser has put them into a menu.
use cargos_buildroot.Base.{
  ℕ, zero, suc, ◌≡◌, refl, ap, sym, ◌∙◌, ◌≢◌, true, Option, none, some, List, [], ◌∷◌, Text,
  if◌then◌else◌, ◌==◌, arith, Bool-cases, inl, inr,
}
use cargos_buildroot.Kconfig.Symbol.{
  Tristate, Symbol, symbol_no, symbol_mod, tri_yes, expr_and, Store, sym_get_tristate_value,
}
use cargos_buildroot.Kconfig.Symbol.Coherence.{IsCoherent}
use cargos_buildroot.Kconfig.Expr.{
  Expr, e_symbol, e_not, e_equal, e_unequal, e_or, e_and, value, expr_calc_value, expr_alloc_and,
}
use cargos_buildroot.Kconfig.Expr.Values.{expr_calc_value-expr_alloc_and, value-le}
use cargos_buildroot.Kconfig.Menu.{Links}
use cargos_buildroot.Kconfig.Menu.Deps.{
  menu_check_dep, check_dep, p_prompt, PropExpr, PropertyData, MenuFields, Parsed, upper_visibility,
  skip_spaces, menu_add_prop,
}

-- The expression with `n` for each `m`.
abbrev pub without_modules : Expr → Expr
without_modules (e_symbol s) = if s == symbol_mod then e_symbol symbol_no else e_symbol s
without_modules (e_not e) = e_not (without_modules e)
without_modules (e_or l r) = e_or (without_modules l) (without_modules r)
without_modules (e_and l r) = e_and (without_modules l) (without_modules r)
without_modules (e_equal a b) = e_equal a b
without_modules (e_unequal a b) = e_unequal a b

module _ (st : Store) (c : IsCoherent st) (modules_sym : Symbol) where
  checked_enabled :
      (e : Expr)
      → sym_get_tristate_value st modules_sym ≢ 0
      → value st (menu_check_dep modules_sym e) ≡ value st e
  unfolding value menu_check_dep
  checked_enabled (e_symbol s) n = elim (Bool-cases (s == symbol_mod)) [
    | inl e ↦ let same : s ≡ symbol_mod = ground arith in rw (e, same, c.mod_value) (ground arith)
    | inr e ↦ rw e refl
  ]
  checked_enabled (e_not e) n = rw (checked_enabled e n) refl
  checked_enabled (e_or l r) n = rw (checked_enabled l n, checked_enabled r n) refl
  checked_enabled (e_and l r) n = rw (checked_enabled l n, checked_enabled r n) refl
  checked_enabled (e_equal a b) n = refl
  checked_enabled (e_unequal a b) n = refl

  checked_disabled :
      (e : Expr)
      → sym_get_tristate_value st modules_sym ≡ 0
      → value st (menu_check_dep modules_sym e) ≡ value st (without_modules e)
  unfolding value menu_check_dep
  checked_disabled (e_symbol s) n = elim (Bool-cases (s == symbol_mod)) [
    | inl e ↦ rw (e, n, c.no_value) (ground arith)
    | inr e ↦ rw e refl
  ]
  checked_disabled (e_not e) n = rw (checked_disabled e n) refl
  checked_disabled (e_or l r) n = rw (checked_disabled l n, checked_disabled r n) refl
  checked_disabled (e_and l r) n = rw (checked_disabled l n, checked_disabled r n) refl
  checked_disabled (e_equal a b) n = refl
  checked_disabled (e_unequal a b) n = refl

-- Under a coherent store, a dependency that went through menu_check_dep has the value it had where modules are
-- enabled, and where they are not the value of the dependency with `n` for `m`.
pub value-menu_check_dep :
    (st : Store) (modules_sym : Symbol) (e : Expr)
    → IsCoherent st
    → (sym_get_tristate_value st modules_sym ≢ 0
        → value st (menu_check_dep modules_sym e) ≡ value st e)
      × (sym_get_tristate_value st modules_sym ≡ 0
          → value st (menu_check_dep modules_sym e) ≡ value st (without_modules e))
value-menu_check_dep st modules_sym e c =
    (checked_enabled st c modules_sym e, checked_disabled st c modules_sym e)

-- The menus above one, from its parent on.
abbrev pub upper_menus : (ℕ → Links) → ℕ → Option ℕ → List ℕ
upper_menus links zero m = []
upper_menus links (suc fuel) none = []
upper_menus links (suc fuel) (some m) = m ∷ upper_menus links fuel (links m).parent

-- The lowest value among the visibilities of menus.
abbrev pub lowest : Store → (ℕ → MenuFields) → List ℕ → Tristate
lowest st entry [] = tri_yes
lowest st entry (m ∷ ms) = expr_and (expr_calc_value st (entry m).visibility) (lowest st entry ms)

expr_and_assoc : (a b d : Tristate) → expr_and (expr_and a b) d ≡ expr_and a (expr_and b d)
expr_and_assoc a b d = ground arith

expr_calc_value-le :
    (st : Store)
    → IsCoherent st
    → (e : Option Expr) → expr_and (expr_calc_value st e) 2 ≡ expr_calc_value st e
unfolding expr_calc_value
expr_calc_value-le st c none = refl
expr_calc_value-le st c (some e) = ground (arith, value-le st c e)

upper_visibility-lowest :
    (st : Store) (c : IsCoherent st) (links : ℕ → Links) (entry : ℕ → MenuFields) (depth : ℕ)
    (m : Option ℕ) (visible : Option Expr)
    → expr_calc_value st (upper_visibility links entry depth m visible)
      ≡ expr_and (expr_calc_value st visible) (lowest st entry (upper_menus links depth m))
unfolding upper_visibility
upper_visibility-lowest st c links entry zero m visible = sym (expr_calc_value-le st c visible)
upper_visibility-lowest st c links entry (suc depth) none visible =
    sym (expr_calc_value-le st c visible)
upper_visibility-lowest st c links entry (suc depth) (some m) visible =
    let v = (entry m).visibility in
    let above = lowest st entry (upper_menus links depth (links m).parent) in
    upper_visibility-lowest st c links entry depth (links m).parent (expr_alloc_and visible v)
    ∙ (ap (λ x. expr_and x above) (expr_calc_value-expr_alloc_and st c visible v)
        ∙ expr_and_assoc (expr_calc_value st visible) (expr_calc_value st v) above)

-- Under a coherent store, the prompt that menu_add_prop gives the current entry is worth the least of its checked
-- condition and the visibilities of the menus above the entry, up to the depth given.
pub menu_add_prop-lowest :
    (st : Store) (links : ℕ → Links) (depth : ℕ) (modules_sym : Symbol) (m : ℕ) (prompt : Text)
    (expr : Option PropExpr) (dep : Option Expr) (ps : Parsed)
    → IsCoherent st
    → (prop : PropertyData) × (((menu_add_prop links depth modules_sym m p_prompt
            (some prompt)
            expr
            dep
            ps).entry
          m).prompt
        ≡ some prop)
      × (expr_calc_value st prop.visible
          ≡ expr_and
              (expr_calc_value st (check_dep modules_sym dep))
              (lowest st ps.entry (upper_menus links depth (links m).parent)))
unfolding menu_add_prop
menu_add_prop-lowest st links depth modules_sym m prompt expr dep ps c =
    let checked = check_dep modules_sym dep in
    let same : (m == m) ≡ true = ground arith in
    (
      record {
        type = p_prompt;
        text = some (skip_spaces prompt);
        visible = upper_visibility links ps.entry depth (links m).parent checked;
        expr = expr;
        menu = m;
      },
      rw same refl,
      upper_visibility-lowest st c links ps.entry depth (links m).parent checked,
    )
