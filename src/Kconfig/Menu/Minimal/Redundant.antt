-- ===== src/Kconfig/Menu/Minimal/Redundant.antt =====
-- support/kconfig/confdata.c: the symbols that `conf_write_defconfig` skips.
use cargos_buildroot.Base.{
  ◌≤◌, ◌≡◌, refl, ap, sym, subst, ◌⊎◌, true, false, Option, none, some, text_eq, text_eq→eq,
  text_eq_self, ltb, ◌==◌, arith, Bool-cases, inl, inr,
}
use cargos_buildroot.Kconfig.Symbol.{Symbol, SymbolType, s_boolean, Tristate, tri_yes}
use cargos_buildroot.Kconfig.Menu.Write.{SymbolText}
use cargos_buildroot.Kconfig.Menu.Minimal.{
  ChoiceData, DefaultData, is_s_boolean, is_choice_default, is_default_symbol, sym_is_changable,
  is_kept,
}

-- Why a symbol need not be written: it cannot be changed, it has its default, or it is the default of a choice that must
-- have a value, and `y`.
abbrev pub IsChoiceDefault : Symbol → SymbolType → Tristate → Option ChoiceData → Type 0
IsChoiceDefault s type tri none = ⊥
IsChoiceDefault s type tri (some cs) =
    (cs.is_optional ≡ false) × (cs.choice_default ≡ some s) × (type ≡ s_boolean) × (tri ≡ tri_yes)

abbrev pub IsRedundant : (Symbol → SymbolText) → (Symbol → DefaultData) → Symbol → Type 0
IsRedundant symbols defaults s =
    ((defaults s).visible ≤ (defaults s).rev_dep_tri)
    ⊎ (((symbols s).item.str ≡ (defaults s).string_default)
        ⊎ IsChoiceDefault s (symbols s).item.type (defaults s).tri (defaults s).value_of)

is_s_boolean-eq : (type : SymbolType) → is_s_boolean type ≡ true → type ≡ s_boolean
is_s_boolean-eq s_boolean h = refl
is_s_boolean-eq _ h = cc

is_default_symbol-eq : (s : Symbol) (o : Option Symbol) → is_default_symbol s o ≡ true → o ≡ some s
is_default_symbol-eq s none h = cc
is_default_symbol-eq s (some ds) h = ap some (ground (arith, h))

is_choice_default-IsChoiceDefault :
    (s : Symbol) (type : SymbolType) (tri : Tristate) (o : Option ChoiceData)
    → is_choice_default s type tri o ≡ true
    → IsChoiceDefault s type tri o
unfolding is_choice_default
is_choice_default-IsChoiceDefault s type tri none h = absurd (ground (arith, h))
is_choice_default-IsChoiceDefault s type tri (some cs) h = (
  ground (arith, h),
  is_default_symbol-eq s cs.choice_default (ground (arith, h)),
  is_s_boolean-eq type (ground (arith, h)),
  ground (arith, h),
)

IsChoiceDefault-is_choice_default :
    (s : Symbol) (type : SymbolType) (tri : Tristate) (o : Option ChoiceData)
    → IsChoiceDefault s type tri o
    → is_choice_default s type tri o ≡ true
unfolding is_choice_default
IsChoiceDefault-is_choice_default s type tri none h = absurd h
IsChoiceDefault-is_choice_default s type tri (some cs) h =
    let itself : (s == s) ≡ true = ground arith in rw (h.0, h.1, h.2, h.3, itself) refl

module _ (symbols : Symbol → SymbolText) (defaults : Symbol → DefaultData) (s : Symbol) where
  pub kept_or_IsRedundant :
      ((is_kept symbols defaults s ≡ true) × ¬ IsRedundant symbols defaults s)
      ⊎ ((is_kept symbols defaults s ≡ false) × IsRedundant symbols defaults s)
  unfolding is_kept sym_is_changable
  kept_or_IsRedundant =
      let item = (symbols s).item in
      let d = defaults s in
      elim (Bool-cases (ltb d.rev_dep_tri d.visible)) [
        | inr c ↦ inr (rw c refl, inl (ground (arith, c)))
        | inl c ↦ elim (Bool-cases (text_eq item.str d.string_default)) [
          | inl t ↦ inr (rw (c, t) refl, inr (inl (text_eq→eq item.str d.string_default t)))
          | inr t ↦ elim (Bool-cases (is_choice_default s item.type d.tri d.value_of)) [
            | inl v ↦ inr (
              rw (c, t, v) refl,
              inr (inr (is_choice_default-IsChoiceDefault s item.type d.tri d.value_of v)),
            )
            | inr v ↦ inl (
              rw (c, t, v) refl,
              λ r. elim r [
                | inl l ↦ ground (arith, c, l)
                | inr (inl same) ↦
                    let differs : text_eq item.str item.str ≡ false =
                      subst (λ x. text_eq item.str x ≡ false) (sym same) t in
                    ground (arith, differs, text_eq_self item.str)
                | inr (inr w) ↦
                    ground
                      (arith, v, IsChoiceDefault-is_choice_default s item.type d.tri d.value_of w)
              ],
            )
          ]
        ]
      ]
