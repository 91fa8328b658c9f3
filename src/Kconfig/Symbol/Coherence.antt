-- ===== src/Kconfig/Symbol/Coherence.antt =====
-- support/kconfig/symbol.c: what `sym_calc_value` leaves in the symbols, as a condition on a store,
-- and the strings that boolean and tristate symbols then have.
use cargos_buildroot.Base.{
  zero, suc, ◌≤◌, ◌≡◌, refl, ◌≢◌, ◌⊎◌, inl, inr, ◌∙◌, ap₂, true, String, ◌==◌, str_eq, arith,
}
use cargos_buildroot.Kconfig.Symbol.{
  Tristate, Symbol, symbol_no, symbol_mod, symbol_yes, s_boolean, s_tristate, Store, type_of,
  sym_get_tristate_value, tristate_string, string_value, sym_get_string_value,
}

-- The constants `n`, `m` and `y` have their values, no value exceeds `y`, a boolean symbol is never
-- `m`, a tristate symbol is `m` only where modules are enabled, and two constants have two strings.
pub record IsCoherent (st : Store) : Type 0 where
  pub no_value : sym_get_tristate_value st symbol_no ≡ 0
  pub mod_value : sym_get_tristate_value st symbol_mod ≡ 1
  pub yes_value : sym_get_tristate_value st symbol_yes ≡ 2
  pub no_string : sym_get_string_value st symbol_no ≡ "n"
  pub mod_string : sym_get_string_value st symbol_mod ≡ "m"
  pub yes_string : sym_get_string_value st symbol_yes ≡ "y"
  pub bounded : (s : Symbol) → sym_get_tristate_value st s ≤ 2
  pub boolean_value : (s : Symbol) → type_of st s ≡ s_boolean → sym_get_tristate_value st s ≢ 1
  pub tristate_value :
      (s : Symbol)
      → type_of st s ≡ s_tristate
      → sym_get_tristate_value st s ≡ 1
      → (st.symbols st.modules_sym).curr_tri ≢ 0
  pub const_strings :
      (a b : Symbol)
      → (st.symbols a).is_const ≡ true
      → (st.symbols b).is_const ≡ true
      → a ≢ b
      → sym_get_string_value st a ≢ sym_get_string_value st b

-- A boolean or tristate symbol.
abbrev pub IsLogical : Store → Symbol → Type 0
IsLogical st s = (type_of st s ≡ s_boolean) ⊎ (type_of st s ≡ s_tristate)

abbrev pub spelling : Tristate → String
spelling zero = "n"
spelling (suc zero) = "m"
spelling (suc (suc _)) = "y"

tristate_string-spelling :
    (modules tri : Tristate) (other : String)
    → tri ≤ 2
    → (tri ≡ 1 → modules ≢ 0)
    → tristate_string modules tri other ≡ spelling tri
unfolding tristate_string
tristate_string-spelling modules zero other b h = refl
tristate_string-spelling modules (suc zero) other b h = ground (arith, h refl)
tristate_string-spelling modules (suc (suc zero)) other b h = refl
tristate_string-spelling modules (suc (suc (suc n))) other b h = absurd (omega arith)

module _ (st : Store) (c : IsCoherent st) (s : Symbol) where
  pub string-spelling :
      IsLogical st s → sym_get_string_value st s ≡ spelling (sym_get_tristate_value st s)
  unfolding sym_get_string_value string_value
  string-spelling (inl e) =
      rw (e, string_value)
        (tristate_string-spelling _ _ _ (c.bounded s) (λ t. absurd (c.boolean_value s e t)))
  string-spelling (inr e) =
      rw (e, string_value) (tristate_string-spelling _ _ _ (c.bounded s) (c.tristate_value s e))

pub spelling-n : (t : Tristate) → str_eq (spelling t) "n" ≡ (t == 0)
spelling-n zero = refl
spelling-n (suc zero) = refl
spelling-n (suc (suc n)) = ground arith

spelling-m : (t : Tristate) → str_eq (spelling t) "m" ≡ (t == 1)
spelling-m zero = refl
spelling-m (suc zero) = refl
spelling-m (suc (suc n)) = ground arith

pub spelling-y : (t : Tristate) → t ≤ 2 → str_eq (spelling t) "y" ≡ (t == 2)
spelling-y zero h = refl
spelling-y (suc zero) h = refl
spelling-y (suc (suc n)) h = ground arith

-- A logical symbol has the string of a constant exactly when it has the constant's value.
module _ (st : Store) (c : IsCoherent st) (s : Symbol) (t : IsLogical st s) where
  pub string_is_n :
      str_eq (sym_get_string_value st s) (sym_get_string_value st symbol_no)
      ≡ (sym_get_tristate_value st s == 0)
  string_is_n = ap₂ str_eq (string-spelling st c s t) c.no_string ∙ spelling-n _

  pub string_is_m :
      str_eq (sym_get_string_value st s) (sym_get_string_value st symbol_mod)
      ≡ (sym_get_tristate_value st s == 1)
  string_is_m = ap₂ str_eq (string-spelling st c s t) c.mod_string ∙ spelling-m _

  pub string_is_y :
      str_eq (sym_get_string_value st s) (sym_get_string_value st symbol_yes)
      ≡ (sym_get_tristate_value st s == 2)
  string_is_y = ap₂ str_eq (string-spelling st c s t) c.yes_string ∙ spelling-y _ (c.bounded s)
