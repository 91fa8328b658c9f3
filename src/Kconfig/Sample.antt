-- ===== src/Kconfig/Sample.antt =====
-- support/kconfig: a small store for the tests.
use cargos_buildroot.Base.{ℕ, zero, suc, ◌≤◌, ◌≡◌, ◌≢◌, refl, true, false, some, eq_iff, arith}
use cargos_buildroot.Kconfig.Symbol.{
  Symbol, s_unknown, s_boolean, s_tristate, SymbolData, Store, type_of, sym_get_tristate_value,
  sym_get_string_value, Tristate,
}
use cargos_buildroot.Kconfig.Symbol.Coherence.{IsCoherent}
use cargos_buildroot.Kconfig.Transform.Normal.{HasPlainConstants}

-- The constants, a boolean symbol with the value y (3), a tristate symbol
-- with a given value (4), and one with y (5).
abbrev pub sample_symbols : Tristate → Symbol → SymbolData
sample_symbols v zero = record {
  name = some "n";
  type = s_unknown;
  curr_val = "n";
  curr_tri = 0;
  is_const = true;
}
sample_symbols v (suc zero) = record {
  name = some "m";
  type = s_unknown;
  curr_val = "m";
  curr_tri = 1;
  is_const = true;
}
sample_symbols v (suc (suc zero)) = record {
  name = some "y";
  type = s_unknown;
  curr_val = "y";
  curr_tri = 2;
  is_const = true;
}
sample_symbols v (suc (suc (suc zero))) = record {
  name = some "MODULES";
  type = s_boolean;
  curr_val = "";
  curr_tri = 2;
  is_const = false;
}
sample_symbols v (suc (suc (suc (suc zero)))) = record {
  name = some "EXT4";
  type = s_tristate;
  curr_val = "";
  curr_tri = v;
  is_const = false;
}
sample_symbols v (suc (suc (suc (suc (suc _))))) = record {
  name = some "NET";
  type = s_tristate;
  curr_val = "";
  curr_tri = 2;
  is_const = false;
}

abbrev pub sample : Tristate → Store
sample v = record { symbols = sample_symbols v; modules_sym = 3 }

sample_bounded : (v : Tristate) → v ≤ 2 → (s : Symbol) → sym_get_tristate_value (sample v) s ≤ 2
unfolding sym_get_tristate_value
sample_bounded v b zero = omega arith
sample_bounded v b (suc zero) = omega arith
sample_bounded v b (suc (suc zero)) = omega arith
sample_bounded v b (suc (suc (suc zero))) = omega arith
sample_bounded v b (suc (suc (suc (suc zero)))) = omega arith
sample_bounded v b _ = omega arith

sample_boolean :
    (v : Tristate) (s : Symbol)
    → type_of (sample v) s ≡ s_boolean
    → sym_get_tristate_value (sample v) s ≢ 1
unfolding sym_get_tristate_value
sample_boolean v zero h = cc
sample_boolean v (suc zero) h = cc
sample_boolean v (suc (suc zero)) h = omega arith
sample_boolean v (suc (suc (suc zero))) h = omega arith
sample_boolean v (suc (suc (suc (suc zero)))) h = cc
sample_boolean v (suc (suc (suc (suc (suc _))))) h = omega arith

sample_strings :
    (v : Tristate) (a b : Symbol)
    → (sample_symbols v a).is_const ≡ true
    → (sample_symbols v b).is_const ≡ true
    → a ≢ b
    → sym_get_string_value (sample v) a ≢ sym_get_string_value (sample v) b
unfolding sym_get_string_value
sample_strings v zero zero p q n = absurd (n refl)
sample_strings v zero (suc zero) p q n = ground (arith, eq_iff "n" "m")
sample_strings v zero (suc (suc zero)) p q n = ground (arith, eq_iff "n" "y")
sample_strings v (suc zero) zero p q n = ground (arith, eq_iff "m" "n")
sample_strings v (suc zero) (suc zero) p q n = absurd (n refl)
sample_strings v (suc zero) (suc (suc zero)) p q n = ground (arith, eq_iff "m" "y")
sample_strings v (suc (suc zero)) zero p q n = ground (arith, eq_iff "y" "n")
sample_strings v (suc (suc zero)) (suc zero) p q n = ground (arith, eq_iff "y" "m")
sample_strings v (suc (suc zero)) (suc (suc zero)) p q n = absurd (n refl)
sample_strings v (suc (suc (suc zero))) _ p q n = cc
sample_strings v (suc (suc (suc (suc zero)))) _ p q n = cc
sample_strings v (suc (suc (suc (suc (suc _))))) _ p q n = cc
sample_strings v _ (suc (suc (suc zero))) p q n = cc
sample_strings v _ (suc (suc (suc (suc zero)))) p q n = cc
sample_strings v _ (suc (suc (suc (suc (suc _))))) p q n = cc

sample_modules : ◌≢◌ {A = ℕ} 2 0
sample_modules = omega arith

pub sample-IsCoherent : (v : Tristate) → v ≤ 2 → IsCoherent (sample v)
unfolding sym_get_tristate_value sym_get_string_value
sample-IsCoherent v b = record {
  no_value = refl;
  mod_value = refl;
  yes_value = refl;
  no_string = refl;
  mod_string = refl;
  yes_string = refl;
  bounded = sample_bounded v b;
  boolean_value = sample_boolean v;
  tristate_value = λ s t m. sample_modules;
  const_strings = sample_strings v;
}

pub sample-HasPlainConstants : (v : Tristate) → HasPlainConstants (sample v)
sample-HasPlainConstants v zero h = refl
sample-HasPlainConstants v (suc zero) h = refl
sample-HasPlainConstants v (suc (suc zero)) h = refl
sample-HasPlainConstants v (suc (suc (suc zero))) h = cc
sample-HasPlainConstants v (suc (suc (suc (suc zero)))) h = refl
sample-HasPlainConstants v (suc (suc (suc (suc (suc _))))) h = refl
