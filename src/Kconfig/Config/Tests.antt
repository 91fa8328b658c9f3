-- ===== src/Kconfig/Config/Tests.antt =====
-- support/kconfig/confdata.c: the values of a choice, and a number that is out of its range.
use cargos_buildroot.Base.{
  some, not, ◌&&◌, ◌+◌, ◌≡◌, refl, true, false, none, [], ◌∷◌, ◌==◌, bytes, if◌then◌else◌, arith,
}
use cargos_buildroot.Kconfig.Symbol.{Symbol, s_boolean, s_int}
use cargos_buildroot.Kconfig.Config.Saved.{SavedData, Saving, conf_read_checks, conf_get_changed}
use cargos_buildroot.Kconfig.Config.Read.{Configuration}
use cargos_buildroot.Kconfig.Config.Saved.Laws.{all_saved, in_ranges, conf_read_checks-saved}
use cargos_buildroot.Kconfig.Config.New.{NewState, randomize_choice_values}
use cargos_buildroot.Kconfig.Config.New.Choice.{HasOne, randomize_choice_values_one}

abbrev undecided : NewState
undecided = record {
  defs = λ s. record {
    tri = 0;
    chosen = none;
    has_value = false;
    is_valid = true;
    needs_values = false;
  };
  calls = 0;
  has_changed = false;
}

randomize_choice_values_one_example :
    let r = randomize_choice_values (λ n. n + 7) 3 2 (4 ∷ 5 ∷ 6 ∷ []) undecided in
    (r.0 ≡ true) × HasOne r.1.defs 3 (4 ∷ 5 ∷ 6 ∷ []) × ((r.1.defs 3).chosen ≡ some 5)
randomize_choice_values_one_example =
    randomize_choice_values_one (λ n. n + 7) 3 (4 ∷ 5 ∷ 6 ∷ []) undecided (ground arith) refl refl

-- The symbol 6 is a number out of its range.
abbrev saved : Symbol → SavedData
saved s = record {
  type = if s == 6 then s_int else s_boolean;
  is_choice = false;
  is_choice_value = false;
  is_auto = false;
  written = true;
  def_tri = 2;
  def_val = bytes "70";
  curr_tri = 2;
  curr_val = bytes "70";
  visible = 2;
  in_range = false;
}

abbrev all_set : Saving
all_set = record { has_value = λ s. true; is_valid = λ s. true; conf_unsaved = 0 }

-- The reader met one symbol that it does not know.
abbrev read : Configuration
read = record {
  defs = λ s. record { type = s_boolean; tri = 0; val = none; chosen = none; has_value = false };
  changes = 1;
  warnings = 0;
}

conf_read_checks-saved_example :
    not (conf_get_changed (conf_read_checks saved (5 ∷ 6 ∷ []) read all_set).1) ≡ (
      1 == 0
      && (0 == 0
          && (all_saved saved all_set.has_value (5 ∷ 6 ∷ [])
              && in_ranges saved all_set.has_value (5 ∷ 6 ∷ []))))
conf_read_checks-saved_example = conf_read_checks-saved saved (5 ∷ 6 ∷ []) read all_set
