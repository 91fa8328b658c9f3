-- ===== src/Kconfig/Config/Saved.antt =====
-- support/kconfig/confdata.c: `conf_read` behind the reading: whether the configuration still says what the symbols are.
pub mod Laws
use cargos_buildroot.Base.{
  ℕ, zero, suc, ◌+◌, Bool, true, false, ◌&&◌, ◌||◌, not, List, [], ◌∷◌, Text, text_eq,
  if◌then◌else◌, ◌==◌,
}
use cargos_buildroot.Kconfig.Config.Read.{Configuration}
use cargos_buildroot.Kconfig.Symbol.{
  Tristate, Symbol, SymbolType, s_boolean, s_tristate, s_int, s_hex, s_string,
}

-- What is read of a symbol after `sym_calc_value`; `in_range` is what `sym_string_within_range` says of the user's
-- value, and `written` is the flag SYMBOL_WRITE.
pub record SavedData : Type 0 where
  pub type : SymbolType
  pub is_choice : Bool
  pub is_choice_value : Bool
  pub is_auto : Bool
  pub written : Bool
  pub def_tri : Tristate
  pub def_val : Text
  pub curr_tri : Tristate
  pub curr_val : Text
  pub visible : Tristate
  pub in_range : Bool

-- The user's values (SYMBOL_DEF_USER), the flags SYMBOL_VALID, and `conf_unsaved`.
pub record Saving : Type 0 where
  pub has_value : Symbol → Bool
  pub is_valid : Symbol → Bool
  pub conf_unsaved : ℕ

unfoldable pub same_as_saved : SavedData → Bool
unfolding text_eq
same_as_saved d = elim d.type [
  | s_boolean ↦ d.def_tri == d.curr_tri
  | s_tristate ↦ d.def_tri == d.curr_tri
  | _ ↦ text_eq d.curr_val d.def_val
]

-- A symbol for which the first loop goes on; a choice never gets to the comparison.
unfoldable pub is_saved : SavedData → Bool → Bool
unfolding same_as_saved
is_saved d has_value =
    d.is_choice
    || d.is_auto
    || (if has_value && d.written then same_as_saved d else (not has_value && not d.written))

abbrev pub count_one : Bool → Saving → Saving
count_one true st = st
count_one false st = record st { conf_unsaved = suc st.conf_unsaved }

unfoldable pub count_unsaved : (Symbol → SavedData) → List Symbol → Saving → Saving
unfolding is_saved
count_unsaved saved [] st = st
count_unsaved saved (s ∷ ss) st =
    count_unsaved saved ss (count_one (is_saved (saved s) (st.has_value s)) st)

abbrev pub has_text : SymbolType → Bool
has_text s_string = true
has_text s_int = true
has_text s_hex = true
has_text _ = false

abbrev pub drop_flag : Symbol → (Symbol → Bool) → Symbol → Bool
drop_flag s flags t = if t == s then false else flags t

abbrev pub forget_invisible : Symbol → SavedData → Saving → Saving
forget_invisible s d st =
    if d.visible == 0 && st.conf_unsaved == 0
    then record st { has_value = drop_flag s st.has_value }
    else st

abbrev pub forget_range : Symbol → SavedData → Saving → Saving
forget_range s d st =
    if has_text d.type && not d.in_range
    then record st {
      has_value = drop_flag s st.has_value;
      is_valid = drop_flag s st.is_valid;
      conf_unsaved = suc st.conf_unsaved;
    }
    else st

abbrev pub reset_one : Symbol → SavedData → Saving → Saving
reset_one s d st =
    if st.has_value s && not d.is_choice_value
    then forget_range s d (forget_invisible s d st)
    else st

-- The second loop.
unfoldable pub reset_values : (Symbol → SavedData) → List Symbol → Saving → Saving
reset_values saved [] st = st
reset_values saved (s ∷ ss) st = reset_values saved ss (reset_one s (saved s) st)

abbrev pub conf_get_changed : ℕ → Bool
conf_get_changed sym_change_count = not (sym_change_count == 0)

-- Both loops, from the counter 0 that the reader leaves, with `sym_change_count`, which is 0 before the reader and to
-- which the reader has added 1 for each symbol that it does not know.
unfoldable pub conf_read_checks :
    (Symbol → SavedData) → List Symbol → Configuration → Saving → Saving × ℕ
unfolding count_unsaved reset_values
conf_read_checks saved ss read st =
    let after = reset_values saved ss (count_unsaved saved ss (record st { conf_unsaved = 0 })) in
    let unlike = not (read.warnings == 0) || not (after.conf_unsaved == 0) in
    (after, read.changes + (if unlike then 1 else 0))
