-- ===== src/Kconfig/Config/Saved/Laws.antt =====
-- support/kconfig/confdata.c: when a configuration that was read does not count as changed.
use cargos_buildroot.Base.{
  ◌+◌, if◌then◌else◌, ℕ, ◌≡◌, refl, ap, ap₂, subst, sym, ◌∙◌, Bool, true, false, ◌&&◌, ◌||◌, not,
  List, [], ◌∷◌, ◌==◌, arith, Bool-cases, inl, inr,
}
use cargos_buildroot.Kconfig.Symbol.{Symbol}
use cargos_buildroot.Kconfig.Config.Read.{Configuration}
use cargos_buildroot.Kconfig.Config.Saved.{
  conf_get_changed, SavedData, Saving, is_saved, same_as_saved, count_one, count_unsaved, has_text,
  drop_flag, forget_invisible, reset_one, reset_values, conf_read_checks,
}

abbrev pub agrees : SavedData → Bool → Bool
agrees d true = d.is_choice || d.is_auto || (d.written && same_as_saved d)
agrees d false = d.is_choice || d.is_auto || not d.written

is_saved-agrees : (d : SavedData) (b : Bool) → is_saved d b ≡ agrees d b
unfolding is_saved
is_saved-agrees d true = elim (Bool-cases d.written) [ inl e ↦ rw e refl | inr e ↦ rw e refl ]
is_saved-agrees d false = refl

module _ (saved : Symbol → SavedData) where
  -- Each symbol, but for choices and those from the environment, has a saved value just when it is to be written, and
  -- then the value that it has now.
  abbrev pub all_saved : (Symbol → Bool) → List Symbol → Bool
  all_saved has_value [] = true
  all_saved has_value (s ∷ ss) = agrees (saved s) (has_value s) && all_saved has_value ss

  -- No text that a user gave to a symbol, other than a value of a choice, is out of its range.
  abbrev pub in_ranges : (Symbol → Bool) → List Symbol → Bool
  in_ranges has_value [] = true
  in_ranges has_value (s ∷ ss) =
      not (
        (has_value s && not (saved s).is_choice_value)
        && (has_text (saved s).type && not (saved s).in_range))
      && in_ranges has_value ss

  count_one_lem :
      (b : Bool) (st : Saving) (ss : List Symbol)
      → ((count_one b st).conf_unsaved == 0 && all_saved (count_one b st).has_value ss)
        ≡ (st.conf_unsaved == 0 && (b && all_saved st.has_value ss))
  count_one_lem true st ss = refl
  count_one_lem false st ss = ground arith

  count_unsaved-saved :
      (ss : List Symbol) (st : Saving)
      → ((count_unsaved saved ss st).conf_unsaved == 0)
        ≡ (st.conf_unsaved == 0 && all_saved st.has_value ss)
  unfolding count_unsaved
  count_unsaved-saved [] st = ground arith
  count_unsaved-saved (s ∷ ss) st =
      let b = is_saved (saved s) (st.has_value s) in
      count_unsaved-saved ss (count_one b st)
      ∙ (count_one_lem b st ss
          ∙ ap (λ x. st.conf_unsaved == 0 && (x && all_saved st.has_value ss))
              (is_saved-agrees (saved s) (st.has_value s)))

  count_one-keeps : (b : Bool) (st : Saving) → (count_one b st).has_value ≡ st.has_value
  count_one-keeps true st = refl
  count_one-keeps false st = refl

  count_unsaved-keeps :
      (ss : List Symbol) (st : Saving) → (count_unsaved saved ss st).has_value ≡ st.has_value
  unfolding count_unsaved
  count_unsaved-keeps [] st = refl
  count_unsaved-keeps (s ∷ ss) st =
      let b = is_saved (saved s) (st.has_value s) in
      count_unsaved-keeps ss (count_one b st) ∙ count_one-keeps b st

  abbrev is_bad : Bool → Symbol → Bool
  is_bad b t =
      (b && not (saved t).is_choice_value) && (has_text (saved t).type && not (saved t).in_range)

  same_at :
      (s : Symbol) (has_value : Symbol → Bool) (t : Symbol)
      → (has_text (saved s).type && not (saved s).in_range) ≡ false
      → is_bad (drop_flag s has_value t) t ≡ is_bad (has_value t) t
  same_at s has_value t h = elim (Bool-cases (t == s)) [
    | inl e ↦
        let same : t ≡ s = ground arith in
        let fine : (has_text (saved t).type && not (saved t).in_range) ≡ false =
          subst (λ u. (has_text (saved u).type && not (saved u).in_range) ≡ false) (sym same) h in
        rw (e, fine) (ground arith)
    | inr e ↦ rw e refl
  ]

  in_ranges-drop_flag :
      (s : Symbol) (has_value : Symbol → Bool) (ss : List Symbol)
      → (has_text (saved s).type && not (saved s).in_range) ≡ false
      → in_ranges (drop_flag s has_value) ss ≡ in_ranges has_value ss
  in_ranges-drop_flag s has_value [] h = refl
  in_ranges-drop_flag s has_value (t ∷ ss) h =
      ap₂ (λ x y. not x && y) (same_at s has_value t h) (in_ranges-drop_flag s has_value ss h)

  forget_invisible_lem :
      (s : Symbol) (st : Saving) (ss : List Symbol)
      → (has_text (saved s).type && not (saved s).in_range) ≡ false
      → ((forget_invisible s (saved s) st).conf_unsaved == 0
          && in_ranges (forget_invisible s (saved s) st).has_value ss)
        ≡ (st.conf_unsaved == 0 && in_ranges st.has_value ss)
  forget_invisible_lem s st ss h =
      elim (Bool-cases ((saved s).visible == 0 && st.conf_unsaved == 0)) [
        | inl e ↦ rw (e, in_ranges-drop_flag s st.has_value ss h) refl
        | inr e ↦ rw e refl
      ]

  reset_one_lem :
      (s : Symbol) (st : Saving) (ss : List Symbol)
      → ((reset_one s (saved s) st).conf_unsaved == 0
          && in_ranges (reset_one s (saved s) st).has_value ss)
        ≡ (st.conf_unsaved == 0 && in_ranges st.has_value (s ∷ ss))
  reset_one_lem s st ss = elim (Bool-cases (st.has_value s && not (saved s).is_choice_value)) [
    | inr b ↦ rw b refl
    | inl b ↦ elim (Bool-cases (has_text (saved s).type && not (saved s).in_range)) [
      | inl r ↦ rw (b, r) (ground arith)
      | inr r ↦ rw (b, r) (forget_invisible_lem s st ss r)
    ]
  ]

  reset_values-in_ranges :
      (ss : List Symbol) (st : Saving)
      → ((reset_values saved ss st).conf_unsaved == 0)
        ≡ (st.conf_unsaved == 0 && in_ranges st.has_value ss)
  unfolding reset_values
  reset_values-in_ranges [] st = ground arith
  reset_values-in_ranges (s ∷ ss) st =
      reset_values-in_ranges ss (reset_one s (saved s) st) ∙ reset_one_lem s st ss

unchanged :
    (changes : ℕ) (warned unsaved : Bool)
    → not (conf_get_changed (changes + (if (not warned || not unsaved) then 1 else 0)))
      ≡ (changes == 0 && (warned && unsaved))
unchanged changes true true = ground arith
unchanged changes true false = ground arith
unchanged changes false unsaved = ground arith

-- After the reader and the two loops behind it, the configuration counts as unchanged just when the reader has not
-- raised the count of changes, as it does for symbols that it does not know, and gave no warning, each symbol but for
-- choices and those from the environment has a saved value if and only if it is to be written, and then the value
-- that it has now, and no text that the user gave to a symbol, other than a value of a choice, is out of its range.
pub conf_read_checks-saved :
    (saved : Symbol → SavedData) (ss : List Symbol) (read : Configuration) (st : Saving)
    → not (conf_get_changed (conf_read_checks saved ss read st).1) ≡ (
        read.changes == 0
        && (read.warnings == 0
            && (all_saved saved st.has_value ss && in_ranges saved st.has_value ss)))
unfolding conf_read_checks
conf_read_checks-saved saved ss read st =
    let start = record st { conf_unsaved = 0 } in
    let counted = count_unsaved saved ss start in
    let final = reset_values-in_ranges saved ss counted in
    let kept = ap (λ h. in_ranges saved h ss) (count_unsaved-keeps saved ss start) in
    let none_left : ((reset_values saved ss counted).conf_unsaved == 0)
        ≡ (all_saved saved st.has_value ss && in_ranges saved st.has_value ss) =
      final
      ∙ (ap (λ b. b && in_ranges saved counted.has_value ss) (count_unsaved-saved saved ss start)
          ∙ ap (λ b. all_saved saved st.has_value ss && b) kept) in
    unchanged read.changes (read.warnings == 0) ((reset_values saved ss counted).conf_unsaved == 0)
    ∙ ap (λ b. read.changes == 0 && (read.warnings == 0 && b)) none_left
