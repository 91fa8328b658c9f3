-- ===== src/Kconfig/Menu/Write/Entries.antt =====
-- support/kconfig/confdata.c: the entry of a symbol among those that are written.
use cargos_buildroot.Base.{
  ℕ, ◌≡◌, refl, ap, sym, subst, Bool, true, false, ◌&&◌, ◌||◌, Option, none, some, List, [], ◌∷◌,
  ◌++◌, Text, ◌==◌, arith, Bool-cases, Option-cases, inl, inr,
}
use cargos_buildroot.Kconfig.Symbol.{Symbol}
use cargos_buildroot.Kconfig.Config.Read.{Symbols}
use cargos_buildroot.Kconfig.Config.Read.Laws.{is_symbol_of, Spares}
use cargos_buildroot.Kconfig.Config.Write.{Item, MenuEntry, heading, choice, option}
use cargos_buildroot.Kconfig.Config.RoundTrip.Values.{says_no}
use cargos_buildroot.Kconfig.Config.RoundTrip.Files.{item_says, IsPrintable}
use cargos_buildroot.Kconfig.Config.RoundTrip.Reads.{AllWritten, entry_says, IsWritten}
use cargos_buildroot.Kconfig.Config.RoundTrip.Recovers.{AllSpare}
use cargos_buildroot.Kconfig.Menu.Forest.{entries}
use cargos_buildroot.Kconfig.Menu.Write.{MenuData, SymbolText, clear_write, menu_entries}

-- One of the menus has the symbol.
abbrev pub has_menu : (ℕ → MenuData) → Symbol → List ℕ → Bool
has_menu menus s [] = false
has_menu menus s (m ∷ ms) = is_symbol_of s (menus m).sym || has_menu menus s ms

abbrev pub PrintableIf : Bool → Item → Type 0
PrintableIf false i = Unit {0}
PrintableIf true i = IsPrintable i

module _ (env : Symbols) (menus : ℕ → MenuData) (symbols : Symbol → SymbolText) (prefix : Text)
    (s : Symbol) (flagged : Symbol → Bool) where
  -- The symbol of an entry is the one that `sym_find` gives for its name, and is no choice that `s` is a value of;
  -- if it has the flag, a line can hold its name and its value. For a choice there is no condition.
  abbrev pub FitsSymbol : Symbol → Bool → Type 0
  FitsSymbol t true = Unit {0}
  FitsSymbol t false =
      PrintableIf (flagged t) (symbols t).item
      × (env.sym_find (symbols t).item.name ≡ some t)
      × (is_symbol_of s (env.choice_of t) ≡ false)

  abbrev pub FitsMenu : ℕ → Option Symbol → Type 0
  FitsMenu m none = IsWritten prefix (heading (menus m).shown (menus m).prompt)
  FitsMenu m (some t) = FitsSymbol t (symbols t).is_choice

  abbrev pub AllFit : List ℕ → Type 0
  AllFit [] = Unit {0}
  AllFit (m ∷ ms) = FitsMenu m (menus m).sym × AllFit ms

  Spares-item :
      (t : Symbol)
      → (t == s) ≡ false
      → FitsSymbol t false
      → Spares env s (item_says (symbols t).item)
  Spares-item t h f = elim (Bool-cases (says_no (symbols t).item.type (symbols t).item.str)) [
    | inl e ↦ rw (e, f.1) (h, f.2)
    | inr e ↦ rw (e, f.1) (h, f.2)
  ]

  Spares-option :
      (t : Symbol) (write : Bool)
      → FitsSymbol t false
      → ((t == s) && write) ≡ false
      → Spares env s (entry_says (option write (symbols t).item))
  Spares-option t false f h = (refl, refl)
  Spares-option t true f h = Spares-item t (ground arith) f

  not_again : (write : Symbol → Bool) (t : Symbol) → write s ≡ false → ((t == s) && write t) ≡ false
  not_again write t h = elim (Bool-cases (t == s)) [
    | inl e ↦
        let same : s ≡ t = ground arith in
        let clear : write t ≡ false = subst (λ u. write u ≡ false) same h in rw (e, clear) refl
    | inr e ↦ rw e refl
  ]

  -- Once the flag is clear, no entry is about the symbol.
  pub menu_entries-AllSpare :
      (write : Symbol → Bool) (ms : List ℕ)
      → AllFit ms
      → write s ≡ false
      → AllSpare env s (menu_entries menus symbols write ms)
  unfolding menu_entries
  menu_entries-AllSpare write [] f h = tt
  menu_entries-AllSpare write (m ∷ ms) f h = elim (Option-cases (menus m).sym) [
    | inl e ↦ rw (menu_entries, e) ((refl, refl), menu_entries-AllSpare write ms f.1 h)
    | inr (t, e) ↦ elim (Bool-cases (symbols t).is_choice) [
      | inl c ↦ rw (menu_entries, e, c) ((refl, refl), menu_entries-AllSpare write ms f.1 h)
      | inr c ↦
          let fit = subst (FitsSymbol t) c (subst (FitsMenu m) e f.0) in
          rw (menu_entries, e, c)
            (
              Spares-option t (write t) fit (not_again write t h),
              menu_entries-AllSpare (clear_write t write) ms f.1 (ground arith),
            )
    ]
  ]

  cleared : (write : Symbol → Bool) → clear_write s write s ≡ false
  cleared write = elim (Bool-cases (s == s)) [ inl e ↦ rw e refl | inr e ↦ absurd (ground arith) ]

  -- The entries around the one that is about the symbol.
  abbrev pub Around : List MenuEntry → Type 0
  Around entries =
      (xs : List MenuEntry) × (ys : List MenuEntry) × (entries
        ≡ xs ++ (option true (symbols s).item ∷ ys))
      × AllSpare env s xs
      × AllSpare env s ys

  Around-cons :
      (e : MenuEntry) (entries : List MenuEntry)
      → Spares env s (entry_says e)
      → Around entries
      → Around (e ∷ entries)
  Around-cons e entries h (xs, ys, same, k, l) = (e ∷ xs, ys, ap (λ es. e ∷ es) same, (h, k), l)

  Around-option :
      (write : Symbol → Bool) (t : Symbol) (ms : List ℕ)
      → FitsSymbol t false
      → AllFit ms
      → write s ≡ true
      → ((t == s) || has_menu menus s ms) ≡ true
      → (clear_write t write s ≡ true
          → has_menu menus s ms ≡ true
          → Around (menu_entries menus symbols (clear_write t write) ms))
      → Around
          (option (write t) (symbols t).item ∷ menu_entries menus symbols (clear_write t write) ms)
  Around-option write t ms fit f k l rest = elim (Bool-cases (t == s)) [
    | inl e ↦
        let same : s ≡ t = ground arith in
        subst
          (λ u. Around (
            option (write u) (symbols u).item
            ∷ menu_entries menus symbols (clear_write u write) ms))
          same
          (rw k (
            [],
            menu_entries menus symbols (clear_write s write) ms,
            refl,
            tt,
            menu_entries-AllSpare (clear_write s write) ms f (cleared write),
          ))
    | inr e ↦
        Around-cons (option (write t) (symbols t).item)
          (menu_entries menus symbols (clear_write t write) ms)
          (Spares-option t (write t) fit (rw e refl)) (rest (ground arith) (rw e at l))
  ]

  module _ (not_choice : (symbols s).is_choice ≡ false) where
    choice_is_other : (t : Symbol) → (symbols t).is_choice ≡ true → (t == s) ≡ false
    choice_is_other t c = elim (Bool-cases (t == s)) [
      | inl e ↦
          let same : t ≡ s = ground arith in
          absurd
            (ground (arith, c, subst (λ u. (symbols u).is_choice ≡ false) (sym same) not_choice))
      | inr e ↦ e
    ]

    -- A symbol that is to be written and is in a menu has one entry.
    pub menu_entries-Around :
        (write : Symbol → Bool) (ms : List ℕ)
        → AllFit ms
        → write s ≡ true
        → has_menu menus s ms ≡ true
        → Around (menu_entries menus symbols write ms)
    unfolding menu_entries
    menu_entries-Around write [] f k l = absurd (ground (arith, l))
    menu_entries-Around write (m ∷ ms) f k l = elim (Option-cases (menus m).sym) [
      | inl e ↦
          rw (menu_entries, e)
            (Around-cons (heading (menus m).shown (menus m).prompt)
              (menu_entries menus symbols write ms) (refl, refl)
              (menu_entries-Around write ms f.1 k (rw e at l)))
      | inr (t, e) ↦
          let here : ((t == s) || has_menu menus s ms) ≡ true = rw e at l in
          elim (Bool-cases (symbols t).is_choice) [
            | inl c ↦
                rw (menu_entries, e, c)
                  (Around-cons choice (menu_entries menus symbols write ms) (refl, refl)
                    (menu_entries-Around write ms f.1 k (rw (choice_is_other t c) at here)))
            | inr c ↦
                let fit = subst (FitsSymbol t) c (subst (FitsMenu m) e f.0) in
                rw (menu_entries, e, c)
                  (Around-option write t ms fit f.1 k here
                    (menu_entries-Around (clear_write t write) ms f.1))
          ]
    ]

  still_flagged :
      (write : Symbol → Bool) (t u : Symbol)
      → (write u ≡ true → flagged u ≡ true)
      → clear_write t write u ≡ true
      → flagged u ≡ true
  still_flagged write t u h k = elim (Bool-cases (u == t)) [
    | inl e ↦ absurd (ground (arith, rw e at k))
    | inr e ↦ h (rw e at k)
  ]

  option-IsWritten :
      (write : Bool) (t : Symbol)
      → (write ≡ true → flagged t ≡ true)
      → FitsSymbol t false
      → IsWritten prefix (option write (symbols t).item)
  option-IsWritten false t h fit = tt
  option-IsWritten true t h fit = subst (λ b. PrintableIf b (symbols t).item) (h refl) fit.0

  pub menu_entries-AllWritten :
      (write : Symbol → Bool) (ms : List ℕ)
      → ((t : Symbol) → write t ≡ true → flagged t ≡ true)
      → AllFit ms
      → AllWritten prefix (menu_entries menus symbols write ms)
  unfolding menu_entries
  menu_entries-AllWritten write [] h f = tt
  menu_entries-AllWritten write (m ∷ ms) h f = elim (Option-cases (menus m).sym) [
    | inl e ↦
        let fit = subst (FitsMenu m) e f.0 in
        rw (menu_entries, e) (fit, menu_entries-AllWritten write ms h f.1)
    | inr (t, e) ↦ elim (Bool-cases (symbols t).is_choice) [
      | inl c ↦ rw (menu_entries, e, c) (tt, menu_entries-AllWritten write ms h f.1)
      | inr c ↦
          let fit = subst (FitsSymbol t) c (subst (FitsMenu m) e f.0) in
          rw (menu_entries, e, c)
            (
              option-IsWritten (write t) t (h t) fit,
              menu_entries-AllWritten (clear_write t write) ms (λ u. still_flagged write t u (h u))
                  f.1,
            )
    ]
  ]
