-- ===== src/Kconfig/Menu/Minimal/Laws.antt =====
-- support/kconfig/confdata.c: what `conf_read_simple` makes of the text of `conf_write_defconfig`.
use cargos_buildroot.Base.{
  ℕ, suc, ◌≤◌, ◌<◌, ◌≡◌, refl, ap, ap₂, sym, ◌∙◌, subst, ◌⊎◌, Bool, true, false, ◌&&◌, none, some,
  List, [], ◌∷◌, Text, length, ◌==◌, arith, Bool-cases, Option-cases, inl, inr,
}
use cargos_buildroot.Kconfig.Symbol.{Symbol}
use cargos_buildroot.Kconfig.Strings.{all_bytes}
use cargos_buildroot.Kconfig.Config.Line.Laws.{Grows, in_name}
use cargos_buildroot.Kconfig.Config.Read.{Configuration, Symbols, conf_read_simple, reset_def}
use cargos_buildroot.Kconfig.Config.Read.Laws.{is_symbol_of}
use cargos_buildroot.Kconfig.Config.Write.{MenuEntry, heading, choice, option, write_entries}
use cargos_buildroot.Kconfig.Config.RoundTrip.Values.{HasString, is_value}
use cargos_buildroot.Kconfig.Config.RoundTrip.Reads.{AllWritten, load, Reads-entries}
use cargos_buildroot.Kconfig.Config.RoundTrip.Recovers.{load_spares, load_recovers, reset_def_type}
use cargos_buildroot.Kconfig.Menu.{Links, rootmenu}
use cargos_buildroot.Kconfig.Menu.Forest.{Forest, first, preorder, size, Represents}
use cargos_buildroot.Kconfig.Menu.Walk.{walk-preorder}
use cargos_buildroot.Kconfig.Menu.Write.{MenuData, SymbolText, clear_write, menu_entries}
use cargos_buildroot.Kconfig.Menu.Write.Entries.{
  has_menu, AllFit, menu_entries-Around, menu_entries-AllSpare, menu_entries-AllWritten,
}
use cargos_buildroot.Kconfig.Menu.Minimal.{
  DefaultData, is_kept, defconfig_entries, conf_write_defconfig,
}
use cargos_buildroot.Kconfig.Menu.Minimal.Redundant.{IsRedundant, kept_or_IsRedundant}

-- The menus without a heading.
abbrev pub hide : (ℕ → MenuData) → ℕ → MenuData
hide menus m = record { sym = (menus m).sym; shown = false; prompt = [] }

module _ (menus : ℕ → MenuData) (symbols : Symbol → SymbolText)
    (defaults : Symbol → DefaultData) where
  cleared_alike :
      (write flags : Symbol → Bool) (t : Symbol)
      → ((u : Symbol) → flags u ≡ (write u && is_kept symbols defaults u))
      → (u : Symbol) → clear_write t flags u ≡ (clear_write t write u && is_kept symbols defaults u)
  cleared_alike write flags t h u = elim (Bool-cases (u == t)) [
    | inl e ↦ rw e refl
    | inr e ↦ rw e (h u)
  ]

  -- They are the entries of conf_write where only the symbols that are kept have the flag SYMBOL_WRITE.
  defconfig_entries-hide :
      (write flags : Symbol → Bool) (ms : List ℕ)
      → ((t : Symbol) → flags t ≡ (write t && is_kept symbols defaults t))
      → defconfig_entries menus symbols defaults write ms
        ≡ menu_entries (hide menus) symbols flags ms
  unfolding defconfig_entries menu_entries
  defconfig_entries-hide write flags [] h = refl
  defconfig_entries-hide write flags (m ∷ ms) h = elim (Option-cases (menus m).sym) [
    | inl e ↦
        rw (defconfig_entries, menu_entries, e)
          (ap (λ es. heading false [] ∷ es) (defconfig_entries-hide write flags ms h))
    | inr (t, e) ↦ elim (Bool-cases (symbols t).is_choice) [
      | inl c ↦
          rw (defconfig_entries, menu_entries, e, c)
            (ap (λ es. choice ∷ es) (defconfig_entries-hide write flags ms h))
      | inr c ↦
          rw (defconfig_entries, menu_entries, e, c)
            (ap₂ (λ f es. option f (symbols t).item ∷ es) (sym (h t))
              (defconfig_entries-hide (clear_write t write) (clear_write t flags) ms
                (cleared_alike write flags t h)))
    ]
  ]

module _ (env : Symbols) (realloc : ℕ → Bool) (grows : Grows realloc) (prefix : Text)
    (names : all_bytes in_name prefix ≡ true) where
  -- A file without a heading is read entry by entry.
  reads_entries :
      (lines : List MenuEntry) (st : Configuration)
      → AllWritten prefix lines
      → let start = record st { defs = λ u. reset_def env u (st.defs u); warnings = 0 } in
        conf_read_simple env realloc prefix (write_entries prefix lines) st ≡ load env lines start
  unfolding conf_read_simple
  reads_entries lines st w =
      let start = record st { defs = λ u. reset_def env u (st.defs u); warnings = 0 } in
      Reads-entries env realloc grows prefix names lines start w
        (suc (length (write_entries prefix lines))) 0 (omega arith)

-- For any tree of menus under `rootmenu` that the links stand for, where `rootmenu` has no parent and no menu behind
-- it, let a symbol be in a menu. Let each symbol of the menus that is no choice be the one that `sym_find` gives for
-- its name and be no value of the symbol as a choice; if it has the flag SYMBOL_WRITE and is kept, let its name and
-- its value have no byte that a line cannot have, and its value fit its type. Let the symbol be no choice, have for
-- the reader the type it is written with, and a value that fits it. Let the prefix have no byte that a name cannot
-- have, `realloc` not fail, the fuel be at least the number of menus below the root and the depth more. Then
-- conf_write_defconfig ends. If the symbol has the flag, can be changed, and has neither its default nor is the `y`
-- of a choice that must have a value and has it as default, then reading what was written gives the symbol the string
-- that it had; if not, it is as the reader's reset leaves it.
pub conf_write_defconfig_recovers :
    (links : ℕ → Links) (f : Forest) (depth fuel : ℕ) (env : Symbols) (realloc : ℕ → Bool)
    (prefix : Text) (menus : ℕ → MenuData) (symbols : Symbol → SymbolText)
    (defaults : Symbol → DefaultData) (write : Symbol → Bool) (st : Configuration) (s : Symbol)
    → (links rootmenu).parent ≡ none
    → (links rootmenu).next ≡ none
    → (links rootmenu).list ≡ first f
    → Represents links (some rootmenu) f
    → size f < depth
    → size f ≤ fuel
    → Grows realloc
    → all_bytes in_name prefix ≡ true
    → AllFit env
        (hide menus)
        symbols
        prefix
        s
        (λ u. write u && is_kept symbols defaults u)
        (preorder f)
    → has_menu (hide menus) s (preorder f) ≡ true
    → (symbols s).is_choice ≡ false
    → env.sym_find (symbols s).item.name ≡ some s
    → is_symbol_of s (env.choice_of s) ≡ false
    → (st.defs s).type ≡ (symbols s).item.type
    → is_value (symbols s).item.type (symbols s).item.str ≡ true
    → (text : Text) × (conf_write_defconfig links menus symbols defaults write depth fuel prefix
        ≡ some text)
      × (((write s ≡ true)
            × (¬ IsRedundant symbols defaults s)
            × HasString ((conf_read_simple env realloc prefix text st).defs s) (symbols s).item.str)
          ⊎ (((write s ≡ false) ⊎ IsRedundant symbols defaults s)
              × ((conf_read_simple env realloc prefix text st).defs s
                  ≡ reset_def env s (st.defs s))))
unfolding conf_write_defconfig
conf_write_defconfig_recovers links f depth fuel env realloc prefix menus symbols defaults write st
      s parent next list represents d e g p fits h n found c t v =
    let ms = preorder f in
    let order = walk-preorder links depth fuel rootmenu f parent next list represents d e in
    let flags : Symbol → Bool = λ u. write u && is_kept symbols defaults u in
    let lines = menu_entries (hide menus) symbols flags ms in
    let same = defconfig_entries-hide menus symbols defaults write flags ms (λ u. refl) in
    let written =
      menu_entries-AllWritten env (hide menus) symbols prefix s flags flags ms (λ u h. h) fits in
    let start = record st { defs = λ u. reset_def env u (st.defs u); warnings = 0 } in
    let reads = reads_entries env realloc g prefix p lines st written in
    let spared : flags s ≡ false
        → (conf_read_simple env realloc prefix (write_entries prefix lines) st).defs s
          ≡ reset_def env s (st.defs s) =
      λ k.
        ap (λ st'. st'.defs s) reads
        ∙ load_spares env s lines start
            (menu_entries-AllSpare env (hide menus) symbols prefix s flags flags ms fits k) in
    (
      write_entries prefix lines,
      rw order (ap (λ es. some (write_entries prefix es)) same),
      elim (Bool-cases (write s)) [
        | inr w ↦ inr (inl w, spared (rw w refl))
        | inl w ↦ elim (kept_or_IsRedundant symbols defaults s) [
          | inr (k, r) ↦ inr (inr r, spared (rw (w, k) refl))
          | inl (k, r) ↦
              let around =
                menu_entries-Around env (hide menus) symbols prefix s flags n flags ms fits
                  (rw (w, k) refl) h in
              inl (
                w,
                r,
                subst (λ st'. HasString (st'.defs s) (symbols s).item.str) (sym reads)
                    (subst (λ es. HasString ((load env es start).defs s) (symbols s).item.str)
                      (sym around.2)
                      (load_recovers env s around.0 around.1 (symbols s).item start found
                        (reset_def_type env s (st.defs s) ∙ t) c v around.3 around.4)),
              )
        ]
      ],
    )
