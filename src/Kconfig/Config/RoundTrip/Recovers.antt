-- ===== src/Kconfig/Config/RoundTrip/Recovers.antt =====
-- support/kconfig/confdata.c: `conf_read_simple` on the text of `conf_write`.
use cargos_buildroot.Base.{
  ℕ, suc, ◌≡◌, refl, ap, sym, ◌∙◌, subst, Bool, true, false, some, List, [], ◌∷◌, ◌++◌, Text,
  length, arith, Bool-cases, inl, inr,
}
use cargos_buildroot.Kconfig.Symbol.{SymbolType, Symbol}
use cargos_buildroot.Kconfig.Strings.{conf_set_sym_val, all_bytes}
use cargos_buildroot.Kconfig.Config.Line.Laws.{Grows, in_name}
use cargos_buildroot.Kconfig.Config.Read.{
  Def, Configuration, Symbols, read_statement, set_unset, set_value, unset_def, assigned_def,
  is_rejected, warn_if, put_def, conf_read_simple, reset_def,
}
use cargos_buildroot.Kconfig.Config.Read.Laws.{
  Spares, read_statement-Spares, is_symbol_of, update_self, set_choice_spares, warn_if_keeps,
}
use cargos_buildroot.Kconfig.Config.Write.{Item, MenuEntry, option, write_entries, conf_write}
use cargos_buildroot.Kconfig.Config.RoundTrip.Values.{
  HasString, is_value, written, says_no, def_after, value-Stores, Stores,
}
use cargos_buildroot.Kconfig.Config.RoundTrip.Heading.{IsTitle, Reads-heading}
use cargos_buildroot.Kconfig.Config.RoundTrip.Files.{item_says}
use cargos_buildroot.Kconfig.Config.RoundTrip.Reads.{AllWritten, entry_says, load, Reads-entries}

module _ (env : Symbols) (s : Symbol) where
  -- No entry that is written is about the symbol.
  abbrev pub AllSpare : List MenuEntry → Type 0
  AllSpare [] = Unit {0}
  AllSpare (e ∷ entries) = Spares env s (entry_says e) × AllSpare entries

  pub load_spares :
      (entries : List MenuEntry) (st : Configuration)
      → AllSpare entries
      → (load env entries st).defs s ≡ st.defs s
  load_spares [] st h = refl
  load_spares (e ∷ entries) st h =
      load_spares entries (read_statement env (entry_says e) st) h.1
      ∙ read_statement-Spares env s (entry_says e) st h.0

  unset_stores :
      (st : Configuration)
      → is_symbol_of s (env.choice_of s) ≡ false
      → (set_unset env (some s) st).defs s ≡ unset_def (st.defs s)
  unfolding set_unset
  unset_stores st c =
      let d = unset_def (st.defs s) in
      let b = (st.defs s).has_value in
      set_choice_spares s s (env.choice_of s) (warn_if b (put_def s d st)) c
      ∙ (warn_if_keeps b (put_def s d st) s ∙ update_self s d st.defs)

  value_stored :
      (st : Configuration) (p : Text)
      → is_symbol_of s (env.choice_of s) ≡ false
      → is_rejected (conf_set_sym_val (st.defs s).type p) ≡ false
      → (set_value env p (some s) st).defs s
        ≡ assigned_def (conf_set_sym_val (st.defs s).type p) (st.defs s)
  unfolding set_value
  value_stored st p c r =
      let d = assigned_def (conf_set_sym_val (st.defs s).type p) (st.defs s) in
      let st' = warn_if (st.defs s).has_value st in
      rw r (set_choice_spares s s (env.choice_of s) (put_def s d st') c ∙ update_self s d st'.defs)

  value_stored_at :
      (st : Configuration) (type : SymbolType) (p : Text)
      → (st.defs s).type ≡ type
      → is_symbol_of s (env.choice_of s) ≡ false
      → is_rejected (conf_set_sym_val type p) ≡ false
      → (set_value env p (some s) st).defs s ≡ assigned_def (conf_set_sym_val type p) (st.defs s)
  value_stored_at st type p t c =
      subst
        (λ u.
          is_rejected (conf_set_sym_val u p) ≡ false
          → (set_value env p (some s) st).defs s ≡ assigned_def (conf_set_sym_val u p) (st.defs s))
        t (value_stored st p c)

  statement-Stores :
      (i : Item) (st : Configuration)
      → env.sym_find i.name ≡ some s
      → (st.defs s).type ≡ i.type
      → is_symbol_of s (env.choice_of s) ≡ false
      → Stores i.type i.str (st.defs s)
      → (read_statement env (item_says i) st).defs s ≡ def_after i.type i.str (st.defs s)
  unfolding read_statement
  statement-Stores i st f t c h = elim (Bool-cases (says_no i.type i.str)) [
    | inl e ↦ rw (e, f) (unset_stores st c)
    | inr e ↦
        rw (e, f) (value_stored_at st i.type (written i.type i.str) t c (ground (arith, e, h.0)))
  ]

load-append :
    (env : Symbols) (xs : List MenuEntry) (e : MenuEntry) (ys : List MenuEntry) (st : Configuration)
    → load env (xs ++ (e ∷ ys)) st
      ≡ load env ys (read_statement env (entry_says e) (load env xs st))
load-append env [] e ys st = refl
load-append env (x ∷ xs) e ys st = load-append env xs e ys (read_statement env (entry_says x) st)

pub reset_def_type : (env : Symbols) (s : Symbol) (d : Def) → (reset_def env s d).type ≡ d.type
unfolding reset_def
reset_def_type env s d = elim (Bool-cases (env.is_listed s)) [
  | inl e ↦ rw e refl
  | inr e ↦ rw e refl
]

-- After the statements of a file in which one entry is about the symbol, it has the string of the entry.
pub load_recovers :
    (env : Symbols) (s : Symbol) (xs ys : List MenuEntry) (i : Item) (st : Configuration)
    → env.sym_find i.name ≡ some s
    → (st.defs s).type ≡ i.type
    → is_symbol_of s (env.choice_of s) ≡ false
    → is_value i.type i.str ≡ true
    → AllSpare env s xs
    → AllSpare env s ys
    → HasString ((load env (xs ++ (option true i ∷ ys)) st).defs s) i.str
load_recovers env s xs ys i st f t c v h k =
    let before = load env xs st in
    let kept = load_spares env s xs st h in
    let found = ap (λ d. d.type) kept ∙ t in
    let stores = value-Stores i.type i.str (before.defs s) found v in
    let after =
      ap (λ st'. st'.defs s) (load-append env xs (option true i) ys st)
      ∙ (load_spares env s ys (read_statement env (item_says i) before) k
          ∙ statement-Stores env s i before f found c stores) in
    subst (λ d. HasString d i.str) (sym after) (stores.1, stores.2)

-- Of the entries that conf_write meets, let one be about a symbol, which `sym_find` gives for its name and whose type
-- the value fits, and the others neither about it nor about a value of it as a choice. Let the names, the prefix and
-- the values have no byte that a line cannot have, the title fit into its buffer, no line of the heading and no menu
-- comment read like a statement, and `realloc` not fail. Then reading what was written gives the symbol the
-- string it was written with.
pub conf_read_simple-conf_write :
    (env : Symbols) (realloc : ℕ → Bool) (prefix title : Text) (st : Configuration) (s : Symbol)
    (xs ys : List MenuEntry) (i : Item)
    → Grows realloc
    → all_bytes in_name prefix ≡ true
    → IsTitle prefix title
    → AllWritten prefix (xs ++ (option true i ∷ ys))
    → env.sym_find i.name ≡ some s
    → (st.defs s).type ≡ i.type
    → is_symbol_of s (env.choice_of s) ≡ false
    → is_value i.type i.str ≡ true
    → AllSpare env s xs
    → AllSpare env s ys
    → HasString
        ((conf_read_simple env realloc prefix
            (conf_write prefix title (xs ++ (option true i ∷ ys)))
            st).defs
          s)
        i.str
unfolding conf_read_simple conf_write
conf_read_simple-conf_write env realloc prefix title st s xs ys i g p w a f t c v h k =
    let entries = xs ++ (option true i ∷ ys) in
    let start = record st { defs = λ u. reset_def env u (st.defs u); warnings = 0 } in
    let reads =
      Reads-heading env realloc g prefix p title (write_entries prefix entries) start
        (load env entries start) w (Reads-entries env realloc g prefix p entries start a) in
    subst (λ st'. HasString (st'.defs s) i.str)
      (sym (reads (suc (length (conf_write prefix title entries))) 0 (omega arith)))
      (load_recovers env s xs ys i start f (reset_def_type env s (st.defs s) ∙ t) c v h k)
