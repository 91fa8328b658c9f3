-- ===== src/Kconfig/Config/Read/Laws.antt =====
-- support/kconfig/confdata.c: what reading a statement changes, and the file as its lines.
use cargos_buildroot.Base.{
  ◌≡◌, refl, ◌∙◌, Bool, true, false, Option, none, some, Text, ◌==◌, arith, Bool-cases, inl, inr,
}
use cargos_buildroot.Kconfig.Symbol.{Symbol}
use cargos_buildroot.Kconfig.Strings.{conf_set_sym_val}
use cargos_buildroot.Kconfig.Config.Line.{Statement, unset, assigns, nothing, unexpected}
use cargos_buildroot.Kconfig.Config.Read.{
  Def, Configuration, Symbols, update, warn_if, unset_def, assigned_def, is_rejected, choice_def,
  choice_warns, set_choice, put_def, set_unset, set_value, read_statement,
}

-- The symbol of a statement.
abbrev pub named : Symbols → Statement → Option Symbol
named env (unset name) = env.sym_find name
named env (assigns name p) = env.sym_find name
named env nothing = none
named env unexpected = none

abbrev pub is_symbol_of : Symbol → Option Symbol → Bool
is_symbol_of s none = false
is_symbol_of s (some t) = t == s

abbrev pub bind_choice : Symbols → Option Symbol → Option Symbol
bind_choice env none = none
bind_choice env (some s) = env.choice_of s

-- Neither the symbol that the statement names nor the choice that this is a value of.
abbrev pub Spares : Symbols → Symbol → Statement → Type 0
Spares env s x =
    (is_symbol_of s (named env x) ≡ false)
    × (is_symbol_of s (bind_choice env (named env x)) ≡ false)

pub warn_if_keeps : (b : Bool) (st : Configuration) (s : Symbol) → (warn_if b st).defs s ≡ st.defs s
warn_if_keeps true st s = refl
warn_if_keeps false st s = refl

update_other :
    (s t : Symbol) (d : Def) (defs : Symbol → Def) → (s == t) ≡ false → update t d defs s ≡ defs s
update_other s t d defs h = rw h refl

pub update_self : (s : Symbol) (d : Def) (defs : Symbol → Def) → update s d defs s ≡ d
update_self s d defs = let same : (s == s) ≡ true = ground arith in rw same refl

pub set_choice_spares :
    (s t : Symbol) (o : Option Symbol) (st : Configuration)
    → is_symbol_of s o ≡ false
    → (set_choice t o st).defs s ≡ st.defs s
unfolding choice_def choice_warns
set_choice_spares s t none st h = refl
set_choice_spares s t (some cs) st h =
    let tri = (st.defs t).tri in
    let d = choice_def t tri (st.defs cs) in
    warn_if_keeps (choice_warns tri (st.defs cs)) (put_def cs d st) s
    ∙ update_other s cs d st.defs (ground arith)

set_unset_spares :
    (env : Symbols) (s : Symbol) (o : Option Symbol) (st : Configuration)
    → is_symbol_of s o ≡ false
    → is_symbol_of s (bind_choice env o) ≡ false
    → (set_unset env o st).defs s ≡ st.defs s
unfolding set_unset
set_unset_spares env s none st h k = refl
set_unset_spares env s (some t) st h k =
    let d = unset_def (st.defs t) in
    let st' = warn_if (st.defs t).has_value (put_def t d st) in
    set_choice_spares s t (env.choice_of t) st' k
    ∙ (warn_if_keeps (st.defs t).has_value (put_def t d st) s
        ∙ update_other s t d st.defs (ground arith))

set_value_spares :
    (env : Symbols) (s : Symbol) (p : Text) (o : Option Symbol) (st : Configuration)
    → is_symbol_of s o ≡ false
    → is_symbol_of s (bind_choice env o) ≡ false
    → (set_value env p o st).defs s ≡ st.defs s
unfolding set_value
set_value_spares env s p none st h k = refl
set_value_spares env s p (some t) st h k =
    let result = conf_set_sym_val (st.defs t).type p in
    let d = assigned_def result (st.defs t) in
    let st' = warn_if (st.defs t).has_value st in
    let warned = warn_if_keeps (st.defs t).has_value st s in
    elim (Bool-cases (is_rejected result)) [
      | inl e ↦ rw e warned
      | inr e ↦ rw e (
          set_choice_spares s t (env.choice_of t) (put_def t d st') k
          ∙ (update_other s t d st'.defs (ground arith) ∙ warned))
    ]

-- A statement leaves the symbols alone that it spares.
pub read_statement-Spares :
    (env : Symbols) (s : Symbol) (x : Statement) (st : Configuration)
    → Spares env s x
    → (read_statement env x st).defs s ≡ st.defs s
unfolding read_statement
read_statement-Spares env s (unset name) st h =
    set_unset_spares env s (env.sym_find name) st h.0 h.1
read_statement-Spares env s (assigns name p) st h =
    set_value_spares env s p (env.sym_find name) st h.0 h.1
read_statement-Spares env s nothing st h = refl
read_statement-Spares env s unexpected st h = refl
