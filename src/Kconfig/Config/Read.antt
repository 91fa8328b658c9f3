-- ===== src/Kconfig/Config/Read.antt =====
-- support/kconfig/confdata.c: `conf_read_simple` for the user's configuration (S_DEF_USER), once the file is
-- open: what its lines do to the symbols.
pub mod Laws
use cargos_buildroot.Base.{
  ℕ, zero, suc, ◌+◌, Bool, true, false, ◌&&◌, ◌||◌, not, Option, none, some, List, [], ◌∷◌, Text,
  length, if◌then◌else◌, ◌==◌,
}
use cargos_buildroot.Kconfig.Symbol.{
  SymbolType, s_unknown, s_boolean, s_tristate, s_int, s_hex, s_string, s_other, Tristate, tri_no,
  tri_mod, tri_yes, expr_or, Symbol,
}
use cargos_buildroot.Kconfig.Strings.{
  Assigned, tri_value, text_value, ignored, rejected, conf_set_sym_val,
}
use cargos_buildroot.Kconfig.Calc.Number.{is_logical}
use cargos_buildroot.Kconfig.Config.Line.{
  Line, compat_getline, Statement, unset, assigns, nothing, unexpected, line_says,
}

-- `def[S_DEF_USER]` of a symbol: its `tri`, and its `val`, which is a string or, for a choice, a symbol; the
-- flag SYMBOL_DEF_USER; and the type of the symbol.
pub record Def : Type 0 where
  pub type : SymbolType
  pub tri : Tristate
  pub val : Option Text
  pub chosen : Option Symbol
  pub has_value : Bool

-- The symbols, the number of calls of `sym_add_change_count`, and the number of warnings.
pub record Configuration : Type 0 where
  pub defs : Symbol → Def
  pub changes : ℕ
  pub warnings : ℕ

-- What the reader asks of the symbol table: `sym_find`; the choice that a symbol is a value of; whether a symbol is a
-- choice; and whether `for_all_symbols` comes by it, which needs a name and not the type S_OTHER.
pub record Symbols : Type 0 where
  pub sym_find : Text → Option Symbol
  pub choice_of : Symbol → Option Symbol
  pub is_choice : Symbol → Bool
  pub is_listed : Symbol → Bool

-- The loop that resets the symbols before the file is read.
unfoldable pub reset_def : Symbols → Symbol → Def → Def
reset_def env s d =
    if env.is_listed s
    then record d { tri = tri_no; val = none; chosen = none; has_value = env.is_choice s }
    else d

abbrev pub update : Symbol → Def → (Symbol → Def) → Symbol → Def
update s d defs t = if t == s then d else defs t

abbrev pub warn : Configuration → Configuration
warn st = record st { warnings = suc st.warnings }

abbrev pub warn_if : Bool → Configuration → Configuration
warn_if true st = warn st
warn_if false st = st

-- A symbol that is set not to be set; a symbol of another type stays as it is.
unfoldable pub unset_def : Def → Def
unset_def d = if is_logical d.type then record d { tri = tri_no; has_value = true } else d

-- What `conf_set_sym_val` leaves, by its result.
unfoldable pub assigned_def : Assigned → Def → Def
assigned_def (tri_value tri) d = record d { tri = tri; has_value = true }
assigned_def (text_value type v) d = record d { type = type; val = some v; has_value = true }
assigned_def ignored d = d
assigned_def rejected d = d

abbrev pub is_rejected : Assigned → Bool
is_rejected rejected = true
is_rejected _ = false

-- At the label `setsym`, for the value `s` with `tri` of the choice behind `d`.
unfoldable pub choice_def : Symbol → Tristate → Def → Def
choice_def s tri d =
    let d' =
      if tri == tri_mod
      then record d { has_value = d.has_value && not (d.tri == tri_yes) }
      else if tri == tri_yes
      then record d { chosen = some s }
      else d in
    record d' { tri = expr_or d.tri tri }

-- A warning about the state of the choice.
unfoldable pub choice_warns : Tristate → Def → Bool
choice_warns tri d =
    if tri == tri_mod then d.tri == tri_yes else tri == tri_yes && not (d.tri == tri_no)

abbrev pub set_choice : Symbol → Option Symbol → Configuration → Configuration
unfolding choice_warns choice_def
set_choice s none st = st
set_choice s (some cs) st =
    let tri = (st.defs s).tri in
    let d = st.defs cs in
    warn_if (choice_warns tri d) (record st { defs = update cs (choice_def s tri d) st.defs })

abbrev pub put_def : Symbol → Def → Configuration → Configuration
put_def s d st = record st { defs = update s d st.defs }

-- A symbol that is not known only counts as a change.
unfoldable pub set_unset : Symbols → Option Symbol → Configuration → Configuration
unfolding unset_def
set_unset env none st = record st { changes = suc st.changes }
set_unset env (some s) st =
    let d = st.defs s in
    set_choice s (env.choice_of s) (warn_if d.has_value (put_def s (unset_def d) st))

unfoldable pub set_value : Symbols → Text → Option Symbol → Configuration → Configuration
unfolding assigned_def
set_value env p none st = record st { changes = suc st.changes }
set_value env p (some s) st =
    let d = st.defs s in
    let result = conf_set_sym_val d.type p in
    let st' = warn_if d.has_value st in
    let kept = set_choice s (env.choice_of s) (put_def s (assigned_def result d) st') in
    if is_rejected result then warn st' else kept

unfoldable pub read_statement : Symbols → Statement → Configuration → Configuration
unfolding set_unset set_value
read_statement env (unset name) st = set_unset env (env.sym_find name) st
read_statement env (assigns name p) st = set_value env p (env.sym_find name) st
read_statement env nothing st = st
read_statement env unexpected st = warn st

-- The loop over the lines; `fuel` bounds their number, and `size` is the size of the buffer.
unfoldable pub read_file :
    Symbols → (ℕ → Bool) → Text → ℕ → ℕ → Text → Configuration → Configuration
unfolding read_statement
read_file env realloc prefix zero size file st = st
read_file env realloc prefix (suc fuel) size file st = elim (compat_getline realloc size file) [
  | none ↦ st
  | some l ↦
      read_file env realloc prefix fuel l.size l.rest
        (read_statement env (line_says prefix l.text) st)
]

-- `conf_read_simple` from the label `load` on, up to the value of `modules_sym`.
unfoldable pub conf_read_simple : Symbols → (ℕ → Bool) → Text → Text → Configuration → Configuration
unfolding read_file reset_def
conf_read_simple env realloc prefix file st =
    read_file env realloc prefix (suc (length file)) 0 file
      (record st { defs = λ s. reset_def env s (st.defs s); warnings = 0 })
