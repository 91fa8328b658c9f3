-- ===== src/Toolchain/Main.antt =====
-- toolchain/toolchain-wrapper.c: `main`, from the first call of `getenv` to `execv`.
pub mod Laws
use cargos_buildroot.Base.{
  ℕ, suc, ◌+◌, ◌*◌, Bool, true, false, ◌&&◌, Option, none, some, List, [], ◌∷◌, ◌++◌, Text, bytes,
  length, drop, if◌then◌else◌, ◌==◌, ltb,
}
use cargos_buildroot.Toolchain.Config.{Config}
use cargos_buildroot.Toolchain.Unsafe.{Message, Report, check_args}
use cargos_buildroot.Toolchain.Arguments.{
  World, base_of, overflows, predef_args, exclusive_args, build_args, flag,
}

-- How the wrapper ends: with an exit status, or as the program that `execv` starts.
pub data Outcome : Type 0 where
  exits : ℕ → Outcome
  executes : List Text → Outcome

-- What BR2_DEBUG_WRAPPER makes the wrapper print: the entries, each on a line of its own or not.
pub record Trace : Type 0 where
  pub own_lines : Bool
  pub entries : List Text

-- A run: what is printed about unsafe paths, the trace, the variables that `setenv` was called
-- for (which do not replace one that is there), and the end.
pub record Run : Type 0 where
  pub messages : List Message
  pub trace : Option Trace
  pub variables : List (Text × Text)
  pub outcome : Outcome

abbrev pub failed : ℕ → Run
failed status = record { messages = []; trace = none; variables = []; outcome = exits status }

abbrev pub is_set : Option Text → Bool
is_set none = false
is_set (some v) = true

abbrev pub non_empty : Option Text → Bool
non_empty none = false
non_empty (some []) = false
non_empty (some (c ∷ v)) = true

unfoldable pub is_paranoid : World → Bool
is_paranoid w = non_empty (w.getenv (bytes "BR_COMPILER_PARANOID_UNSAFE_PATH"))

-- The first argument is the path of ccache only if the wrapper is built with it.
unfoldable pub exec_args : Config → World → List Text → List Text
exec_args c w args =
    if c.ccache && is_set (w.getenv (bytes "BR_NO_CCACHE")) then drop 1 args else args

abbrev pub variable : Text → Text → Option Text → List (Text × Text)
variable name prefix none = []
variable name prefix (some v) = (name, prefix ++ v) ∷ []

-- The variables that the wrapper sets, in this order.
unfoldable pub variables_of : Config → List (Text × Text)
variables_of c =
    variable (bytes "CCACHE_COMPILERCHECK") (bytes "string:") c.ccache_hash
    ++ variable (bytes "CCACHE_BASEDIR") [] c.ccache_basedir

abbrev pub quoted : List (Text × Text) → List Text
quoted [] = []
quoted ((name, v) ∷ vs) = (name ++ (bytes "='" ++ (v ++ bytes "'"))) ∷ quoted vs

abbrev pub quoted_args : List Text → List Text
quoted_args [] = []
quoted_args (a ∷ rest) = (bytes "'" ++ (a ++ bytes "'")) ∷ quoted_args rest

abbrev pub trace_at : ℕ → Config → List Text → Option Trace
unfolding variables_of
trace_at debug c args =
    if ltb 0 debug
    then some
        (record { own_lines = debug == 2; entries = quoted (variables_of c) ++ quoted_args args })
    else none

unfoldable pub trace_of : Config → World → List Text → Option Trace
unfolding variables_of
trace_of c w args = elim (w.getenv (bytes "BR2_DEBUG_WRAPPER")) [
  | none ↦ none
  | some v ↦ trace_at (w.atoi v) c args
]

-- The calls of `setenv`; one that fails ends the program with status 3.
unfoldable pub set_variables : World → List (Text × Text) → Run → Run
set_variables w [] run = run
set_variables w ((name, v) ∷ vs) run =
    let next = set_variables w vs (record run { variables = run.variables ++ ((name, v) ∷ []) }) in
    if w.can_setenv name then next else record run { outcome = exits 3 }

-- `execv`, which returns only if it fails. The argument list is never empty.
abbrev pub execute : World → List Text → Outcome
execute w [] = exits 2
execute w (a ∷ rest) = if w.can_exec a (a ∷ rest) then executes (a ∷ rest) else exits 2

unfoldable pub launch : Config → World → Report → List Text → Run
launch c w r args =
    let to_run = exec_args c w args in
    set_variables w (variables_of c) (record {
      messages = r.messages;
      trace = trace_of c w to_run;
      variables = [];
      outcome = execute w to_run;
    })

unfoldable pub after_check : Config → World → Report → List Text → Run
after_check c w r args =
    if r.stopped
    then record { messages = r.messages; trace = none; variables = []; outcome = exits 1 }
    else launch c w r args

-- The bytes of the buffer: a pointer has 8.
abbrev pub args_size : Config → Text → Text → List Text → ℕ
args_size c dir base argv =
    8 * length (predef_args c dir base) + 8 * (suc (length argv) + exclusive_args)

-- What follows once the directory and the name are known.
unfoldable pub start : Config → World → Text → Text → List Text → Run
start c w dir base argv =
    if overflows c dir base
    then failed 3
    else if w.can_allocate (args_size c dir base argv)
    then after_check c w (check_args (is_paranoid w) argv) (build_args c dir base argv)
    else failed 2

unfoldable pub start_at : Config → World → Option (Text × Text) → List Text → Run
start_at c w none argv = failed 2
start_at c w (some (dir, base)) argv = start c w dir base argv

unfoldable pub main : Config → World → Text → List Text → Run
main c w progpath = start_at c w (base_of w progpath)
