-- ===== src/Kconfig/Calc/Number.antt =====
-- support/kconfig/symbol.c: the values of string, int and hex symbols, and their ranges.
pub mod Laws
use cargos_buildroot.Base.{
  ℕ, Bool, true, false, ◌&&◌, ◌||◌, not, Option, none, some, List, [], ◌∷◌, ◌++◌, Text, bytes,
  text_eq, if◌then◌else◌, ◌==◌, ℤ, leb_ℤ,
}
use cargos_buildroot.Kconfig.Symbol.{
  SymbolType, s_unknown, s_boolean, s_tristate, s_int, s_hex, s_string, s_other, Tristate, tri_no,
  tri_mod, tri_yes, Symbol, Store, type_of,
}
use cargos_buildroot.Kconfig.Expr.{Expr, expr_calc_value}
use cargos_buildroot.Kconfig.Strings.{sym_string_valid}
use cargos_buildroot.Kconfig.Range.{Conditions, Limits, sym_tristate_within_range}
use cargos_buildroot.Kconfig.Calc.{
  Property, UserValue, Assignment, sym_get_default_prop, sym_set_tristate_value,
}
use cargos_buildroot.Kconfig.Calc.Choice.{prop_get_symbol}

-- What the functions below ask of libc: `strtoll` to a base, and the formats %lld and 0x%llx.
pub record Numbers : Type 0 where
  pub strtoll : Text → ℕ → ℤ
  pub print_decimal : ℤ → Text
  pub print_hex : ℤ → Text

-- A property of the type P_RANGE, with its condition and the two symbols of its expression.
pub record RangeProperty : Type 0 where
  pub visible : Option Expr
  pub low : Symbol
  pub high : Symbol

unfoldable pub sym_get_range_prop : Store → List RangeProperty → Option RangeProperty
unfolding expr_calc_value
sym_get_range_prop st [] = none
sym_get_range_prop st (p ∷ props) =
    let rest = sym_get_range_prop st props in
    if expr_calc_value st p.visible == tri_no then rest else some p

abbrev pub base_or : ℕ → SymbolType → ℕ
base_or base s_int = 10
base_or base s_hex = 16
base_or base _ = base

unfoldable pub sym_get_range_val : Numbers → Store → Symbol → ℕ → ℤ
sym_get_range_val n st s base =
    n.strtoll (bytes (st.symbols s).curr_val) (base_or base (type_of st s))

abbrev pub print_as : Numbers → SymbolType → ℤ → Text
print_as n s_int v = n.print_decimal v
print_as n _ v = n.print_hex v

-- The body of `sym_validate_range` for a range and a base: the value so far, or the end of the range.
unfoldable pub clamp : Numbers → SymbolType → ℕ → ℤ → ℤ → Text → Text
clamp n type base low high val =
    let v = n.strtoll val base in
    if leb_ℤ low v
    then (if leb_ℤ v high then val else print_as n type high)
    else print_as n type low

unfoldable pub clamp_to : Numbers → Store → SymbolType → ℕ → Option RangeProperty → Text → Text
unfolding clamp sym_get_range_val
clamp_to n st type base none val = val
clamp_to n st type base (some r) val =
    clamp n type base (sym_get_range_val n st r.low base) (sym_get_range_val n st r.high base) val

unfoldable pub sym_validate_range : Numbers → Store → SymbolType → List RangeProperty → Text → Text
unfolding clamp_to sym_get_range_prop
sym_validate_range n st s_int props val = clamp_to n st s_int 10 (sym_get_range_prop st props) val
sym_validate_range n st s_hex props val = clamp_to n st s_hex 16 (sym_get_range_prop st props) val
sym_validate_range n st _ props val = val

unfoldable pub within : Numbers → Store → ℕ → Option RangeProperty → Text → Bool
unfolding sym_get_range_val
within n st base none str = true
within n st base (some r) str =
    leb_ℤ (sym_get_range_val n st r.low base) (n.strtoll str base)
    && leb_ℤ (n.strtoll str base) (sym_get_range_val n st r.high base)

-- The tristate value that a string stands for by its first byte.
unfoldable pub tristate_of : Text → Option Tristate
tristate_of [] = none
tristate_of (c ∷ str) =
    if c == b'y' || c == b'Y'
    then some tri_yes
    else if c == b'm' || c == b'M'
    then some tri_mod
    else if c == b'n' || c == b'N'
    then some tri_no
    else none

abbrev pub letter_within : Conditions → Limits → Tristate → Option Tristate → Bool
letter_within c l modules_val none = false
letter_within c l modules_val (some val) = sym_tristate_within_range c l modules_val val

unfoldable pub within_type :
    Numbers → Store → SymbolType → Conditions → Limits → Tristate → List RangeProperty → Text → Bool
unfolding sym_string_valid within sym_get_range_prop tristate_of
within_type n st s_string c l modules_val props str = sym_string_valid s_string str
within_type n st s_int c l modules_val props str =
    sym_string_valid s_int str && within n st 10 (sym_get_range_prop st props) str
within_type n st s_hex c l modules_val props str =
    sym_string_valid s_hex str && within n st 16 (sym_get_range_prop st props) str
within_type n st s_boolean c l modules_val props str =
    letter_within c l modules_val (tristate_of str)
within_type n st s_tristate c l modules_val props str =
    letter_within c l modules_val (tristate_of str)
within_type n st s_unknown c l modules_val props str = false
within_type n st s_other c l modules_val props str = false

unfoldable pub sym_string_within_range :
    Numbers → Store → Conditions → Limits → Tristate → List RangeProperty → Text → Bool
unfolding within_type
sym_string_within_range n st c = within_type n st c.type c

-- The test on the first two bytes of a hex value.
unfoldable pub has_prefix : Text → Bool
has_prefix (a ∷ b ∷ s) = a == 48 && (b == 120 || b == 88)
has_prefix _ = false

-- The string that is stored: a hex value gets its prefix.
unfoldable pub stored : SymbolType → Text → Text
unfolding has_prefix
stored s_hex newval = if has_prefix newval then newval else bytes "0x" ++ newval
stored _ newval = newval

-- What `sym_set_string_value` does: false; true with nothing to store; true with a new string, after which
-- `sym_clear_all_valid` is called; or what `sym_set_tristate_value` does.
pub data StringSet : Type 0 where
  refused unchanged : StringSet
  set_text : Text → StringSet
  set_tri : Assignment → StringSet

abbrev pub of_assignment : Option Assignment → StringSet
of_assignment none = refused
of_assignment (some a) = set_tri a

abbrev pub is_old : Option Text → Text → Bool
is_old none newval = false
is_old (some oldval) newval = text_eq oldval newval

-- The part behind the range test. A hex value without prefix is stored anew each time.
unfoldable pub store_string : SymbolType → Option Text → Text → StringSet
unfolding stored has_prefix text_eq
store_string s_hex oldval newval =
    if not (has_prefix newval)
    then set_text (stored s_hex newval)
    else if is_old oldval newval
    then unchanged
    else set_text newval
store_string type oldval newval = if is_old oldval newval then unchanged else set_text newval

abbrev pub is_logical : SymbolType → Bool
is_logical s_boolean = true
is_logical s_tristate = true
is_logical _ = false

abbrev pub set_letter : Conditions → Limits → Tristate → Tristate → Option Tristate → StringSet
set_letter c l modules_val oldtri none = refused
set_letter c l modules_val oldtri (some val) =
    of_assignment (sym_set_tristate_value c l modules_val oldtri val)

unfoldable pub sym_set_string_value :
    Numbers
    → Store
    → Conditions
    → Limits
    → Tristate
    → List RangeProperty
    → Tristate
    → Option Text
    → Text
    → StringSet
unfolding sym_string_within_range store_string tristate_of
sym_set_string_value n st c l modules_val props oldtri oldval newval =
    if is_logical c.type
    then set_letter c l modules_val oldtri (tristate_of newval)
    else if sym_string_within_range n st c l modules_val props newval
    then store_string c.type oldval newval
    else refused

-- The value of the symbol that a default names, with its string.
unfoldable pub default_string : Store → Option (Property × Tristate) → Text
unfolding prop_get_symbol
default_string st none = []
default_string st (some (p, tri)) = elim (prop_get_symbol p.expr) [
  | none ↦ []
  | some ds ↦ bytes (st.symbols ds).curr_val
]

-- The cases S_STRING, S_HEX and S_INT of `sym_calc_value`; `user` is `def[S_DEF_USER].val`, or `none` without
-- the flag SYMBOL_DEF_USER.
unfoldable pub calc_string : Store → Tristate → List Property → Option Text → Text
unfolding default_string sym_get_default_prop
calc_string st visible props none = default_string st (sym_get_default_prop st props)
calc_string st visible props (some user) =
    if visible == tri_no then default_string st (sym_get_default_prop st props) else user
