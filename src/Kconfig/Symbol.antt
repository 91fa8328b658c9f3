-- ===== src/Kconfig/Symbol.antt =====
-- support/kconfig/expr.h and symbol.c: symbols, their values, and the three-valued logic.
use cargos_buildroot.Base.{ℕ, zero, suc, ◌-◌, Bool, Option, String, if◌then◌else◌, ltb, ◌==◌}
pub mod Coherence

-- `enum tristate`: no, mod, yes are the integers 0, 1, 2.
abbrev pub Tristate : Type 0
Tristate = ℕ

abbrev pub tri_no : Tristate
tri_no = 0

abbrev pub tri_mod : Tristate
tri_mod = 1

abbrev pub tri_yes : Tristate
tri_yes = 2

-- The macros EXPR_OR, EXPR_AND and EXPR_NOT, with C's comparisons.
abbrev pub expr_or : Tristate → Tristate → Tristate
expr_or dep1 dep2 = if ltb dep2 dep1 then dep1 else dep2

abbrev pub expr_and : Tristate → Tristate → Tristate
expr_and dep1 dep2 = if ltb dep1 dep2 then dep1 else dep2

abbrev pub expr_not : Tristate → Tristate
expr_not dep = 2 - dep

pub data SymbolType : Type 0 where
  s_unknown s_boolean s_tristate s_int s_hex s_string s_other : SymbolType

-- A `struct symbol *`, as an address. The constants of symbol.c stand at fixed addresses.
abbrev pub Symbol : Type 0
Symbol = ℕ

abbrev pub symbol_no : Symbol
symbol_no = 0

abbrev pub symbol_mod : Symbol
symbol_mod = 1

abbrev pub symbol_yes : Symbol
symbol_yes = 2

-- The fields of a `struct symbol` that expressions read. `curr_val` and `curr_tri` are `curr.val`
-- and `curr.tri` after `sym_calc_value`; `is_const` is the flag SYMBOL_CONST.
pub record SymbolData : Type 0 where
  pub name : Option String
  pub type : SymbolType
  pub curr_val : String
  pub curr_tri : Tristate
  pub is_const : Bool

-- The symbols behind the addresses, and the symbol that `modules_sym` points to.
pub record Store : Type 0 where
  pub symbols : Symbol → SymbolData
  pub modules_sym : Symbol

abbrev pub type_of : Store → Symbol → SymbolType
type_of st s = (st.symbols s).type

unfoldable pub sym_get_tristate_value : Store → Symbol → Tristate
sym_get_tristate_value st s = (st.symbols s).curr_tri

-- The string of a boolean or tristate value.
unfoldable pub tristate_string : Tristate → Tristate → String → String
tristate_string modules zero other = "n"
tristate_string modules (suc zero) other = if modules == tri_no then "n" else "m"
tristate_string modules (suc (suc zero)) other = "y"
tristate_string modules (suc (suc (suc _))) other = other

unfoldable pub string_value : SymbolType → Tristate → Tristate → String → String
unfolding tristate_string
string_value s_boolean modules tri other = tristate_string modules tri other
string_value s_tristate modules tri other = tristate_string modules tri other
string_value _ modules tri other = other

unfoldable pub sym_get_string_value : Store → Symbol → String
unfolding string_value sym_get_tristate_value
sym_get_string_value st s =
    string_value (type_of st s) (st.symbols st.modules_sym).curr_tri (sym_get_tristate_value st s)
      (st.symbols s).curr_val
