-- ===== src/Kconfig/Menu/Deps.antt =====
-- support/kconfig/menu.c: what the parser puts into menus and symbols. `modules_sym` is a symbol here: where no
-- `option modules` was read yet, the source makes a node without a symbol for `m`.
pub mod Laws
use cargos_buildroot.Base.{
  ℕ, zero, suc, ◌+◌, Bool, true, false, ◌&&◌, ◌||◌, not, Option, none, some, List, [], ◌∷◌, ◌++◌,
  Text, if◌then◌else◌, ltb, ◌==◌,
}
use cargos_buildroot.Kconfig.Symbol.{
  Symbol, symbol_mod, SymbolType, s_unknown, s_boolean, s_tristate, s_int, s_hex, s_string, s_other,
}
use cargos_buildroot.Kconfig.Strings.{sym_string_valid}
use cargos_buildroot.Kconfig.Expr.{
  Expr, e_symbol, e_not, e_equal, e_unequal, e_or, e_and, expr_alloc_and,
}
use cargos_buildroot.Kconfig.Menu.{Links, rootmenu}

-- It changes `m` into `m && MODULES`.
unfoldable pub menu_check_dep : Symbol → Expr → Expr
menu_check_dep modules_sym (e_symbol s) =
    if s == symbol_mod then e_and (e_symbol s) (e_symbol modules_sym) else e_symbol s
menu_check_dep modules_sym (e_not e) = e_not (menu_check_dep modules_sym e)
menu_check_dep modules_sym (e_or l r) =
    e_or (menu_check_dep modules_sym l) (menu_check_dep modules_sym r)
menu_check_dep modules_sym (e_and l r) =
    e_and (menu_check_dep modules_sym l) (menu_check_dep modules_sym r)
menu_check_dep modules_sym (e_equal a b) = e_equal a b
menu_check_dep modules_sym (e_unequal a b) = e_unequal a b

-- The same for a pointer.
unfoldable pub check_dep : Symbol → Option Expr → Option Expr
check_dep modules_sym none = none
check_dep modules_sym (some e) = some (menu_check_dep modules_sym e)

pub data PropType : Type 0 where
  p_prompt p_comment p_menu p_default p_choice p_select p_range p_env p_symbol : PropType

-- The `expr` of a property: a dependency, the symbols of a choice, or the two ends of a range.
pub data PropExpr : Type 0 where
  p_expr : Expr → PropExpr
  p_list : List Symbol → PropExpr
  p_ends : Symbol → Symbol → PropExpr

pub record PropertyData : Type 0 where
  pub type : PropType
  pub text : Option Text
  pub visible : Option Expr
  pub expr : Option PropExpr
  pub menu : ℕ

-- The fields of a menu that are no links.
pub record MenuFields : Type 0 where
  pub sym : Option Symbol
  pub prompt : Option PropertyData
  pub visibility : Option Expr
  pub dep : Option Expr

-- What the actions of the parser change, beside the links.
pub record Parsed : Type 0 where
  pub entry : ℕ → MenuFields
  pub props : Symbol → List PropertyData
  pub types : Symbol → SymbolType
  pub warnings : ℕ

abbrev pub put_entry : ℕ → MenuFields → Parsed → Parsed
put_entry m e ps = record ps { entry = λ a. if a == m then e else ps.entry a }

unfoldable pub menu_add_dep : Symbol → ℕ → Option Expr → Parsed → Parsed
unfolding check_dep expr_alloc_and
menu_add_dep modules_sym current_entry dep ps =
    let e = ps.entry current_entry in
    put_entry current_entry (record e { dep = expr_alloc_and e.dep (check_dep modules_sym dep) }) ps

unfoldable pub menu_add_visibility : ℕ → Option Expr → Parsed → Parsed
unfolding expr_alloc_and
menu_add_visibility current_entry expr ps =
    let e = ps.entry current_entry in
    put_entry current_entry (record e { visibility = expr_alloc_and e.visibility expr }) ps

abbrev pub type_number : SymbolType → ℕ
type_number s_unknown = 0
type_number s_boolean = 1
type_number s_tristate = 2
type_number s_int = 3
type_number s_hex = 4
type_number s_string = 5
type_number s_other = 6

-- For the symbol of the current entry.
unfoldable pub menu_set_type : SymbolType → Symbol → Parsed → Parsed
menu_set_type type sym ps =
    if type_number (ps.types sym) == type_number type
    then ps
    else if type_number (ps.types sym) == 0
    then record ps { types = λ s. if s == sym then type else ps.types s }
    else record ps { warnings = suc ps.warnings }

-- `prop_alloc`: a property is put behind the others of its symbol.
unfoldable pub append_prop :
    Option Symbol → PropertyData → (Symbol → List PropertyData) → Symbol → List PropertyData
append_prop none prop props s = props s
append_prop (some sym) prop props s = if s == sym then props s ++ (prop ∷ []) else props s

-- `is_space` in the C locale.
abbrev pub is_space : ℕ → Bool
is_space c = c == 32 || (ltb 8 c && ltb c 14)

unfoldable pub skip_spaces : Text → Text
skip_spaces [] = []
skip_spaces (c ∷ s) = let rest = skip_spaces s in if is_space c then rest else c ∷ s

abbrev pub starts_with_space : Text → Bool
starts_with_space [] = false
starts_with_space (c ∷ s) = is_space c

-- The loop over the upper menus, for the parent so far; `fuel` bounds the depth.
unfoldable pub upper_visibility :
    (ℕ → Links) → (ℕ → MenuFields) → ℕ → Option ℕ → Option Expr → Option Expr
unfolding expr_alloc_and
upper_visibility links entry zero m visible = visible
upper_visibility links entry (suc fuel) none visible = visible
upper_visibility links entry (suc fuel) (some m) visible =
    upper_visibility links entry fuel (links m).parent (expr_alloc_and visible (entry m).visibility)

abbrev pub is_prompt : PropType → Bool
is_prompt p_prompt = true
is_prompt _ = false

abbrev pub is_prompted : Option PropertyData → Bool
is_prompted none = false
is_prompted (some prop) = true

abbrev pub count_if : Bool → ℕ
count_if true = 1
count_if false = 0

-- The links are those that the parser has made so far.
unfoldable pub menu_add_prop :
    (ℕ → Links)
    → ℕ
    → Symbol
    → ℕ
    → PropType
    → Option Text
    → Option PropExpr
    → Option Expr
    → Parsed
    → Parsed
unfolding check_dep append_prop skip_spaces upper_visibility
menu_add_prop links depth modules_sym current_entry type none expr dep ps =
    let prop : PropertyData = record {
      type = type;
      text = none;
      visible = check_dep modules_sym dep;
      expr = expr;
      menu = current_entry;
    } in
    record ps { props = append_prop (ps.entry current_entry).sym prop ps.props }
menu_add_prop links depth modules_sym current_entry type (some prompt) expr dep ps =
    let e = ps.entry current_entry in
    let checked = check_dep modules_sym dep in
    let prop : PropertyData = record {
      type = type;
      text = some (skip_spaces prompt);
      visible =
          if is_prompt type
          then upper_visibility links ps.entry depth (links current_entry).parent checked
          else checked;
      expr = expr;
      menu = current_entry;
    } in
    let redefined = is_prompted e.prompt && not (current_entry == rootmenu) in
    let entered = put_entry current_entry (record e { prompt = some prop }) ps in
    record entered {
      props = append_prop e.sym prop ps.props;
      warnings = ps.warnings + count_if (starts_with_space prompt) + count_if redefined;
    }

-- `names` are the names of the symbols.
unfoldable pub menu_validate_number :
    (Symbol → SymbolType) → (Symbol → Text) → Symbol → Symbol → Bool
unfolding sym_string_valid
menu_validate_number types names sym sym2 = elim (types sym2) [
  | s_int ↦ true
  | s_hex ↦ true
  | s_unknown ↦ sym_string_valid (types sym) (names sym2)
  | s_boolean ↦ false
  | s_tristate ↦ false
  | s_string ↦ false
  | s_other ↦ false
]

abbrev pub is_number : SymbolType → Bool
is_number type = type_number type == 3 || type_number type == 4

abbrev pub is_bool_or_tristate : SymbolType → Bool
is_bool_or_tristate type = type_number type == 1 || type_number type == 2

-- The warnings of the case P_DEFAULT.
unfoldable pub default_warnings : (Symbol → SymbolType) → (Symbol → Text) → Symbol → Expr → ℕ
unfolding menu_validate_number
default_warnings types names sym (e_symbol sym2) =
    count_if (is_number (types sym) && not (menu_validate_number types names sym sym2))
default_warnings types names sym _ =
    count_if (type_number (types sym) == 5 || is_number (types sym))

unfoldable pub select_warnings : (Symbol → SymbolType) → Symbol → Symbol → ℕ
select_warnings types sym sym2 =
    if not (is_bool_or_tristate (types sym))
    then 1
    else count_if (not (type_number (types sym2) == 0) && not (is_bool_or_tristate (types sym2)))

unfoldable pub range_warnings :
    (Symbol → SymbolType) → (Symbol → Text) → Symbol → Symbol → Symbol → ℕ
unfolding menu_validate_number
range_warnings types names sym low high =
    count_if (not (is_number (types sym)))
    + count_if (
        not (menu_validate_number types names sym low)
        || not (menu_validate_number types names sym high))

-- The warnings for one property. The parser gives a default an expression, a selection a symbol and a range its ends.
unfoldable pub prop_warnings : (Symbol → SymbolType) → (Symbol → Text) → Symbol → PropertyData → ℕ
unfolding default_warnings select_warnings range_warnings
prop_warnings types names sym prop = elim prop.type [
  | p_default ↦ elim prop.expr [ some (p_expr e) ↦ default_warnings types names sym e | _ ↦ 0 ]
  | p_select ↦ elim prop.expr [
    | some (p_expr (e_symbol sym2)) ↦ select_warnings types sym sym2
    | _ ↦ 0
  ]
  | p_range ↦ elim prop.expr [
    | some (p_ends low high) ↦ range_warnings types names sym low high
    | _ ↦ 0
  ]
  | _ ↦ 0
]

unfoldable pub sym_check_prop :
    (Symbol → SymbolType) → (Symbol → Text) → Symbol → List PropertyData → ℕ
unfolding prop_warnings
sym_check_prop types names sym [] = 0
sym_check_prop types names sym (prop ∷ props) =
    prop_warnings types names sym prop + sym_check_prop types names sym props
