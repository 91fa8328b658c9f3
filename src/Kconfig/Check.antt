-- ===== src/Kconfig/Check.antt =====
-- support/kconfig/symbol.c: the search for recursive dependencies, `sym_check_deps`. The stack that it keeps for its
-- messages is not modelled.
pub mod Laws
pub mod Flags
pub mod Ends
pub mod Covers
pub mod Grounded
mod Tests
use cargos_buildroot.Base.{
  ℕ, zero, suc, Bool, true, false, ◌&&◌, not, Option, none, some, List, [], ◌∷◌, if◌then◌else◌,
  ◌==◌, ◌>>=◌,
}
use cargos_buildroot.Kconfig.Symbol.{Symbol}
use cargos_buildroot.Kconfig.Expr.{Expr, e_symbol, e_not, e_equal, e_unequal, e_or, e_and}
use cargos_buildroot.Kconfig.Menu.Deps.{
  PropType, p_default, p_choice, p_select, PropExpr, p_expr, p_list, p_ends, PropertyData,
}

-- The flags SYMBOL_CHECK and SYMBOL_CHECKED of the symbols, and how often the messages were printed.
pub record Marks : Type 0 where
  pub check : Symbol → Bool
  pub checked : Symbol → Bool
  pub reports : ℕ

-- What is read of the symbols: the choice that one is a value of, and the values of one that is a choice.
pub record Checks : Type 0 where
  pub rev_dep : Symbol → Option Expr
  pub props : Symbol → List PropertyData
  pub choice_of : Symbol → Option Symbol
  pub values : Symbol → Option (List Symbol)

-- The result, where NULL is `none`, with the flags then; `none` for both is that the fuel ran out.
abbrev pub CheckOutcome : Type 0
CheckOutcome = Option (Option Symbol × Marks)

abbrev pub set : (Symbol → Bool) → Symbol → Symbol → Bool
set flags s t = if t == s then true else flags t

abbrev pub clear : (Symbol → Bool) → Symbol → Symbol → Bool
clear flags s t = if t == s then false else flags t

abbrev pub mark : Symbol → Marks → Marks
mark s m = record m { check = set m.check s; checked = set m.checked s }

abbrev pub unmark : Symbol → Marks → Marks
unmark s m = record m { check = clear m.check s }

abbrev pub mark_all : List Symbol → Marks → Marks
mark_all [] m = m
mark_all (s ∷ ss) m = mark_all ss (mark s m)

abbrev pub unmark_all : List Symbol → Marks → Marks
unmark_all [] m = m
unmark_all (s ∷ ss) m = unmark_all ss (unmark s m)

-- `if (sym) return sym;` between two checks.
unfoldable pub unless_found : (Marks → CheckOutcome) → Option Symbol × Marks → CheckOutcome
unless_found next (none, m) = next m
unless_found next (some s, m) = some (some s, m)

abbrev pub then_check : (Marks → CheckOutcome) → (Marks → CheckOutcome) → Marks → CheckOutcome
then_check act next m = act m >>= unless_found next

abbrev pub no_check : Marks → CheckOutcome
no_check m = some (none, m)

-- `check_deps` stands for `sym_check_deps`.
unfoldable pub sym_check_expr_deps : (Symbol → Marks → CheckOutcome) → Expr → Marks → CheckOutcome
unfolding unless_found
sym_check_expr_deps check_deps (e_or l r) =
    then_check (sym_check_expr_deps check_deps l) (sym_check_expr_deps check_deps r)
sym_check_expr_deps check_deps (e_and l r) =
    then_check (sym_check_expr_deps check_deps l) (sym_check_expr_deps check_deps r)
sym_check_expr_deps check_deps (e_not e) = sym_check_expr_deps check_deps e
sym_check_expr_deps check_deps (e_equal a b) = then_check (check_deps a) (check_deps b)
sym_check_expr_deps check_deps (e_unequal a b) = then_check (check_deps a) (check_deps b)
sym_check_expr_deps check_deps (e_symbol s) = check_deps s

abbrev pub check_pointer : (Symbol → Marks → CheckOutcome) → Option Expr → Marks → CheckOutcome
check_pointer check_deps none = no_check
check_pointer check_deps (some e) = sym_check_expr_deps check_deps e

abbrev pub is_skipped : PropType → Bool
is_skipped p_choice = true
is_skipped p_select = true
is_skipped _ = false

abbrev pub is_default : PropType → Bool
is_default p_default = true
is_default _ = false

-- `prop->expr`; for a list or a range a message is printed.
abbrev pub default_expr : PropertyData → Option Expr
default_expr prop = elim prop.expr [
  | none ↦ none
  | some (p_expr e) ↦ some e
  | some (p_list ss) ↦ none
  | some (p_ends low high) ↦ none
]

unfoldable pub check_prop :
    (Symbol → Marks → CheckOutcome) → Bool → PropertyData → Marks → CheckOutcome
unfolding unless_found sym_check_expr_deps
check_prop check_deps is_choice prop =
    if is_skipped prop.type
    then no_check
    else then_check (check_pointer check_deps prop.visible) (
        if is_default prop.type && not is_choice
        then check_pointer check_deps (default_expr prop)
        else no_check)

-- The loop over the properties.
unfoldable pub check_props :
    (Symbol → Marks → CheckOutcome) → Bool → List PropertyData → Marks → CheckOutcome
unfolding unless_found check_prop
check_props check_deps is_choice [] = no_check
check_props check_deps is_choice (prop ∷ props) =
    then_check (check_prop check_deps is_choice prop) (check_props check_deps is_choice props)

abbrev pub is_choice_list : Option (List Symbol) → Bool
is_choice_list none = false
is_choice_list (some ss) = true

unfoldable pub sym_check_sym_deps :
    Checks → (Symbol → Marks → CheckOutcome) → Symbol → Marks → CheckOutcome
unfolding unless_found check_props
sym_check_sym_deps cs check_deps s =
    then_check (check_pointer check_deps (cs.rev_dep s))
      (check_props check_deps (is_choice_list (cs.values s)) (cs.props s))

-- The loop over the values of a choice.
unfoldable pub check_values :
    Checks → (Symbol → Marks → CheckOutcome) → List Symbol → Marks → CheckOutcome
unfolding unless_found sym_check_sym_deps
check_values cs check_deps [] = no_check
check_values cs check_deps (s ∷ ss) =
    then_check (sym_check_sym_deps cs check_deps s) (check_values cs check_deps ss)

abbrev pub is_value_of : Symbol → Option Symbol → Bool
is_value_of choice none = false
is_value_of choice (some c) = c == choice

-- The end: a value that was found stands for its choice.
abbrev pub found_choice : Checks → Symbol → Option Symbol → Option Symbol
found_choice cs choice none = none
found_choice cs choice (some s) =
    if is_value_of choice (cs.choice_of s) then some choice else some s

unfoldable pub sym_check_choice_deps :
    Checks → (Symbol → Marks → CheckOutcome) → Symbol → List Symbol → Marks → CheckOutcome
unfolding unless_found sym_check_sym_deps check_values
sym_check_choice_deps cs check_deps choice values m =
    sym_check_sym_deps cs check_deps choice (mark choice (mark_all values m)) >>= λ r.
    unless_found (check_values cs check_deps values) (r.0, unmark choice r.1) >>= λ r.
    some (found_choice cs choice r.0, unmark_all values r.1)

-- `if (sym2 && sym2 == sym) sym2 = NULL;`
abbrev pub other_than : Symbol → Option Symbol → Option Symbol
other_than s none = none
other_than s (some t) = if t == s then none else some t

-- The three cases of `sym_check_deps`.
unfoldable pub check_symbol :
    Checks → (Symbol → Marks → CheckOutcome) → Symbol → Marks → CheckOutcome
unfolding sym_check_sym_deps sym_check_choice_deps
check_symbol cs check_deps s m = elim (cs.choice_of s) [
  | some c ↦ check_deps c m
  | none ↦ elim (cs.values s) [
    | some values ↦ sym_check_choice_deps cs check_deps s values m
    | none ↦ sym_check_sym_deps cs check_deps s (mark s m) >>= λ r. some (r.0, unmark s r.1)
  ]
]

-- `fuel` bounds the depth of the recursion.
unfoldable pub sym_check_deps : Checks → ℕ → Symbol → Marks → CheckOutcome
unfolding check_symbol
sym_check_deps cs zero s m = none
sym_check_deps cs (suc fuel) s m =
    if m.check s
    then some (some s, record m { reports = suc m.reports })
    else if m.checked s
    then some (none, m)
    else check_symbol cs (sym_check_deps cs fuel) s m >>= λ r. some (other_than s r.0, r.1)

-- The loop of `conf_parse` over the symbols, with the number of errors that it counts.
unfoldable pub check_all : Checks → ℕ → List Symbol → Marks → Option (ℕ × Marks)
unfolding sym_check_deps
check_all cs fuel [] m = some (0, m)
check_all cs fuel (s ∷ ss) m = sym_check_deps cs fuel s m >>= λ r.
    check_all cs fuel ss r.1 >>= λ q. some (elim r.0 [ none ↦ q.0 | some t ↦ suc q.0 ], q.1)
