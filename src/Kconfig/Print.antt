-- ===== src/Kconfig/Print.antt =====
-- support/kconfig/expr.c: `expr_print`, by the calls of `fn` that it makes, and the simplification of
-- an unmet dependency.
use cargos_buildroot.Base.{
  ℕ, Bool, true, false, Option, none, some, List, [], ◌∷◌, ◌++◌, String, if◌then◌else◌, ◌==◌, ◌||◌,
  ◌&&◌,
}
use cargos_buildroot.Kconfig.Symbol.{Store, Symbol}
use cargos_buildroot.Kconfig.Expr.{Expr, e_symbol, e_not, e_equal, e_unequal, e_or, e_and}

-- A call `fn(data, sym, str)`: with a symbol, or with NULL.
pub data Token : Type 0 where
  symbol_token : Symbol → Option String → Token
  text_token : String → Token

-- `expr_compare_type` for two members of `enum expr_type`: E_NONE = 0, E_OR, E_AND, E_NOT, E_EQUAL,
-- E_UNEQUAL, E_LIST, E_SYMBOL, E_RANGE; `true` is 1, and `false` is 0 or -1. A `case` falls through to the
-- ones behind it.
unfoldable pub is_tighter : ℕ → ℕ → Bool
is_tighter t1 t2 =
    if t1 == t2
    then false
    else if (t1 == 4 || t1 == 5) && t2 == 3
    then true
    else if (t1 == 4 || t1 == 5 || t1 == 3) && t2 == 2
    then true
    else if (t1 == 4 || t1 == 5 || t1 == 3 || t1 == 2) && t2 == 1
    then true
    else if (t1 == 4 || t1 == 5 || t1 == 3 || t1 == 2 || t1 == 1) && t2 == 6
    then true
    else (t1 == 4 || t1 == 5 || t1 == 3 || t1 == 2 || t1 == 1 || t1 == 6) && t2 == 0

-- The left operand, which may be a choice without a name, and the right one.
unfoldable pub left_token : Store → Symbol → Token
left_token st s = elim ((st.symbols s).name) [
  | none ↦ text_token "<choice>"
  | some n ↦ symbol_token s (some n)
]

abbrev pub right_token : Store → Symbol → Token
right_token st s = symbol_token s (st.symbols s).name

abbrev pub in_brackets : Bool → List Token → List Token
in_brackets true ts = text_token "(" ∷ (ts ++ (text_token ")" ∷ []))
in_brackets false ts = ts

-- `expr_print` of an expression that is there, behind a token of the type `prevtoken`.
unfoldable pub print : Store → Expr → ℕ → List Token
unfolding is_tighter left_token
print st (e_symbol s) prevtoken = in_brackets (is_tighter prevtoken 7) (left_token st s ∷ [])
print st (e_not e) prevtoken = in_brackets (is_tighter prevtoken 3) (text_token "!" ∷ print st e 3)
print st (e_equal a b) prevtoken =
    in_brackets (is_tighter prevtoken 4) (left_token st a ∷ text_token "=" ∷ right_token st b ∷ [])
print st (e_unequal a b) prevtoken =
    in_brackets (is_tighter prevtoken 5) (left_token st a ∷ text_token "!=" ∷ right_token st b ∷ [])
print st (e_or l r) prevtoken =
    in_brackets (is_tighter prevtoken 1) (print st l 1 ++ (text_token " || " ∷ print st r 1))
print st (e_and l r) prevtoken =
    in_brackets (is_tighter prevtoken 2) (print st l 2 ++ (text_token " && " ∷ print st r 2))

unfoldable pub expr_print : Store → Option Expr → ℕ → List Token
unfolding print
expr_print st none prevtoken = text_token "y" ∷ []
expr_print st (some e) prevtoken = print st e prevtoken
