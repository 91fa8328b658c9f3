-- ===== src/Kconfig/Config/New.antt =====
-- support/kconfig/confdata.c: `conf_set_all_new_symbols`, which gives the symbols without a value one, the
-- same for all or at random.
pub mod Laws
pub mod Choice
use cargos_buildroot.Base.{
  ℕ, zero, suc, ◌+◌, ◌-◌, ◌%◌, ◌/◌, ◌^◌, Bool, true, false, ◌&&◌, ◌||◌, not, Option, none, some,
  List, [], ◌∷◌, Text, length, if◌then◌else◌, ◌==◌, ltb, leb, ◌>>=◌, ℤ, pos, negsuc,
}
use cargos_buildroot.Kconfig.Symbol.{
  SymbolType, s_unknown, s_boolean, s_tristate, Tristate, tri_no, tri_mod, tri_yes, Symbol,
}
use cargos_buildroot.Kconfig.Calc.Number.{is_logical}
use cargos_buildroot.Kconfig.Config.Write.{is_s_tristate}

-- `enum conf_def_mode`.
pub data ConfDefMode : Type 0 where
  def_default def_yes def_mod def_no def_random : ConfDefMode

abbrev pub is_random : ConfDefMode → Bool
is_random def_random = true
is_random _ = false

-- The low 32 bits of a `long`, as it is stored in an `int`.
abbrev pub low_word : ℤ → ℕ
low_word (pos n) = n % 2 ^ 32
low_word (negsuc n) = 2 ^ 32 - 1 - n % 2 ^ 32

-- A number from 0 to 100; `none` is the exit with status 1. The low word of a negative `int` is larger.
unfoldable pub percent : ℤ → Option ℕ
percent v = if leb (low_word v) 100 then some (low_word v) else none

abbrev pub behind_colon : Text → Text
behind_colon [] = []
behind_colon (c ∷ s) = if c == b':' then s else c ∷ s

-- The loop over KCONFIG_PROBABILITY, for `n` more numbers. `strtol` to the base 10 gives the number and the
-- rest of the string.
unfoldable pub percents : (Text → ℤ × Text) → ℕ → Text → Option (List ℕ)
unfolding percent
percents strtol zero env = some []
percents strtol (suc n) [] = some []
percents strtol (suc n) (c ∷ env) =
    let (tmp, rest) = strtol (c ∷ env) in
    let more = percents strtol n (behind_colon rest) in
    percent tmp >>= λ p. more >>= λ ps. some (p ∷ ps)

-- The chance in percent that a boolean symbol is y, and that a tristate symbol is y or m.
pub record Chances : Type 0 where
  pub pby : ℕ
  pub pty : ℕ
  pub ptm : ℕ

-- The switch over the number of values.
unfoldable pub chances_of : List ℕ → Chances
chances_of [] = record { pby = 50; pty = 33; ptm = 33 }
chances_of (a ∷ []) = record { pby = a; pty = a - a / 2; ptm = a / 2 }
chances_of (a ∷ b ∷ []) = record { pby = a + b; pty = a; ptm = b }
chances_of (a ∷ b ∷ c ∷ _) = record { pby = a; pty = b; ptm = c }

-- `none` is the exit with status 1.
unfoldable pub checked_chances : Chances → Option Chances
checked_chances p = if ltb 100 (p.pty + p.ptm) then none else some p

unfoldable pub chances : (Text → ℤ × Text) → Text → Option Chances
unfolding percents chances_of checked_chances
chances strtol env = percents strtol 3 env >>= λ ps. checked_chances (chances_of ps)

-- What the function reads of a symbol: its type, and the type that `sym_get_type` gives; whether it is a choice,
-- and whether it is a value of one.
pub record NewSymbol : Type 0 where
  pub type : SymbolType
  pub effective : SymbolType
  pub is_choice : Bool
  pub is_choice_value : Bool

-- `def[S_DEF_USER]` of a symbol, with the flags SYMBOL_DEF_USER, SYMBOL_VALID and SYMBOL_NEED_SET_CHOICE_VALUES.
pub record NewDef : Type 0 where
  pub tri : Tristate
  pub chosen : Option Symbol
  pub has_value : Bool
  pub is_valid : Bool
  pub needs_values : Bool

-- What is changed: the symbols, the number of calls of `rand`, and `has_changed`.
pub record NewState : Type 0 where
  pub defs : Symbol → NewDef
  pub calls : ℕ
  pub has_changed : Bool

abbrev pub put_new : Symbol → NewDef → NewState → NewState
put_new s d st = record st { defs = λ t. if t == s then d else st.defs t }

-- The value for the random number `cnt`, which is less than 100.
unfoldable pub random_tri : Chances → Bool → ℕ → Tristate
random_tri p true cnt =
    if ltb cnt p.pty then tri_yes else (if ltb cnt (p.pty + p.ptm) then tri_mod else tri_no)
random_tri p false cnt = if ltb cnt p.pby then tri_yes else tri_no

-- The switch over the mode; `none` is the `continue`.
unfoldable pub mode_tri : ConfDefMode → Chances → Bool → ℕ → Option Tristate
unfolding random_tri
mode_tri def_default p is_tristate cnt = none
mode_tri def_yes p is_tristate cnt = some tri_yes
mode_tri def_mod p is_tristate cnt = some tri_mod
mode_tri def_no p is_tristate cnt = some tri_no
mode_tri def_random p is_tristate cnt = some (random_tri p is_tristate cnt)

-- A choice stays without a value of the user where the values are random.
abbrev pub give : ConfDefMode → Bool → Option Tristate → NewDef → NewDef
give mode is_choice none d = d
give mode is_choice (some tri) d = record d {
  tri = tri;
  has_value = d.has_value || not (is_choice && is_random mode);
}

-- The body of the first loop.
unfoldable pub set_new :
    (ℕ → ℕ) → ConfDefMode → Chances → (Symbol → NewSymbol) → Symbol → NewState → NewState
unfolding mode_tri
set_new rand mode p symbols s st =
    let sym = symbols s in
    let d = st.defs s in
    let tri = mode_tri mode p (is_s_tristate sym.type) (rand st.calls % 100) in
    let given = put_new s (give mode sym.is_choice tri d) st in
    let calls = if is_random mode then suc st.calls else st.calls in
    if d.has_value || d.is_valid
    then st
    else if is_logical sym.effective
    then record given { calls = calls; has_changed = true }
    else st

-- The first loop, over the symbols in the order of `for_all_symbols`.
unfoldable pub set_all_new :
    (ℕ → ℕ) → ConfDefMode → Chances → (Symbol → NewSymbol) → List Symbol → NewState → NewState
unfolding set_new
set_all_new rand mode p symbols [] st = st
set_all_new rand mode p symbols (s ∷ all) st =
    set_all_new rand mode p symbols all (set_new rand mode p symbols s st)

-- The second loop, where the mode is not `def_random`.
unfoldable pub need_choice_values : (Symbol → NewSymbol) → List Symbol → NewState → NewState
need_choice_values symbols [] st = st
need_choice_values symbols (s ∷ all) st =
    let sym = symbols s in
    let d = st.defs s in
    let marked = put_new s (record d { needs_values = true }) st in
    need_choice_values symbols all
      (if (sym.is_choice && not d.has_value) || sym.is_choice_value then marked else st)

-- The body of the second loop of `randomize_choice_values`, for a value of the choice `csym`.
unfoldable pub pick_value : Symbol → Bool → Symbol → NewState → NewState
pick_value csym picked s st =
    let given = λ (tri : Tristate).
      put_new s (record (st.defs s) { tri = tri; has_value = true; is_valid = false }) st in
    let chosen =
      put_new csym (record ((given tri_yes).defs csym) { chosen = some s }) (given tri_yes) in
    if picked then chosen else given tri_no

-- The loop from the number `cnt` on.
unfoldable pub pick_values : Symbol → ℕ → ℕ → List Symbol → NewState → NewState
unfolding pick_value
pick_values csym def cnt [] st = st
pick_values csym def cnt (s ∷ values) st =
    pick_values csym def (suc cnt) values (pick_value csym (def == cnt) s st)

-- The result and the state; `curr` is the value of the choice. There is no value by which `rand` is divided
-- if the choice has no values.
unfoldable pub randomize_choice_values :
    (ℕ → ℕ) → Symbol → Tristate → List Symbol → NewState → Bool × NewState
unfolding pick_values
randomize_choice_values rand csym curr values st =
    let def = rand st.calls % length values in
    let st' = pick_values csym def 0 values (record st { calls = suc st.calls }) in
    let kept = put_new csym (record (st'.defs csym) { has_value = true; is_valid = false }) st' in
    if curr == tri_yes then (true, kept) else (false, st)

unfoldable pub reset_values : List Symbol → NewState → NewState
reset_values [] st = st
reset_values (s ∷ values) st =
    let d = st.defs s in
    reset_values values (if d.has_value then st else put_new s (record d { tri = tri_no }) st)

unfoldable pub set_all_choice_values : Symbol → List Symbol → NewState → NewState
unfolding reset_values
set_all_choice_values csym values st =
    let st' = reset_values values st in
    put_new csym
      (record (st'.defs csym) { has_value = true; is_valid = false; needs_values = false }) st'
