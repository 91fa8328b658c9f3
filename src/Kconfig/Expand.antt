-- ===== src/Kconfig/Expand.antt =====
-- support/kconfig/symbol.c: `sym_expand_string_value`, with its buffers.
pub mod Laws
mod Tests
use cargos_buildroot.Base.{
  ℕ, zero, suc, ◌+◌, Bool, true, false, ◌&&◌, ◌||◌, Option, none, some, [], ◌∷◌, ◌++◌, Text, bytes,
  length, if◌then◌else◌, ◌==◌, ltb, leb, ◌>>=◌,
}
use cargos_buildroot.Kconfig.Symbol.{Store, sym_get_string_value}
use cargos_buildroot.Kconfig.Table.{Table, sym_find}
use cargos_buildroot.Kconfig.Config.Line.{split_at}

abbrev pub symbol_maxlength : ℕ
symbol_maxlength = 256

-- `isalnum`, in the locale C, or the underscore.
abbrev pub is_name_byte : ℕ → Bool
is_name_byte c =
    (leb 48 c && leb c 57) || (leb 65 c && leb c 90) || (leb 97 c && leb c 122) || c == 95

-- The loop that copies a name, and what it leaves.
unfoldable pub split_name : Text → Text × Text
split_name [] = ([], [])
split_name (c ∷ src) =
    let (name, rest) = split_name src in if is_name_byte c then (c ∷ name, rest) else ([], c ∷ src)

-- An array with the string that stands in it.
pub record Buffer : Type 0 where
  pub text : Text
  pub size : ℕ

-- `strcat` and `strncat`; `none` is a write behind the array.
unfoldable pub strcat : Buffer → Text → Option Buffer
strcat res s =
    if ltb (length res.text + length s) res.size
    then some (record res { text = res.text ++ s })
    else none

-- The name is written to an array of SYMBOL_MAXLENGTH bytes.
unfoldable pub put_name : Text → Option Text
put_name name = if ltb (length name) symbol_maxlength then some name else none

-- `realloc` succeeds.
unfoldable pub grow : ℕ → Buffer → Buffer
grow newlen res = if ltb res.size newlen then record res { size = newlen } else res

-- The value of the symbol that is found, or the empty string.
unfoldable pub symval : Table → Store → Text → Text
unfolding sym_find sym_get_string_value
symval t st name = elim (sym_find t (some name)) [
  | none ↦ []
  | some s ↦ bytes (sym_get_string_value st s)
]

-- A round of the loop, for the strings in front of the `$` and behind the name, and the value.
unfoldable pub expand_round : (Text → Text) → Buffer → Text → Text × Text → Option Buffer
unfolding strcat put_name grow
expand_round value res before (name, src) = strcat res before >>= λ res1. put_name name >>= λ n.
    strcat (grow (length res1.text + length (value n) + length src + 1) res1) (value n)

-- The loop; `fuel` bounds the rounds, and the last `strcat` stands behind it.
unfoldable pub expand : (Text → Text) → ℕ → Buffer → Text → Option Buffer
unfolding split_at split_name expand_round
expand value zero res src = none
expand value (suc fuel) res src = elim (split_at b'$' src) [
  | none ↦ strcat res src
  | some (before, rest) ↦
      let named = split_name rest in
      expand_round value res before named >>= λ res'. expand value fuel res' named.1
]

unfoldable pub sym_expand_string_value : Table → Store → Text → Option Buffer
unfolding expand symval
sym_expand_string_value t st src =
    expand (symval t st) (suc (length src)) (record { text = []; size = length src + 1 }) src
