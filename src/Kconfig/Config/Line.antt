-- ===== src/Kconfig/Config/Line.antt =====
-- support/kconfig/confdata.c: reading a line into a growing buffer, and what a line of a configuration
-- says.
pub mod Laws
use cargos_buildroot.Base.{
  ℕ, zero, suc, ◌+◌, ◌-◌, ◌*◌, Bool, true, false, ◌&&◌, ◌||◌, not, Option, none, some, List, [],
  ◌∷◌, ◌++◌, Text, bytes, length, drop, starts_with, if◌then◌else◌, ◌==◌, ltb, ◌>>=◌, ◌>>◌,
}

abbrev pub line_growth : ℕ
line_growth = 16

-- `add_byte` at the place `slen` of a buffer of `n` bytes: the size of the buffer then. `realloc` succeeds or
-- not by the size; `none` is the result -1.
unfoldable pub add_byte : (ℕ → Bool) → ℕ → ℕ → Option ℕ
add_byte realloc slen n =
    let new_size = (suc slen + (line_growth - 1)) * 2 in
    if ltb n (suc slen) then (if realloc new_size then some new_size else none) else some n

-- A line with its newline, if it has one, what is left of the file, and the size of the buffer.
pub record Line : Type 0 where
  pub text : Text
  pub rest : Text
  pub size : ℕ

-- The loop of `compat_getline`, with the line so far and its length. `none` is the result -1:
-- the end of the file, or a buffer that cannot grow. The final NUL is stored too.
unfoldable pub getline : (ℕ → Bool) → Text → ℕ → ℕ → Text → Option Line
unfolding add_byte
getline realloc line slen n [] = add_byte realloc slen n >>= λ n'.
    if slen == 0 then none else some (record { text = line; rest = []; size = n' })
getline realloc line slen n (c ∷ stream) =
    let more = λ (n' : ℕ). getline realloc (line ++ (c ∷ [])) (suc slen) n' stream in
    let ended = add_byte realloc slen n >>= λ n'. add_byte realloc (suc slen) n' >>= λ n''.
    some (record { text = line ++ (c ∷ []); rest = stream; size = n'' }) in
    if c == b'\n' then ended else add_byte realloc slen n >>= more

unfoldable pub compat_getline : (ℕ → Bool) → ℕ → Text → Option Line
unfolding getline
compat_getline realloc n stream = getline realloc [] 0 n stream

-- `strchr(s, c)`: what stands in front of the first such byte, and behind it.
unfoldable pub split_at : ℕ → Text → Option (Text × Text)
split_at c [] = none
split_at c (x ∷ s) =
    let rest = split_at c s >>= λ p. some (x ∷ p.0, p.1) in if x == c then some ([], s) else rest

-- What a line says: a symbol is not set, or has a value; or nothing, with a warning or without.
pub data Statement : Type 0 where
  unset : Text → Statement
  assigns : Text → Text → Statement
  nothing unexpected : Statement

abbrev pub not_set : Text
not_set = bytes "is not set"

-- A comment, behind `# ` and the prefix.
unfoldable pub comment_says : Option (Text × Text) → Statement
unfolding starts_with
comment_says none = nothing
comment_says (some (name, p)) = if starts_with not_set p then unset name else nothing

-- The text of the value, without the newline and the carriage return in front of it.
unfoldable pub chomp_cr : Text → Text
chomp_cr [] = []
chomp_cr (c ∷ []) = if c == 13 then [] else c ∷ []
chomp_cr (c ∷ d ∷ s) = c ∷ chomp_cr (d ∷ s)

unfoldable pub value_text : Text → Text
unfolding split_at chomp_cr
value_text p = elim (split_at b'\n' p) [ none ↦ p | some q ↦ chomp_cr q.0 ]

unfoldable pub assignment_says : Option (Text × Text) → Statement
unfolding value_text
assignment_says none = nothing
assignment_says (some (name, p)) = assigns name (value_text p)

unfoldable pub is_blank_line : Text → Bool
is_blank_line [] = false
is_blank_line (c ∷ s) = c == 13 || c == b'\n'

unfoldable pub is_comment_line : Text → Bool
is_comment_line [] = false
is_comment_line (c ∷ s) = c == b'#'

-- The body of the loop of `conf_read_simple`, up to the look for the symbol. A last line `#` without newline ends
-- in front of `line + 2` in the source, which goes on with what the line before has left in the buffer;
-- here nothing stands there.
unfoldable pub line_says : Text → Text → Statement
unfolding comment_says assignment_says is_comment_line is_blank_line split_at starts_with
line_says prefix line =
    let body = drop 2 line in
    let comment =
      if starts_with prefix body
      then comment_says (split_at b' ' (drop (length prefix) body))
      else nothing in
    let assignment = assignment_says (split_at b'=' (drop (length prefix) line)) in
    if is_comment_line line
    then comment
    else if starts_with prefix line
    then assignment
    else if is_blank_line line
    then nothing
    else unexpected
