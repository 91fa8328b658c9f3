-- ===== src/Kconfig/Config/RoundTrip/Files.antt =====
-- support/kconfig/confdata.c: reading a file that was written gives each symbol its value.
use cargos_buildroot.Base.{
  ℕ, ◌≡◌, refl, ap, ◌∙◌, Bool, true, false, ◌&&◌, not, some, [], ◌∷◌, ◌++◌, Text, bytes,
  starts_with, if◌then◌else◌, ◌==◌, arith, Bool-cases, inl, inr,
}
use mathlib.Core.List.{append_assoc}
use cargos_buildroot.Kconfig.Symbol.{
  SymbolType, s_unknown, s_boolean, s_tristate, s_int, s_hex, s_string, s_other,
}
use cargos_buildroot.Kconfig.Strings.{conf_write_symbol, all_bytes}
use cargos_buildroot.Kconfig.Calc.Number.{is_logical}
use cargos_buildroot.Kconfig.Config.Line.{
  Statement, unset, assigns, nothing, not_set, line_says, split_at, comment_says, assignment_says,
  is_comment_line, is_blank_line,
}
use cargos_buildroot.Kconfig.Config.Line.Laws.{
  in_line, in_name, all_bytes_mono, all_bytes-append, line_says-assigns, line_says-unset,
}
use cargos_buildroot.Kconfig.Config.Write.{
  kconfig_print_symbol, print_symbol, Item, write_item, starts_by,
}
use cargos_buildroot.Kconfig.Config.RoundTrip.Values.{is_value, written, says_no}

abbrev pub no_newline : ℕ → Bool
no_newline c = not (c == b'\n')

-- What is written for a symbol, as a statement.
abbrev pub item_says : Item → Statement
item_says i = if says_no i.type i.str then unset i.name else assigns i.name (written i.type i.str)

-- The name and the value stand on a line, and the value is one of the type.
abbrev pub IsPrintable : Item → Type 0
IsPrintable i =
    (all_bytes in_name i.name ≡ true)
    × (all_bytes in_line (written i.type i.str) ≡ true)
    × (is_value i.type i.str ≡ true)

pub empty_line_says :
    (prefix : Text) → all_bytes in_name prefix ≡ true → line_says prefix (b'\n' ∷ []) ≡ nothing
unfolding line_says assignment_says comment_says starts_with split_at is_comment_line is_blank_line
empty_line_says [] h = refl
empty_line_says (c ∷ q) h = let other : (c == b'\n') ≡ false = ground arith in rw other refl

pub mark_line_says : (prefix : Text) → line_says prefix (bytes "#" ++ (b'\n' ∷ [])) ≡ nothing
unfolding line_says comment_says starts_with split_at is_comment_line
mark_line_says [] = refl
mark_line_says (c ∷ q) = refl

written_value :
    (type : SymbolType) (str : Text)
    → is_value type str ≡ true
    → conf_write_symbol type str ≡ some (written type str)
unfolding conf_write_symbol is_value
written_value s_unknown str h = cc
written_value s_boolean str h = refl
written_value s_tristate str h = refl
written_value s_int str h = refl
written_value s_hex str h = refl
written_value s_string str h = refl
written_value s_other str h = cc

written_no :
    (type : SymbolType) (str : Text)
    → (is_logical type && starts_by b'n' (written type str)) ≡ says_no type str
written_no s_unknown str = refl
written_no s_boolean str = refl
written_no s_tristate str = refl
written_no s_int str = refl
written_no s_hex str = refl
written_no s_string str = refl
written_no s_other str = refl

-- The two lines that a symbol may have, without the newline.
abbrev unset_line : Text → Text → Text
unset_line prefix name = bytes "# " ++ (prefix ++ (name ++ (32 ∷ not_set)))

abbrev assign_line : Text → Text → Text → Text
assign_line prefix name v = prefix ++ (name ++ (b'=' ∷ v))

abbrev pub item_line : Text → Item → Text
item_line prefix i =
    if says_no i.type i.str
    then unset_line prefix i.name
    else assign_line prefix i.name (written i.type i.str)

-- The line of a symbol, with its newline and what follows it, is written by the printer.
printed_line :
    (prefix : Text) (i : Item) (v rest : Text)
    → written i.type i.str ≡ v
    → kconfig_print_symbol prefix false i.name i.type v ++ rest
      ≡ item_line prefix i ++ (b'\n' ∷ rest)
unfolding kconfig_print_symbol
printed_line prefix i v rest e = rw⁻¹ e (
    rw (written_no i.type i.str) (elim (Bool-cases (says_no i.type i.str)) [
      | inl f ↦ rw f (simp append_assoc)
      | inr f ↦ rw f (simp append_assoc)
    ]))

print_symbol-some :
    (printer : SymbolType → Text → Text) (type : SymbolType) (str v : Text)
    → conf_write_symbol type str ≡ some v
    → print_symbol printer type str ≡ printer type v
unfolding print_symbol
print_symbol-some printer type str v e = rw (print_symbol, e) refl

pub write_item_line :
    (prefix rest : Text) (i : Item)
    → is_value i.type i.str ≡ true
    → write_item prefix i ++ rest ≡ item_line prefix i ++ (b'\n' ∷ rest)
write_item_line prefix rest i h =
    ap (λ t. t ++ rest)
      (print_symbol-some (kconfig_print_symbol prefix false i.name) i.type i.str
        (written i.type i.str) (written_value i.type i.str h))
    ∙ printed_line prefix i (written i.type i.str) rest refl

pub item_line_says :
    (prefix : Text) (i : Item)
    → all_bytes in_name prefix ≡ true
    → IsPrintable i
    → line_says prefix (item_line prefix i ++ (b'\n' ∷ [])) ≡ item_says i
item_line_says prefix i p (q, v, t) =
    let value = written i.type i.str in
    let nl : Text = b'\n' ∷ [] in
    elim (Bool-cases (says_no i.type i.str)) [
      | inl e ↦
          rw
            (
              e,
              append_assoc prefix (i.name ++ (32 ∷ not_set)) nl,
              append_assoc i.name (32 ∷ not_set) nl,
            )
            (line_says-unset prefix i.name p q)
      | inr e ↦
          rw
            (
              e,
              append_assoc prefix (i.name ++ (b'=' ∷ value)) nl,
              append_assoc i.name (b'=' ∷ value) nl,
            )
            (line_says-assigns prefix i.name p q value v)
    ]

pub item_line_plain :
    (prefix : Text) (i : Item)
    → all_bytes in_name prefix ≡ true
    → IsPrintable i
    → all_bytes no_newline (item_line prefix i) ≡ true
item_line_plain prefix i p (q, v, t) =
    let value = written i.type i.str in
    let plain = all_bytes_mono in_name no_newline (λ c k. ground arith) in
    let behind = all_bytes-append no_newline i.name in
    let whole = all_bytes-append no_newline prefix in
    elim (Bool-cases (says_no i.type i.str)) [
      | inl e ↦ rw e (
          whole (i.name ++ (32 ∷ not_set)) (plain prefix p)
            (behind (32 ∷ not_set) (plain i.name q) refl))
      | inr e ↦ rw e (
          whole (i.name ++ (b'=' ∷ value)) (plain prefix p) (
            behind (b'=' ∷ value) (plain i.name q)
              (all_bytes_mono in_line no_newline (λ c k. ground arith) value v)))
    ]
