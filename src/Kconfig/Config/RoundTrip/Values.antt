-- ===== src/Kconfig/Config/RoundTrip/Values.antt =====
-- support/kconfig/confdata.c: the value of one symbol, as it is written and as it is read.
use cargos_buildroot.Base.{
  zero, suc, ◌≡◌, refl, sym, subst, Bool, true, false, ◌&&◌, ◌||◌, not, Option, none, some, [],
  Text, bytes, text_eq, text_eq→eq, if◌then◌else◌, arith, Bool-cases, inl, inr,
}
use cargos_buildroot.Kconfig.Symbol.{
  SymbolType, s_unknown, s_boolean, s_tristate, s_int, s_hex, s_string, s_other, Tristate,
}
use cargos_buildroot.Kconfig.Strings.{
  tri_value, text_value, conf_set_sym_val, sym_string_valid, sym_escape_string_value,
  conf_write_symbol,
}
use cargos_buildroot.Kconfig.Strings.Laws.{conf_set_sym_val_recovers}
use cargos_buildroot.Kconfig.Calc.Number.{is_logical}
use cargos_buildroot.Kconfig.Config.Read.{Def, unset_def, assigned_def, is_rejected}
use cargos_buildroot.Kconfig.Config.Write.{starts_by}

abbrev pub letter : Tristate → Text
letter zero = bytes "n"
letter (suc zero) = bytes "m"
letter (suc (suc n)) = bytes "y"

abbrev pub or_empty : Option Text → Text
or_empty none = []
or_empty (some v) = v

-- The user's value of a symbol as a string.
abbrev pub user_string : Def → Text
user_string d = if is_logical d.type then letter d.tri else or_empty d.val

abbrev pub HasString : Def → Text → Type 0
HasString d str = (d.has_value ≡ true) × (user_string d ≡ str)

-- The strings that a symbol of a type may have.
unfoldable pub is_value : SymbolType → Text → Bool
unfolding text_eq sym_string_valid
is_value s_boolean str = text_eq str (bytes "y") || text_eq str (bytes "n")
is_value s_tristate str =
    text_eq str (bytes "y") || (text_eq str (bytes "n") || text_eq str (bytes "m"))
is_value s_unknown str = false
is_value s_other str = false
is_value s_int str = sym_string_valid s_int str
is_value s_hex str = sym_string_valid s_hex str
is_value s_string str = true

-- The text behind the equals sign.
abbrev pub written : SymbolType → Text → Text
written s_string str = sym_escape_string_value str
written _ str = str

-- A statement that the symbol is not set, and one that assigns, on the symbol.
abbrev pub says_no : SymbolType → Text → Bool
says_no type str = is_logical type && starts_by b'n' str

abbrev pub def_after : SymbolType → Text → Def → Def
def_after type str d =
    if says_no type str
    then unset_def d
    else assigned_def (conf_set_sym_val type (written type str)) d

-- The value is not refused, and what is stored has the string that was written.
abbrev pub Stores : SymbolType → Text → Def → Type 0
Stores type str d =
    ((says_no type str || not (is_rejected (conf_set_sym_val type (written type str)))) ≡ true)
    × ((def_after type str d).has_value ≡ true)
    × (user_string (def_after type str d) ≡ str)

text-Stores :
    (type : SymbolType) (str : Text) (d : Def)
    → is_logical type ≡ false
    → conf_set_sym_val type (written type str) ≡ text_value type str
    → Stores type str d
unfolding assigned_def
text-Stores type str d t e = rw (t, e) (refl, refl, rw t refl)

module _ (d : Def) where
  Stores-letter :
      (type : SymbolType) (t : Tristate)
      → is_logical d.type ≡ true
      → conf_set_sym_val type (letter t) ≡ tri_value t
      → written type (letter t) ≡ letter t
      → says_no type (letter t) ≡ false
      → Stores type (letter t) d
  unfolding assigned_def
  Stores-letter type t l e w n = rw (n, w, e) (refl, refl, rw l refl)

  Stores-n :
      (type : SymbolType) → d.type ≡ type → is_logical type ≡ true → Stores type (bytes "n") d
  unfolding unset_def
  Stores-n type t l = rw (l, t) (refl, rw l refl, rw l (rw l refl))

  Stores-as :
      (type : SymbolType) (str : Text) (t : Tristate)
      → text_eq str (letter t) ≡ true
      → Stores type (letter t) d
      → Stores type str d
  Stores-as type str t e h = subst (λ v. Stores type v d) (sym (text_eq→eq str (letter t) e)) h

  value-Stores_boolean :
      (str : Text) → d.type ≡ s_boolean → is_value s_boolean str ≡ true → Stores s_boolean str d
  unfolding is_value conf_set_sym_val
  value-Stores_boolean str t h = elim (Bool-cases (text_eq str (letter 2))) [
    | inl e ↦ Stores-as s_boolean str 2 e (Stores-letter s_boolean 2 (rw t refl) refl refl refl)
    | inr e ↦ Stores-as s_boolean str 0 (ground arith) (Stores-n s_boolean t refl)
  ]

  value-Stores_tristate :
      (str : Text) → d.type ≡ s_tristate → is_value s_tristate str ≡ true → Stores s_tristate str d
  unfolding is_value conf_set_sym_val
  value-Stores_tristate str t h = elim (Bool-cases (text_eq str (letter 2))) [
    | inl e ↦ Stores-as s_tristate str 2 e (Stores-letter s_tristate 2 (rw t refl) refl refl refl)
    | inr e ↦ elim (Bool-cases (text_eq str (letter 0))) [
      | inl f ↦ Stores-as s_tristate str 0 f (Stores-n s_tristate t refl)
      | inr f ↦
          Stores-as s_tristate str 1 (ground arith)
            (Stores-letter s_tristate 1 (rw t refl) refl refl refl)
    ]
  ]

pub value-Stores :
    (type : SymbolType) (str : Text) (d : Def)
    → d.type ≡ type
    → is_value type str ≡ true
    → Stores type str d
unfolding is_value conf_write_symbol conf_set_sym_val
value-Stores s_unknown str d t h = cc
value-Stores s_boolean str d t h = value-Stores_boolean d str t h
value-Stores s_tristate str d t h = value-Stores_tristate d str t h
value-Stores s_int str d t h =
    text-Stores s_int str d refl (conf_set_sym_val_recovers s_int str refl h)
value-Stores s_hex str d t h =
    text-Stores s_hex str d refl (conf_set_sym_val_recovers s_hex str refl h)
value-Stores s_string str d t h =
    text-Stores s_string str d refl (conf_set_sym_val_recovers s_string str refl refl)
value-Stores s_other str d t h = cc
