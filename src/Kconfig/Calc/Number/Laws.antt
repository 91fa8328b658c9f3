-- ===== src/Kconfig/Calc/Number/Laws.antt =====
-- support/kconfig/symbol.c: a string in range is kept, and a range is kept to.
use cargos_buildroot.Base.{
  ℕ, ◌≡◌, ◌≢◌, refl, ap, true, false, Option, none, some, List, [], ◌∷◌, ◌++◌, Text, bytes,
  text_eq→eq, arith, if◌then◌else◌, ◌==◌, ℤ, leb_ℤ, Bool-cases, inl, inr,
}
use cargos_buildroot.Kconfig.Symbol.{
  SymbolType, s_unknown, s_boolean, s_tristate, s_int, s_hex, s_string, s_other, Tristate, tri_no,
  Store,
}
use cargos_buildroot.Kconfig.Strings.{sym_string_valid, is_hex, is_hex_digits}
use cargos_buildroot.Kconfig.Range.{Conditions, Limits}
use cargos_buildroot.Kconfig.Calc.{Property}
use cargos_buildroot.Kconfig.Calc.Number.{
  Numbers, RangeProperty, sym_get_range_prop, sym_get_range_val, base_or, print_as, clamp, clamp_to,
  sym_validate_range, within, within_type, sym_string_within_range, has_prefix, stored, StringSet,
  refused, unchanged, set_text, set_tri, is_old, store_string, is_logical, sym_set_string_value,
  calc_string,
}

-- The user's string after `sym_set_string_value`.
abbrev pub text_after : Option Text → StringSet → Option Text
text_after oldval refused = oldval
text_after oldval unchanged = oldval
text_after oldval (set_text v) = some v
text_after oldval (set_tri a) = oldval

unchanged_is :
    (oldval : Option Text) (newval : Text) → is_old oldval newval ≡ true → oldval ≡ some newval
unchanged_is none newval h = cc
unchanged_is (some oldval) newval h = ap some (text_eq→eq oldval newval h)

plain_stored :
    (oldval : Option Text) (newval : Text)
    → text_after oldval (if is_old oldval newval then unchanged else set_text newval) ≡ some newval
plain_stored oldval newval = elim (Bool-cases (is_old oldval newval)) [
  | inl e ↦ rw e (unchanged_is oldval newval e)
  | inr e ↦ rw e refl
]

-- The string that is set, or was there already, is the one that is to be stored.
store_string-stored :
    (type : SymbolType) (oldval : Option Text) (newval : Text)
    → text_after oldval (store_string type oldval newval) ≡ some (stored type newval)
unfolding store_string stored
store_string-stored s_hex oldval newval = elim (Bool-cases (has_prefix newval)) [
  | inl e ↦ rw e (plain_stored oldval newval)
  | inr e ↦ rw e refl
]
store_string-stored s_unknown oldval newval = plain_stored oldval newval
store_string-stored s_boolean oldval newval = plain_stored oldval newval
store_string-stored s_tristate oldval newval = plain_stored oldval newval
store_string-stored s_int oldval newval = plain_stored oldval newval
store_string-stored s_string oldval newval = plain_stored oldval newval
store_string-stored s_other oldval newval = plain_stored oldval newval

digits_of_hex : (s : Text) → is_hex s ≡ true → has_prefix s ≡ false → is_hex_digits s ≡ true
unfolding is_hex has_prefix
digits_of_hex [] h p = h
digits_of_hex (a ∷ []) h p = h
digits_of_hex (a ∷ b ∷ s) h p = rw p at h

-- What libc documents: base 16 takes digits with and without the prefix.
abbrev pub ReadsPrefix : Numbers → Type 0
ReadsPrefix n =
    (t : Text) → is_hex_digits t ≡ true → n.strtoll (bytes "0x" ++ t) 16 ≡ n.strtoll t 16

-- What libc documents: the number that is printed is read back.
abbrev pub Reads : Numbers → SymbolType → ℕ → ℤ → Type 0
Reads n type base v = n.strtoll (print_as n type v) base ≡ v

module _ (n : Numbers) (st : Store) where
  clamp_kept :
      (type : SymbolType) (base : ℕ) (r : Option RangeProperty) (str val : Text)
      → n.strtoll val base ≡ n.strtoll str base
      → within n st base r str ≡ true
      → clamp_to n st type base r val ≡ val
  unfolding within clamp_to clamp
  clamp_kept type base none str val e h = refl
  clamp_kept type base (some r) str val e h = ground arith

  validate_kept :
      (type : SymbolType) (c : Conditions) (l : Limits) (modules_val : Tristate)
      (props : List RangeProperty) (newval : Text)
      → ReadsPrefix n
      → is_logical type ≡ false
      → within_type n st type c l modules_val props newval ≡ true
      → sym_validate_range n st type props (stored type newval) ≡ stored type newval
  unfolding within_type sym_validate_range stored sym_string_valid
  validate_kept s_string c l modules_val props newval law t h = refl
  validate_kept s_int c l modules_val props newval law t h =
      clamp_kept s_int 10 (sym_get_range_prop st props) newval newval refl (ground arith)
  validate_kept s_hex c l modules_val props newval law t h = elim (Bool-cases (has_prefix newval)) [
    | inl e ↦
        rw e (clamp_kept s_hex 16 (sym_get_range_prop st props) newval newval refl (ground arith))
    | inr e ↦ rw e (
        clamp_kept s_hex 16 (sym_get_range_prop st props) newval (bytes "0x" ++ newval)
          (law newval (digits_of_hex newval (ground arith) e)) (ground arith))
  ]
  validate_kept s_unknown c l modules_val props newval law t h = cc
  validate_kept s_other c l modules_val props newval law t h = cc
  validate_kept s_boolean c l modules_val props newval law t h = cc
  validate_kept s_tristate c l modules_val props newval law t h = cc

  -- A string in range that the user sets for a visible int, hex or string symbol is the value that is
  -- calculated next, with the prefix 0x for a hex symbol; the range leaves it as it is.
  pub sym_set_string_value_kept :
      (c : Conditions) (l : Limits) (modules_val oldtri : Tristate) (props : List RangeProperty)
      (defaults : List Property) (oldval : Option Text) (newval : Text)
      → ReadsPrefix n
      → is_logical c.type ≡ false
      → l.visible ≢ tri_no
      → sym_string_within_range n st c l modules_val props newval ≡ true
      → let r = sym_set_string_value n st c l modules_val props oldtri oldval newval in
        sym_validate_range n st c.type props
          (calc_string st l.visible defaults (text_after oldval r))
        ≡ stored c.type newval
  unfolding sym_set_string_value calc_string sym_string_within_range
  sym_set_string_value_kept c l modules_val oldtri props defaults oldval newval law t v h =
      let shown : (l.visible == tri_no) ≡ false = ground arith in
      rw (t, h, store_string-stored c.type oldval newval, shown)
        (validate_kept c.type c l modules_val props newval law t h)

  clamp_within :
      (type : SymbolType) (base : ℕ) (r : RangeProperty) (val : Text)
      → let low = sym_get_range_val n st r.low base in
        let high = sym_get_range_val n st r.high base in
        leb_ℤ low high ≡ true
        → Reads n type base low
        → Reads n type base high
        → within n st base (some r) (clamp_to n st type base (some r) val) ≡ true
  unfolding within clamp_to clamp
  clamp_within type base r val h p q =
      let low = sym_get_range_val n st r.low base in
      let high = sym_get_range_val n st r.high base in
      let v = n.strtoll val base in
      elim (Bool-cases (leb_ℤ low v)) [
        | inl e ↦ elim (Bool-cases (leb_ℤ v high)) [
          | inl f ↦ rw (e, f) (ground arith)
          | inr f ↦ rw (e, f, q) (ground arith)
        ]
        | inr e ↦ rw (e, p) (ground arith)
      ]

  -- Where the range of an int or hex symbol is not empty, and its ends are read as they are printed, the value
  -- that `sym_validate_range` leaves lies in the range.
  pub sym_validate_range-within :
      (type : SymbolType) (props : List RangeProperty) (r : RangeProperty) (val : Text)
      → let base = base_or 0 type in
        base ≢ 0
        → sym_get_range_prop st props ≡ some r
        → leb_ℤ (sym_get_range_val n st r.low base) (sym_get_range_val n st r.high base) ≡ true
        → Reads n type base (sym_get_range_val n st r.low base)
        → Reads n type base (sym_get_range_val n st r.high base)
        → within n st base (some r) (sym_validate_range n st type props val) ≡ true
  unfolding sym_validate_range
  sym_validate_range-within s_int props r val z e h p q = rw e (clamp_within s_int 10 r val h p q)
  sym_validate_range-within s_hex props r val z e h p q = rw e (clamp_within s_hex 16 r val h p q)
  sym_validate_range-within s_string props r val z e h p q = absurd (z refl)
  sym_validate_range-within s_boolean props r val z e h p q = absurd (z refl)
  sym_validate_range-within s_tristate props r val z e h p q = absurd (z refl)
  sym_validate_range-within s_unknown props r val z e h p q = absurd (z refl)
  sym_validate_range-within s_other props r val z e h p q = absurd (z refl)
