-- ===== src/Kconfig/Table/Laws.antt =====
-- support/kconfig/symbol.c: the table of symbols is a map from names to symbols, which a lookup extends.
use cargos_buildroot.Base.{
  and_true, ℕ, ◌%◌, ◌≡◌, refl, ap, sym, ◌∙◌, Bool, true, false, ◌&&◌, not, Option, none, some, List,
  [], ◌∷◌, Text, text_eq, text_eq→eq, if◌then◌else◌, ◌==◌, arith, Bool-cases, inl, inr, ◌⊎◌,
}
use cargos_buildroot.Kconfig.Symbol.{Symbol}
use cargos_buildroot.Kconfig.Table.{
  symbol_hashsize, strhash, Flags, TableEntry, Table, same_name, is_match, find_entry, constant,
  is_variable, bucket, sym_find, add_entry, sym_lookup,
}

text_eq_self : (s : Text) → text_eq s s ≡ true
unfolding text_eq
text_eq_self [] = refl
text_eq_self (c ∷ s) = ground (arith, text_eq_self s)

option_cases : (o : Option Symbol) → (o ≡ none) ⊎ ((s : Symbol) × (o ≡ some s))
option_cases none = inl refl
option_cases (some s) = inr (s, refl)

-- The number of the list of a name.
abbrev slot : Text → ℕ
slot name = strhash name % symbol_hashsize

-- A search in the list of a name, after a symbol with another name or the same has been added.
find_entry-add_entry :
    (test : Flags → Bool) (t : Table) (name m : Text) (flags : Flags)
    → find_entry test m (bucket (add_entry t (some name) (slot name) flags).1 m)
      ≡ (if text_eq m name && test flags then some t.next else find_entry test m (bucket t m))
unfolding find_entry bucket text_eq
find_entry-add_entry test t name m flags = elim (Bool-cases (slot m == slot name)) [
  | inl e ↦ rw e refl
  | inr e ↦ elim (Bool-cases (text_eq m name)) [
    | inl f ↦ let same : slot m ≡ slot name = ap slot (text_eq→eq m name f) in absurd (ground arith)
    | inr f ↦ rw (e, f) refl
  ]
]

module _ (t : Table) (name : Text) (flags : Flags) where
  lookup_constant : (s : Symbol) → constant name ≡ some s → sym_lookup t (some name) flags ≡ (s, t)
  unfolding sym_lookup
  lookup_constant s e = rw (sym_lookup, e) refl

  lookup_found :
      (s : Symbol)
      → constant name ≡ none
      → find_entry (is_match flags) name (bucket t name) ≡ some s
      → sym_lookup t (some name) flags ≡ (s, t)
  unfolding sym_lookup
  lookup_found s e f = rw (sym_lookup, e, f) refl

  lookup_new :
      constant name ≡ none
      → find_entry (is_match flags) name (bucket t name) ≡ none
      → sym_lookup t (some name) flags ≡ add_entry t (some name) (slot name) flags
  unfolding sym_lookup
  lookup_new e f = rw (sym_lookup, e, f) refl

is_match_self : (flags : Flags) → is_match flags flags ≡ true
unfolding is_match
is_match_self flags = ground arith

-- A second lookup finds what the first one found or made, and changes nothing.
pub sym_lookup_idem :
    (t : Table) (name : Text) (flags : Flags)
    → sym_lookup (sym_lookup t (some name) flags).1 (some name) flags
      ≡ sym_lookup t (some name) flags
sym_lookup_idem t name flags = elim (option_cases (constant name)) [
  | inr (s, e) ↦ let first = lookup_constant t name flags s e in rw first first
  | inl e ↦ elim (option_cases (find_entry (is_match flags) name (bucket t name))) [
    | inr (s, f) ↦ let first = lookup_found t name flags s e f in rw first first
    | inl f ↦
        let first = lookup_new t name flags e f in
        let t' = (add_entry t (some name) (slot name) flags).1 in
        let found : find_entry (is_match flags) name (bucket t' name) ≡ some t.next =
          find_entry-add_entry (is_match flags) t name name flags
          ∙ rw (text_eq_self name, is_match_self flags) refl in
        rw first (lookup_found t' name flags t.next e found)
  ]
]

-- Among the symbols of a list with the name, those that are not constants are those that a lookup without flags takes: none
-- is a choice.
abbrev pub no_choice : Text → List TableEntry → Bool
no_choice name [] = true
no_choice name (e ∷ entries) =
    not (same_name name e.name && e.flags.is_choice) && no_choice name entries

abbrev pub no_flags : Flags
no_flags = record { is_const = false; is_choice = false }

abbrev pub const_flags : Flags
const_flags = record { is_const = true; is_choice = false }

find_entry-no_choice :
    (name : Text) (entries : List TableEntry)
    → no_choice name entries ≡ true
    → find_entry (is_match no_flags) name entries ≡ find_entry is_variable name entries
unfolding find_entry is_match
find_entry-no_choice name [] h = refl
find_entry-no_choice name (e ∷ entries) h =
    let rest = find_entry-no_choice name entries (ground arith) in rw rest (ground arith)

find_found :
    (t : Table) (m : Text)
    → constant m ≡ none
    → sym_find t (some m) ≡ find_entry is_variable m (bucket t m)
unfolding sym_find
find_found t m e = rw (sym_find, e) refl

find_constant :
    (t : Table) (m : Text) (s : Symbol) → constant m ≡ some s → sym_find t (some m) ≡ some s
unfolding sym_find
find_constant t m s e = rw (sym_find, e) refl

other_name :
    (m name : Text) (s : Symbol)
    → constant m ≡ some s
    → constant name ≡ none
    → text_eq m name ≡ false
other_name m name s f e = elim (Bool-cases (text_eq m name)) [
  | inl h ↦ let same : constant m ≡ constant name = ap constant (text_eq→eq m name h) in cc
  | inr h ↦ h
]

-- What `sym_find` gives for a name after the table has been extended.
find_extended :
    (t : Table) (name m : Text) (flags : Flags)
    → constant name ≡ none
    → sym_find (add_entry t (some name) (slot name) flags).1 (some m)
      ≡ (if text_eq m name && is_variable flags then some t.next else sym_find t (some m))
find_extended t name m flags e = elim (option_cases (constant m)) [
  | inr (s, f) ↦
      let other : text_eq m name ≡ false = other_name m name s f e in
      rw (other, find_constant t m s f)
        (find_constant (add_entry t (some name) (slot name) flags).1 m s f)
  | inl f ↦ rw (find_found t m f) (
      find_found (add_entry t (some name) (slot name) flags).1 m f
      ∙ find_entry-add_entry is_variable t name m flags)
]

and_false : (b : Bool) → (b && false) ≡ false
and_false true = refl
and_false false = refl

-- A symbol that is found already.
find_kept :
    (t : Table) (name m : Text) (s : Symbol)
    → sym_find t (some name) ≡ some s
    → sym_find t (some m) ≡ (if text_eq m name then some s else sym_find t (some m))
find_kept t name m s e = elim (Bool-cases (text_eq m name)) [
  | inl h ↦ rw h (ap (λ n. sym_find t (some n)) (text_eq→eq m name h) ∙ e)
  | inr h ↦ rw h refl
]

lookup_const_hidden :
    (t : Table) (name m : Text)
    → sym_find (sym_lookup t (some name) const_flags).1 (some m) ≡ sym_find t (some m)
lookup_const_hidden t name m = elim (option_cases (constant name)) [
  | inr (s, e) ↦ rw (lookup_constant t name const_flags s e) refl
  | inl e ↦ elim (option_cases (find_entry (is_match const_flags) name (bucket t name))) [
    | inr (s, f) ↦ rw (lookup_found t name const_flags s e f) refl
    | inl f ↦
        rw (lookup_new t name const_flags e f)
          (find_extended t name m const_flags e ∙ rw (and_false (text_eq m name)) refl)
  ]
]

-- What a lookup gives by name is from then on what `sym_find` finds under the name, and nothing changes for the other names.
-- The lookup has no flags, and none of the symbols with the name in the table is a choice. A lookup of a constant
-- changes nothing for any name.
pub sym_find-sym_lookup :
    (t : Table) (name m : Text)
    → no_choice name (bucket t name) ≡ true
    → (let r = sym_lookup t (some name) no_flags in
        sym_find r.1 (some m) ≡ (if text_eq m name then some r.0 else sym_find t (some m)))
      × (sym_find (sym_lookup t (some name) const_flags).1 (some m) ≡ sym_find t (some m))
sym_find-sym_lookup t name m h = (
  elim (option_cases (constant name)) [
    | inr (s, e) ↦
        rw (lookup_constant t name no_flags s e) (find_kept t name m s (find_constant t name s e))
    | inl e ↦ elim (option_cases (find_entry (is_match no_flags) name (bucket t name))) [
      | inr (s, f) ↦ rw (lookup_found t name no_flags s e f) (
          find_kept t name m s
            (find_found t name e ∙ (sym (find_entry-no_choice name (bucket t name) h) ∙ f)))
      | inl f ↦
          rw (lookup_new t name no_flags e f)
            (find_extended t name m no_flags e ∙ rw (and_true (text_eq m name)) refl)
    ]
  ],
  lookup_const_hidden t name m,
)
