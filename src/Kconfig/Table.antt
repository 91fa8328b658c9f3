-- ===== src/Kconfig/Table.antt =====
-- support/kconfig/symbol.c: the table of symbols, with `strhash`, `sym_lookup` and `sym_find`.
pub mod Laws
mod Tests
use Prim.Native.Nat.{bit_xor}
use cargos_buildroot.Base.{
  ℕ, suc, ◌+◌, ◌-◌, ◌*◌, ◌%◌, ◌^◌, Bool, true, false, ◌&&◌, ◌||◌, not, Option, none, some, List, [],
  ◌∷◌, Text, text_eq, if◌then◌else◌, ◌==◌, ltb,
}
use cargos_buildroot.Kconfig.Symbol.{Symbol, symbol_no, symbol_mod, symbol_yes}

abbrev pub symbol_hashsize : ℕ
symbol_hashsize = 9973

-- A `char` with a sign, as it is extended to 32 bits.
abbrev pub char_word : ℕ → ℕ
char_word c = if ltb c 128 then c else c + (2 ^ 32 - 256)

-- The loop of `strhash`; an `unsigned` has 32 bits.
unfoldable pub hash_from : ℕ → Text → ℕ
hash_from hash [] = hash
hash_from hash (c ∷ s) = hash_from (bit_xor hash (char_word c) * 0x01000193 % 2 ^ 32) s

unfoldable pub strhash : Text → ℕ
unfolding hash_from
strhash = hash_from 2166136261

-- The flags SYMBOL_CONST and SYMBOL_CHOICE, which are the ones that `sym_lookup` is given.
pub record Flags : Type 0 where
  pub is_const : Bool
  pub is_choice : Bool

-- A symbol in the table: its name, its flags, and its address.
pub record TableEntry : Type 0 where
  pub name : Option Text
  pub flags : Flags
  pub address : Symbol

-- `symbol_hash`, with the symbols of a list in its order, and the address that `xmalloc` gives next.
pub record Table : Type 0 where
  pub symbol_hash : ℕ → List TableEntry
  pub next : Symbol

abbrev pub same_name : Text → Option Text → Bool
same_name name none = false
same_name name (some n) = text_eq name n

-- The test on the flags in `sym_lookup`, for its argument `flags` and the flags of a symbol.
unfoldable pub is_match : Flags → Flags → Bool
is_match flags f =
    if flags.is_const || flags.is_choice
    then (f.is_const && flags.is_const) || (f.is_choice && flags.is_choice)
    else not (f.is_const || f.is_choice)

-- The first symbol of a list with the name, and with flags that pass the test.
unfoldable pub find_entry : (Flags → Bool) → Text → List TableEntry → Option Symbol
find_entry test name [] = none
find_entry test name (e ∷ entries) =
    let rest = find_entry test name entries in
    if same_name name e.name && test e.flags then some e.address else rest

-- The names that stand for constants.
unfoldable pub constant : Text → Option Symbol
constant (c ∷ []) =
    if c == b'y'
    then some symbol_yes
    else if c == b'm'
    then some symbol_mod
    else (if c == b'n' then some symbol_no else none)
constant _ = none

abbrev pub is_variable : Flags → Bool
is_variable f = not f.is_const

-- The list in which the name belongs.
unfoldable pub bucket : Table → Text → List TableEntry
unfolding strhash
bucket t name = t.symbol_hash (strhash name % symbol_hashsize)

unfoldable pub sym_find : Table → Option Text → Option Symbol
unfolding constant find_entry bucket
sym_find t none = none
sym_find t (some name) = elim (constant name) [
  | some s ↦ some s
  | none ↦ find_entry is_variable name (bucket t name)
]

-- The end of `sym_lookup`: a new symbol, in front of its list.
abbrev pub add_entry : Table → Option Text → ℕ → Flags → Symbol × Table
add_entry t name hash flags =
    let entry : TableEntry = record { name = name; flags = flags; address = t.next } in
    (
      t.next,
      record {
        symbol_hash = λ h. if h == hash then entry ∷ t.symbol_hash h else t.symbol_hash h;
        next = suc t.next;
      },
    )

unfoldable pub sym_lookup : Table → Option Text → Flags → Symbol × Table
unfolding constant find_entry is_match strhash bucket
sym_lookup t none flags = add_entry t none 0 flags
sym_lookup t (some name) flags = elim (constant name) [
  | some s ↦ (s, t)
  | none ↦ elim (find_entry (is_match flags) name (bucket t name)) [
    | some s ↦ (s, t)
    | none ↦ add_entry t (some name) (strhash name % symbol_hashsize) flags
  ]
]
