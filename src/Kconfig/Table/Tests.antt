-- ===== src/Kconfig/Table/Tests.antt =====
-- support/kconfig/symbol.c: lookups in an empty table, and in one with a constant of the same name.
use cargos_buildroot.Base.{◌≡◌, refl, some, [], bytes, text_eq, if◌then◌else◌}
use cargos_buildroot.Kconfig.Table.{bucket, Table, strhash, hash_from, sym_find, sym_lookup}
use cargos_buildroot.Kconfig.Table.Laws.{no_flags, const_flags, sym_find-sym_lookup}

abbrev empty_table : Table
empty_table = record { symbol_hash = λ h. []; next = 10 }

-- The hash is the one of FNV-1a.
strhash_of_a : strhash (bytes "a") ≡ 0xe40c292c
unfolding strhash hash_from
strhash_of_a = refl

abbrev with_constant : Table
with_constant = (sym_lookup empty_table (some (bytes "NET")) const_flags).1

sym_find-sym_lookup_example :
    (let r = sym_lookup empty_table (some (bytes "NET")) no_flags in
      sym_find r.1 (some (bytes "EXT4")) ≡ (
        if text_eq (bytes "EXT4") (bytes "NET")
        then some r.0
        else sym_find empty_table (some (bytes "EXT4"))))
    × (sym_find with_constant (some (bytes "EXT4")) ≡ sym_find empty_table (some (bytes "EXT4")))
unfolding bucket
sym_find-sym_lookup_example = sym_find-sym_lookup empty_table (bytes "NET") (bytes "EXT4") refl
