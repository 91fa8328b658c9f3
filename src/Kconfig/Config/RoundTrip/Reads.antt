-- ===== src/Kconfig/Config/RoundTrip/Reads.antt =====
-- support/kconfig/confdata.c: the reader takes the entries of a file one after the other.
use cargos_buildroot.Base.{
  ℕ, zero, suc, ◌<◌, ◌≡◌, refl, sym, subst, Bool, true, false, List, [], ◌∷◌, ◌++◌, Text, bytes,
  length, length-append, arith,
}
use mathlib.Core.List.{append_assoc}
use cargos_buildroot.Kconfig.Strings.{all_bytes}
use cargos_buildroot.Kconfig.Config.Line.{Statement, nothing, line_says}
use cargos_buildroot.Kconfig.Config.Line.Laws.{
  Grows, in_name, compat_getline_reads, compat_getline_end,
}
use cargos_buildroot.Kconfig.Config.Read.{Configuration, Symbols, read_statement, read_file}
use cargos_buildroot.Kconfig.Config.Write.{
  Item, MenuEntry, heading, choice, option, write_item, write_entry, write_entries,
}
use cargos_buildroot.Kconfig.Config.RoundTrip.Files.{
  no_newline, item_says, IsPrintable, item_line, write_item_line, item_line_plain, item_line_says,
  mark_line_says, empty_line_says,
}

-- What is written: a heading is one that the reader does not take for a statement, and a line can hold an item.
abbrev pub IsWritten : Text → MenuEntry → Type 0
IsWritten prefix (heading false prompt) = Unit {0}
IsWritten prefix (heading true prompt) =
    (all_bytes no_newline prompt ≡ true)
    × (line_says prefix (bytes "# " ++ (prompt ++ (b'\n' ∷ []))) ≡ nothing)
IsWritten prefix choice = Unit {0}
IsWritten prefix (option false i) = Unit {0}
IsWritten prefix (option true i) = IsPrintable i

abbrev pub AllWritten : Text → List MenuEntry → Type 0
AllWritten prefix [] = Unit {0}
AllWritten prefix (e ∷ entries) = IsWritten prefix e × AllWritten prefix entries

abbrev pub entry_says : MenuEntry → Statement
entry_says (heading shown prompt) = nothing
entry_says choice = nothing
entry_says (option false i) = nothing
entry_says (option true i) = item_says i

-- The statements of the entries that are written, one after the other.
abbrev pub load : Symbols → List MenuEntry → Configuration → Configuration
load env [] st = st
load env (e ∷ entries) st = load env entries (read_statement env (entry_says e) st)

module _ (env : Symbols) (realloc : ℕ → Bool) (grows : Grows realloc) (prefix : Text)
    (p : all_bytes in_name prefix ≡ true) where
  -- Reading the text takes the one state to the other, with enough fuel and from any buffer.
  abbrev pub Reads : Text → Configuration → Configuration → Type 0
  Reads file st st' =
      (fuel size : ℕ) → length file < fuel → read_file env realloc prefix fuel size file st ≡ st'

  Reads-nil : (st : Configuration) → Reads [] st st
  unfolding read_file
  Reads-nil st zero size h = absurd (omega arith)
  Reads-nil st (suc fuel) size h = rw (read_file, compat_getline_end realloc grows size) refl

  Reads-line :
      (l rest : Text) (st st' : Configuration)
      → all_bytes no_newline l ≡ true
      → Reads rest (read_statement env (line_says prefix (l ++ (b'\n' ∷ []))) st) st'
      → Reads (l ++ (b'\n' ∷ rest)) st st'
  unfolding read_file
  Reads-line l rest st st' h k zero size f = absurd (omega arith)
  Reads-line l rest st st' h k (suc fuel) size f =
      let (n, e) = compat_getline_reads realloc grows size l rest h in
      rw (read_file, e) (k fuel n (omega (arith, length-append l (b'\n' ∷ rest))))

  Reads-item :
      (i : Item) (rest : Text) (st st' : Configuration)
      → IsPrintable i
      → Reads rest (read_statement env (item_says i) st) st'
      → Reads (write_item prefix i ++ rest) st st'
  Reads-item i rest st st' h k =
      subst (λ file. Reads file st st') (sym (write_item_line prefix rest i h.2))
        (Reads-line (item_line prefix i) rest st st' (item_line_plain prefix i p h)
          (rw (item_line_says prefix i p h) k))

  pub Reads-nothing :
      (l rest : Text) (st st' : Configuration)
      → all_bytes no_newline l ≡ true
      → line_says prefix (l ++ (b'\n' ∷ [])) ≡ nothing
      → Reads rest st st'
      → Reads (l ++ (b'\n' ∷ rest)) st st'
  unfolding read_statement
  Reads-nothing l rest st st' h e k = Reads-line l rest st st' h (rw e k)

  Reads-entry :
      (e : MenuEntry) (rest : Text) (st st' : Configuration)
      → IsWritten prefix e
      → Reads rest (read_statement env (entry_says e) st) st'
      → Reads (write_entry prefix e ++ rest) st st'
  unfolding write_entry read_statement
  Reads-entry (heading false prompt) rest st st' w k = k
  Reads-entry (heading true prompt) rest st st' w k =
      let last = Reads-nothing (bytes "#") rest st st' refl (mark_line_says prefix) k in
      let second = Reads-nothing (bytes "# " ++ prompt) (b'#' ∷ b'\n' ∷ rest) st st' w.0 w.1 last in
      let first = Reads-nothing (bytes "#") _ st st' refl (mark_line_says prefix) second in
      rw (append_assoc prompt (b'\n' ∷ b'#' ∷ b'\n' ∷ []) rest)
        (Reads-nothing [] _ st st' refl (empty_line_says prefix p) first)
  Reads-entry choice rest st st' w k = k
  Reads-entry (option false i) rest st st' w k = k
  Reads-entry (option true i) rest st st' w k = Reads-item i rest st st' w k

  pub Reads-entries :
      (entries : List MenuEntry) (st : Configuration)
      → AllWritten prefix entries
      → Reads (write_entries prefix entries) st (load env entries st)
  unfolding write_entries
  Reads-entries [] st w = Reads-nil st
  Reads-entries (e ∷ entries) st w =
      Reads-entry e (write_entries prefix entries) st (load env (e ∷ entries) st) w.0
        (Reads-entries entries (read_statement env (entry_says e) st) w.1)
