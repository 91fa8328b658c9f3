-- ===== src/Makedevs/Table/Laws.antt =====
-- package/makedevs/makedevs.c: the table is read to its end.
use cargos_buildroot.Base.{
  ℕ, zero, suc, ◌<◌, ◌≡◌, refl, Bool, true, ◌&&◌, List, [], ◌∷◌, ◌++◌, Text, length, length-append,
  ap, arith,
}
use cargos_buildroot.Makedevs.Lines.{bb_get_chomped_line_from_file}
use cargos_buildroot.Makedevs.Lines.Laws.{is_line, bb_get_chomped_line_from_file_reads}
use cargos_buildroot.Makedevs.Table.{table_lines}

-- The file with these lines.
abbrev pub file_of : List Text → Text
file_of [] = []
file_of (line ∷ lines) = line ++ (b'\n' ∷ file_of lines)

abbrev pub all_plain : List Text → Bool
all_plain [] = true
all_plain (line ∷ lines) = is_line line && all_plain lines

table_lines_enough :
    (fuel : ℕ) (lines : List Text)
    → all_plain lines ≡ true
    → length (file_of lines) < fuel
    → table_lines fuel (file_of lines) ≡ lines
unfolding table_lines bb_get_chomped_line_from_file
table_lines_enough zero lines h f = grind arith
table_lines_enough (suc fuel) [] h f = refl
table_lines_enough (suc fuel) (line ∷ lines) h f =
    rw (table_lines, bb_get_chomped_line_from_file_reads line (file_of lines) (ground arith))
      (ap (λ ls. line ∷ ls)
        (table_lines_enough fuel lines (ground arith)
          (omega (arith, f, length-append line (b'\n' ∷ file_of lines)))))

-- A file made of lines without NUL bytes, each ended by a newline, is read as these lines.
pub table_lines_recovers :
    (lines : List Text)
    → all_plain lines ≡ true
    → table_lines (suc (length (file_of lines))) (file_of lines) ≡ lines
table_lines_recovers lines h =
    table_lines_enough (suc (length (file_of lines))) lines h (omega arith)
