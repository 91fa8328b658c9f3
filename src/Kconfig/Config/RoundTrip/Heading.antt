-- ===== src/Kconfig/Config/RoundTrip/Heading.antt =====
-- support/kconfig/confdata.c: the heading that `conf_write_heading` writes, as it is read.
use cargos_buildroot.Base.{
  take_all, ℕ, ◌≤◌, ◌≡◌, refl, ap, sym, subst, Bool, true, false, [], ◌∷◌, ◌++◌, Text, bytes,
  length, length-append, ◌==◌, arith,
}
use mathlib.Core.List.{append_assoc}
use cargos_buildroot.Kconfig.Strings.{all_bytes}
use cargos_buildroot.Kconfig.Config.Line.{line_says, nothing}
use cargos_buildroot.Kconfig.Config.Line.Laws.{Grows, in_name}
use cargos_buildroot.Kconfig.Config.Read.{Configuration, Symbols}
use cargos_buildroot.Kconfig.Config.Write.{conf_write_heading, kconfig_print_comment, comment_lines}
use cargos_buildroot.Kconfig.Config.RoundTrip.Files.{no_newline, mark_line_says}
use cargos_buildroot.Kconfig.Config.RoundTrip.Reads.{Reads, Reads-nothing}

comment_line :
    (l rest mark : Text)
    → all_bytes no_newline l ≡ true
    → comment_lines mark true (l ++ (b'\n' ∷ rest)) ≡ l ++ (b'\n' ∷ comment_lines mark false rest)
unfolding comment_lines
comment_line [] rest mark h = refl
comment_line (c ∷ l) rest mark h =
    let other : (c == b'\n') ≡ false = ground arith in
    rw other (ap (λ t. c ∷ t) (comment_line l rest mark (ground arith)))

-- The first lines of the heading; the title fits into the buffer.
heading_lines :
    (title rest : Text)
    → length title ≤ 210
    → conf_write_heading kconfig_print_comment title ++ rest
      ≡ bytes "#"
        ++ (b'\n'
            ∷ (bytes "# Automatically generated file; DO NOT EDIT."
                ++ (b'\n' ∷ (comment_lines (bytes "#") false (title ++ (b'\n' ∷ [])) ++ rest))))
unfolding conf_write_heading kconfig_print_comment comment_lines
heading_lines title rest n =
    let whole =
      take_all 211 (title ++ (b'\n' ∷ [])) (omega (arith, length-append title (b'\n' ∷ []))) in
    ap
      (λ t.
        bytes "#"
        ++ (b'\n'
            ∷ (bytes "# Automatically generated file; DO NOT EDIT."
                ++ (b'\n' ∷ (comment_lines (bytes "#") false t ++ rest)))))
      whole

-- The title fits into the buffer, and neither line of the heading is taken for a statement.
abbrev pub IsTitle : Text → Text → Type 0
IsTitle prefix title =
    (length title ≤ 210)
    × (all_bytes no_newline title ≡ true)
    × (line_says prefix (bytes "# " ++ (title ++ (b'\n' ∷ []))) ≡ nothing)
    × (line_says prefix (bytes "# Automatically generated file; DO NOT EDIT." ++ (b'\n' ∷ []))
        ≡ nothing)

module _ (env : Symbols) (realloc : ℕ → Bool) (grows : Grows realloc) (prefix : Text)
    (p : all_bytes in_name prefix ≡ true) where
  Reads-title :
      (title rest : Text) (st st' : Configuration)
      → IsTitle prefix title
      → Reads env realloc grows prefix p rest st st'
      → Reads env realloc grows prefix p
          (comment_lines (bytes "#") false (title ++ (b'\n' ∷ [])) ++ rest)
          st
          st'
  unfolding comment_lines
  Reads-title [] rest st st' h k =
      let mark = mark_line_says prefix in
      let next = Reads-nothing env realloc grows prefix p (bytes "#") in
      next _ st st' refl mark (next rest st st' refl mark k)
  Reads-title (c ∷ t) rest st st' (n, q, e, _) k =
      let last =
        Reads-nothing env realloc grows prefix p (bytes "#") rest st st' refl
          (mark_line_says prefix) k in
      let first =
        Reads-nothing env realloc grows prefix p (bytes "# " ++ (c ∷ t)) _ st st' q e last in
      let other : (c == b'\n') ≡ false = ground arith in
      rw
        (
          other,
          comment_line t [] (bytes "#") (ground arith),
          append_assoc t (b'\n' ∷ b'#' ∷ b'\n' ∷ []) rest,
        )
        first

  pub Reads-heading :
      (title rest : Text) (st st' : Configuration)
      → IsTitle prefix title
      → Reads env realloc grows prefix p rest st st'
      → Reads env realloc grows prefix p
          (conf_write_heading kconfig_print_comment title ++ rest)
          st
          st'
  Reads-heading title rest st st' h k =
      subst (λ file. Reads env realloc grows prefix p file st st')
        (sym (heading_lines title rest h.0))
        (Reads-nothing env realloc grows prefix p (bytes "#") _ st st' refl (mark_line_says prefix)
          (Reads-nothing env realloc grows prefix p
            (bytes "# Automatically generated file; DO NOT EDIT.") _ st st' refl h.3
            (Reads-title title rest st st' h k)))
