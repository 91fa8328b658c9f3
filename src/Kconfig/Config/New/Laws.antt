-- ===== src/Kconfig/Config/New/Laws.antt =====
-- support/kconfig/confdata.c: the chances of KCONFIG_PROBABILITY are per cent.
use cargos_buildroot.Base.{
  ℕ, zero, suc, ◌+◌, ◌≤◌, ◌≡◌, Bool, true, ◌&&◌, some, List, [], ◌∷◌, Text, leb, arith, >>=-eq-some,
  ℤ,
}
use cargos_buildroot.Kconfig.Config.New.{
  percent, percents, behind_colon, Chances, chances_of, checked_chances, chances,
}

percent-le : (v : ℤ) (p : ℕ) → percent v ≡ some p → p ≤ 100
unfolding percent
percent-le v p h = ground arith

abbrev all_percent : List ℕ → Bool
all_percent [] = true
all_percent (p ∷ ps) = leb p 100 && all_percent ps

percents-le :
    (strtol : Text → ℤ × Text) (n : ℕ) (env : Text) (ps : List ℕ)
    → percents strtol n env ≡ some ps
    → all_percent ps ≡ true
unfolding percents
percents-le strtol zero env ps h = ground arith
percents-le strtol (suc n) [] ps h = ground arith
percents-le strtol (suc n) (c ∷ env) ps h =
    let read = strtol (c ∷ env) in
    let (p, e, h') = >>=-eq-some (percent read.0) _ h in
    let (qs, f, g) = >>=-eq-some (percents strtol n (behind_colon read.1)) _ h' in
    ground (arith, percent-le read.0 p e, percents-le strtol n (behind_colon read.1) qs f)

-- Whatever numbers up to 100 the variable holds, what is accepted is per cent.
checked-le :
    (ps : List ℕ) (p : Chances)
    → all_percent ps ≡ true
    → checked_chances (chances_of ps) ≡ some p
    → (p.pby ≤ 100) × (p.pty + p.ptm ≤ 100)
unfolding checked_chances chances_of
checked-le [] p h k = ground arith
checked-le (a ∷ []) p h k = ground arith
checked-le (a ∷ b ∷ []) p h k = ground arith
checked-le (a ∷ b ∷ c ∷ ps) p h k = ground arith

-- The chances that are used, whatever the variable holds: none is above 100, and those of y and m of a tristate symbol
-- together are not, either.
pub chances_bounds :
    (strtol : Text → ℤ × Text) (env : Text) (p : Chances)
    → chances strtol env ≡ some p
    → (p.pby ≤ 100) × (p.pty + p.ptm ≤ 100)
unfolding chances
chances_bounds strtol env p h =
    let (ps, e, k) = >>=-eq-some (percents strtol 3 env) _ h in
    checked-le ps p (percents-le strtol 3 env ps e) k
