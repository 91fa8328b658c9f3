-- ===== src/Kconfig/Check/Flags.antt =====
-- support/kconfig/symbol.c: the flags of a list of symbols, and the number of symbols without one.
use cargos_buildroot.Base.{
  ℕ, zero, suc, ◌+◌, ◌≤◌, ◌<◌, ◌≡◌, refl, subst, Bool, true, false, ◌&&◌, ◌||◌, not, List, [], ◌∷◌,
  if◌then◌else◌, ◌==◌, arith, Bool-cases, inl, inr,
}
use cargos_buildroot.Kconfig.Symbol.{Symbol}
use cargos_buildroot.Kconfig.Check.{Marks, mark, unmark, mark_all, unmark_all}

abbrev pub has : List Symbol → Symbol → Bool
has [] t = false
has (s ∷ ss) t = (t == s) || has ss t

pub mark_all-check :
    (ss : List Symbol) (m : Marks) (t : Symbol) → (mark_all ss m).check t ≡ (has ss t || m.check t)
mark_all-check [] m t = refl
mark_all-check (s ∷ ss) m t = elim (Bool-cases (t == s)) [
  | inl e ↦ rw (mark_all-check ss (mark s m) t, e) (ground arith)
  | inr e ↦ rw (mark_all-check ss (mark s m) t, e) refl
]

pub mark_all-checked :
    (ss : List Symbol) (m : Marks) (t : Symbol)
    → m.checked t ≡ true
    → (mark_all ss m).checked t ≡ true
mark_all-checked [] m t h = h
mark_all-checked (s ∷ ss) m t h = mark_all-checked ss (mark s m) t (ground (arith, h))

pub unmark_all-check :
    (ss : List Symbol) (m : Marks) (t : Symbol)
    → (unmark_all ss m).check t ≡ (not (has ss t) && m.check t)
unmark_all-check [] m t = refl
unmark_all-check (s ∷ ss) m t = elim (Bool-cases (t == s)) [
  | inl e ↦ rw (unmark_all-check ss (unmark s m) t, e) (ground arith)
  | inr e ↦ rw (unmark_all-check ss (unmark s m) t, e) refl
]

pub unmark_all-checked :
    (ss : List Symbol) (m : Marks) (t : Symbol) → (unmark_all ss m).checked t ≡ m.checked t
unmark_all-checked [] m t = refl
unmark_all-checked (s ∷ ss) m t = unmark_all-checked ss (unmark s m) t

-- How many of the first symbols do not have the flag.
abbrev pub unchecked : ℕ → (Symbol → Bool) → ℕ
unchecked zero flags = 0
unchecked (suc n) flags = (if flags n then 0 else 1) + unchecked n flags

pub unchecked-le :
    (n : ℕ) (flags flags' : Symbol → Bool)
    → ((t : Symbol) → flags t ≡ true → flags' t ≡ true)
    → unchecked n flags' ≤ unchecked n flags
unchecked-le zero flags flags' h = omega arith
unchecked-le (suc n) flags flags' h = elim (Bool-cases (flags n)) [
  | inl e ↦ let rest = unchecked-le n flags flags' h in rw (e, h n e) (omega arith)
  | inr e ↦ ground (arith, e, unchecked-le n flags flags' h)
]

pub unchecked-lt :
    (n : ℕ) (flags flags' : Symbol → Bool) (s : Symbol)
    → ((t : Symbol) → flags t ≡ true → flags' t ≡ true)
    → s < n
    → flags s ≡ false
    → flags' s ≡ true
    → unchecked n flags' < unchecked n flags
unchecked-lt zero flags flags' s h l f t = absurd (omega arith)
unchecked-lt (suc n) flags flags' s h l f t = elim (Bool-cases (s == n)) [
  | inl e ↦
      let same : s ≡ n = ground arith in
      let f' : flags n ≡ false = subst (λ u. flags u ≡ false) same f in
      let t' : flags' n ≡ true = subst (λ u. flags' u ≡ true) same t in
      let rest = unchecked-le n flags flags' h in rw (f', t') (omega arith)
  | inr e ↦
      let rest = unchecked-lt n flags flags' s h (ground arith) f t in
      elim (Bool-cases (flags n)) [
        | inl p ↦ rw (p, h n p) (omega arith)
        | inr p ↦ ground (arith, p, rest)
      ]
]

pub unchecked-all : (n : ℕ) (flags : Symbol → Bool) → unchecked n flags ≤ n
unchecked-all zero flags = omega arith
unchecked-all (suc n) flags = ground (arith, unchecked-all n flags)
