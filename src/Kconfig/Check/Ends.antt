-- ===== src/Kconfig/Check/Ends.antt =====
-- support/kconfig/symbol.c, zconf.y: the checks of all symbols end, and what they report to `conf_parse`.
pub mod Choices
use cargos_buildroot.Base.{
  ℕ, zero, suc, ◌+◌, ◌-◌, ◌*◌, ◌≤◌, ◌<◌, ◌≡◌, refl, sym, ◌∙◌, subst, Bool, true, false, ◌||◌,
  Option, none, some, List, [], ◌∷◌, if◌then◌else◌, ◌==◌, ◌>>=◌, arith, Bool-cases, Option-cases,
  inl, inr, Ensures, Ensures-bind, Ensures-map, Ensures-some,
}
use cargos_buildroot.Kconfig.Symbol.{Symbol}
use cargos_buildroot.Kconfig.Check.{
  Marks, Checks, CheckOutcome, set, mark, mark_all, unmark, check_symbol, sym_check_sym_deps,
  sym_check_deps, other_than, check_all,
}
use cargos_buildroot.Kconfig.Check.Flags.{
  has, mark_all-checked, unchecked, unchecked-lt, unchecked-all,
}
use cargos_buildroot.Kconfig.Check.Laws.{
  IsClosed, IsMarked, After, After-refl, After-IsMarked, Keeps, Keeps-sym,
}
use cargos_buildroot.Kconfig.Check.Ends.Choices.{Leaves, After-Leaves, unmark-Leaves, choice-Leaves}

-- A value of a choice takes one more call, that for the choice.
abbrev extra : Option Symbol → ℕ
extra none = 1
extra (some c) = 2

extra-le : (o : Option Symbol) → extra o ≤ 2
extra-le none = omega arith
extra-le (some c) = omega arith

extra-ge : (o : Option Symbol) → 1 ≤ extra o
extra-ge none = omega arith
extra-ge (some c) = omega arith

module _ (cs : Checks) (n : ℕ) (closed : IsClosed cs n) where
  mark-IsMarked :
      (m : Marks) (s : Symbol) → cs.choice_of s ≡ none → IsMarked cs n m → IsMarked cs n (mark s m)
  mark-IsMarked m s e i t c h k = elim (Bool-cases (t == s)) [
    | inl p ↦
        let same : t ≡ s = ground arith in
        let there : cs.choice_of s ≡ some c = subst (λ u. cs.choice_of u ≡ some c) same h in cc
    | inr p ↦ let under : m.check t ≡ true = rw p at k in ground (arith, i t c h under)
  ]

  module _ (fuel : ℕ) (check_deps : Symbol → Marks → CheckOutcome)
      (deps_keep : (b : ℕ) (s : Symbol)
        → s < n
        → 2 * b + extra (cs.choice_of s) ≤ fuel
        → Keeps cs n b (check_deps s)) where
    fewer_keep : (b : ℕ) (s : Symbol) → s < n → 2 * b + 2 ≤ fuel → Keeps cs n b (check_deps s)
    fewer_keep b s h k = deps_keep b s h (omega (arith, extra-le (cs.choice_of s)))

    check_symbol-Leaves :
        (b : ℕ) (s : Symbol) (m : Marks)
        → s < n
        → 2 * b + extra (cs.choice_of s) ≤ suc fuel
        → IsMarked cs n m
        → unchecked n m.checked ≤ b
        → m.check s ≡ false
        → m.checked s ≡ false
        → Ensures (Leaves cs n m s) (check_symbol cs check_deps s m)
    unfolding check_symbol
    check_symbol-Leaves b s m h k i l off new = elim (Option-cases (cs.choice_of s)) [
      | inr (c, e) ↦
          let none_there = closed.no_choice_value s c e in
          let room : 2 * b + 2 ≤ suc fuel = rw e at k in
          let child =
            deps_keep b c (closed.choice_below s c e) (rw none_there (omega arith)) m i l in
          rw (check_symbol, e)
            (Ensures-map (After cs n m) (Leaves cs n m s) (check_deps c m) child
              (λ r. After-Leaves cs n m s r))
      | inl e ↦
          let room : 2 * b + 1 ≤ suc fuel = rw e at k in
          elim (Option-cases (cs.values s)) [
            | inr (vs, v) ↦
                let started = mark s (mark_all vs m) in
                let less =
                  unchecked-lt n m.checked started.checked s
                    (λ t p. ground (arith, mark_all-checked vs m t p)) h new (ground arith) in
                rw (check_symbol, e, v)
                  (choice-Leaves cs n closed m i s vs v off new (b - 1) check_deps
                    (λ t p. fewer_keep (b - 1) t p (omega arith)) (omega arith))
            | inl v ↦
                let started = mark s m in
                let less =
                  unchecked-lt n m.checked started.checked s (λ t p. ground (arith, p)) h new
                    (ground arith) in
                rw (check_symbol, e, v)
                  (Ensures-bind (After cs n started) (Leaves cs n m s)
                    (sym_check_sym_deps cs check_deps s started) (λ r. some (r.0, unmark s r.1))
                    (Keeps-sym cs n (b - 1) check_deps (λ t p. fewer_keep (b - 1) t p (omega arith))
                      closed s started (mark-IsMarked m s e i) (omega arith))
                    (λ r a. unmark-Leaves cs n m s r off a))
          ]
    ]

  some_eq : (a b : Symbol) → some a ≡ some b → a ≡ b
  some_eq a b h = cc

  sym_check_deps-Keeps :
      (fuel b : ℕ) (s : Symbol)
      → s < n
      → 2 * b + extra (cs.choice_of s) ≤ fuel
      → Keeps cs n b (sym_check_deps cs fuel s)
  unfolding sym_check_deps
  sym_check_deps-Keeps zero b s h k m i l = absurd (omega (arith, extra-ge (cs.choice_of s)))
  sym_check_deps-Keeps (suc fuel) b s h k m i l = elim (Bool-cases (m.check s)) [
    | inl e ↦ rw e (record {
      same = λ t. refl;
      grows = λ t p. p;
      found = λ t p. subst (λ u. m.check u ≡ true) (some_eq s t p) e;
    })
    | inr e ↦ elim (Bool-cases (m.checked s)) [
      | inl d ↦ rw (e, d) (After-refl cs n m)
      | inr d ↦
          rw (e, d)
            (Ensures-bind (Leaves cs n m s) (After cs n m)
              (check_symbol cs (sym_check_deps cs fuel) s m) (λ r. some (other_than s r.0, r.1))
              (check_symbol-Leaves fuel (sym_check_deps cs fuel)
                (λ b' t p q. sym_check_deps-Keeps fuel b' t p q) b s m h k i l e d)
              (λ r a. a))
    ]
  ]

abbrev pub IsClear : Marks → Type 0
IsClear m = (t : Symbol) → m.check t ≡ false

abbrev pub AllUnder : ℕ → List Symbol → Type 0
AllUnder n [] = Unit {0}
AllUnder n (s ∷ ss) = (s < n) × AllUnder n ss

-- Let the symbols and those of their properties have numbers below `n`, a choice's values be the symbols that are a
-- value of it, and no symbol have the flag SYMBOL_CHECK; let the fuel be 2 more than twice `n`. Then the checks of
-- any list of symbols end, no symbol has the flag afterwards, and no error is counted, whether or not there are
-- recursive dependencies.
pub check_all_no_error :
    (cs : Checks) (n fuel : ℕ) (ss : List Symbol) (m : Marks)
    → IsClosed cs n
    → AllUnder n ss
    → IsClear m
    → 2 * n + 2 ≤ fuel
    → (m' : Marks) × (check_all cs fuel ss m ≡ some (0, m')) × IsClear m'
unfolding check_all
check_all_no_error cs n fuel [] m closed b c k = (m, refl, c)
check_all_no_error cs n fuel (s ∷ ss) m closed b c k =
    let keeps =
      sym_check_deps-Keeps cs n closed fuel n s b.0 (omega (arith, extra-le (cs.choice_of s))) m
        (λ t d p q. absurd (ground (arith, c t, q))) (unchecked-all n m.checked) in
    let first = Ensures-some (After cs n m) (sym_check_deps cs fuel s m) keeps in
    let r = first.0 in
    let after = first.2 in
    let rest = check_all_no_error cs n fuel ss r.1 closed b.1 (λ t. after.same t ∙ c t) k in
    elim (Option-cases r.0) [
      | inl e ↦ (rest.0, rw (first.1, rest.1, e) refl, rest.2)
      | inr (t, e) ↦ absurd (ground (arith, c t, after.found t e))
    ]
