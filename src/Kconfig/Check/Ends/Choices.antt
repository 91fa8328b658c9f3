-- ===== src/Kconfig/Check/Ends/Choices.antt =====
-- support/kconfig/symbol.c: the checks of a symbol and of a choice, with their flags set and cleared.
use cargos_buildroot.Base.{
  ℕ, ◌≤◌, ◌<◌, ◌≡◌, refl, ap, sym, ◌∙◌, subst, Bool, true, false, ◌&&◌, ◌||◌, not, Option, none,
  some, List, if◌then◌else◌, ◌==◌, ◌>>=◌, arith, Bool-cases, inl, inr, Ensures, Ensures-bind,
  Ensures-map,
}
use cargos_buildroot.Kconfig.Symbol.{Symbol}
use cargos_buildroot.Kconfig.Check.{
  Marks, Checks, CheckOutcome, set, mark, unmark, mark_all, unmark_all, unless_found,
  sym_check_sym_deps, check_values, is_value_of, found_choice, sym_check_choice_deps, other_than,
}
use cargos_buildroot.Kconfig.Check.Flags.{
  has, mark_all-check, mark_all-checked, unmark_all-check, unmark_all-checked, unchecked,
  unchecked-le,
}
use cargos_buildroot.Kconfig.Check.Laws.{IsClosed, IsMarked, After, Keeps, Keeps-sym, Keeps-values}

some_eq : (a b : Symbol) → some a ≡ some b → a ≡ b
some_eq a b h = cc

pub other_than-found :
    (s : Symbol) (o : Option Symbol) (t : Symbol)
    → other_than s o ≡ some t
    → (o ≡ some t) × ((t == s) ≡ false)
other_than-found s none t h = cc
other_than-found s (some u) t h = elim (Bool-cases (u == s)) [
  | inl e ↦ let gone : other_than s (some u) ≡ none = rw e refl in cc
  | inr e ↦
      let same : some u ≡ some t = rw e at h in
      (same, subst (λ v. (v == s) ≡ false) (some_eq u t same) e)
]

module _ (cs : Checks) (n : ℕ) where
  -- What a check leaves before the symbol itself is taken out of the result.
  abbrev pub Leaves : Marks → Symbol → Option Symbol × Marks → Type 0
  Leaves m s r = After cs n m (other_than s r.0, r.1)

  pub After-Leaves :
      (m : Marks) (s : Symbol) (r : Option Symbol × Marks) → After cs n m r → Leaves m s r
  After-Leaves m s r a = record {
    same = a.same;
    grows = a.grows;
    found = λ t h. a.found t (other_than-found s r.0 t h).0;
  }

  pub unmark-Leaves :
      (m : Marks) (s : Symbol) (r : Option Symbol × Marks)
      → m.check s ≡ false
      → After cs n (mark s m) r
      → Leaves m s (r.0, unmark s r.1)
  unmark-Leaves m s r off a = record {
    same = λ t. elim (Bool-cases (t == s)) [
      | inl e ↦ let same : t ≡ s = ground arith in rw (e, same, off) refl
      | inr e ↦ rw (e, a.same t, e) refl
    ];
    grows = λ t h. a.grows t (ground (arith, h));
    found = λ t h.
        let u = other_than-found s r.0 t h in
        let under : set m.check s t ≡ true = a.found t u.0 in rw u.1 at under;
  }

module _ (cs : Checks) (n : ℕ) (closed : IsClosed cs n) (m : Marks) (marked : IsMarked cs n m) where
  -- Between the check of a choice and the end of the checks of its values.
  module _ (c : Symbol) (vs : List Symbol) (is_choice : cs.values c ≡ some vs)
      (off : m.check c ≡ false) (new : m.checked c ≡ false) where
    record Between (r : Option Symbol × Marks) : Type 0 where
      same : (t : Symbol) → r.1.check t ≡ (if t == c then false else (has vs t || m.check t))
      grows : (t : Symbol) → m.checked t ≡ true → r.1.checked t ≡ true
      met : r.1.checked c ≡ true
      found : (t : Symbol) → r.0 ≡ some t → ((t == c) || (has vs t || m.check t)) ≡ true

    abbrev pub started : Marks
    started = mark c (mark_all vs m)

    started-check : (t : Symbol) → started.check t ≡ ((t == c) || (has vs t || m.check t))
    started-check t = elim (Bool-cases (t == c)) [
      | inl e ↦ rw e refl
      | inr e ↦ rw e (mark_all-check vs m t)
    ]

    started-checked : (t : Symbol) → m.checked t ≡ true → started.checked t ≡ true
    started-checked t h = ground (arith, mark_all-checked vs m t h)

    -- A value that is under way belongs to a choice that was met before, or to this one.
    value_met :
        (checked : Symbol → Bool) (t d : Symbol)
        → ((u : Symbol) → m.checked u ≡ true → checked u ≡ true)
        → checked c ≡ true
        → cs.choice_of t ≡ some d
        → (has vs t || m.check t) ≡ true
        → checked d ≡ true
    value_met checked t d g k h w = elim (Bool-cases (has vs t)) [
      | inl e ↦
          subst (λ u. checked u ≡ true) (some_eq c d (sym (closed.value_of c vs t is_choice e) ∙ h))
            k
      | inr e ↦ g d (marked t d h (rw e at w))
    ]

    not_value_of : (t : Symbol) (d : Symbol) → cs.choice_of t ≡ some d → (t == c) ≡ false
    not_value_of t d h = elim (Bool-cases (t == c)) [
      | inl e ↦
          let same : t ≡ c = ground arith in
          let none_there = closed.no_value c vs is_choice in
          let there : cs.choice_of c ≡ some d = subst (λ u. cs.choice_of u ≡ some d) same h in cc
      | inr e ↦ e
    ]

    started-IsMarked : IsMarked cs n started
    started-IsMarked t d h k =
        let under : ((t == c) || (has vs t || m.check t)) ≡ true = sym (started-check t) ∙ k in
        value_met started.checked t d started-checked (ground arith) h
          (rw (not_value_of t d h) at under)

    started-Between :
        (r : Option Symbol × Marks) → After cs n started r → Between (r.0, unmark c r.1)
    started-Between r a = record {
      same = λ t. elim (Bool-cases (t == c)) [
        | inl e ↦ rw e refl
        | inr e ↦ rw e (a.same t ∙ (started-check t ∙ rw e refl))
      ];
      grows = λ t h. a.grows t (started-checked t h);
      met = a.grows c (ground arith);
      found = λ t h. sym (started-check t) ∙ a.found t h;
    }

    Between-IsMarked : (r : Option Symbol × Marks) → Between r → IsMarked cs n r.1
    Between-IsMarked r w t d h k =
        let under : (if t == c then false else (has vs t || m.check t)) ≡ true =
          sym (w.same t) ∙ k in
        value_met r.1.checked t d w.grows w.met h (rw (not_value_of t d h) at under)

    Between-trans : (r r' : Option Symbol × Marks) → Between r → After cs n r.1 r' → Between r'
    Between-trans r r' w a = record {
      same = λ t. a.same t ∙ w.same t;
      grows = λ t h. a.grows t (w.grows t h);
      met = a.grows c w.met;
      found = λ t h.
          let under : (if t == c then false else (has vs t || m.check t)) ≡ true =
            sym (w.same t) ∙ a.found t h in
          elim (Bool-cases (t == c)) [
            | inl e ↦ rw e refl
            | inr e ↦
                let under' : (has vs t || m.check t) ≡ true = rw e at under in rw (e, under') refl
          ];
    }

    value_off : (t : Symbol) → has vs t ≡ true → m.check t ≡ false
    value_off t h = elim (Bool-cases (m.check t)) [
      | inl e ↦
          let met = marked t c (closed.value_of c vs t is_choice h) e in
          absurd (ground (arith, met, new))
      | inr e ↦ e
    ]

    values_cleared :
        (t : Symbol)
        → (not (has vs t) && (if t == c then false else (has vs t || m.check t))) ≡ m.check t
    values_cleared t = elim (Bool-cases (has vs t)) [
      | inl e ↦ rw (e, value_off t e) refl
      | inr e ↦ elim (Bool-cases (t == c)) [
        | inl k ↦
            let same : t ≡ c = ground arith in
            let off' : m.check t ≡ false = subst (λ u. m.check u ≡ false) (sym same) off in
            rw (e, k, off') refl
        | inr k ↦ rw (e, k) refl
      ]
    ]

    found_choice-other :
        (o : Option Symbol) (t : Symbol)
        → ((u : Symbol) → o ≡ some u → ((u == c) || (has vs u || m.check u)) ≡ true)
        → other_than c (found_choice cs c o) ≡ some t
        → m.check t ≡ true
    found_choice-other none t w h = cc
    found_choice-other (some u) t w h = elim (Bool-cases (is_value_of c (cs.choice_of u))) [
      | inl e ↦
          let itself : (c == c) ≡ true = ground arith in
          let gone : other_than c (found_choice cs c (some u)) ≡ none = rw (e, itself) refl in cc
      | inr e ↦
          let left : other_than c (some u) ≡ some t = rw e at h in
          let other = other_than-found c (some u) t left in
          let under : (has vs t || m.check t) ≡ true = rw other.1 at (w t other.0) in
          elim (Bool-cases (has vs t)) [
            | inr k ↦ rw k at under
            | inl k ↦
                let same = some_eq u t other.0 in
                let of =
                  subst (λ v. cs.choice_of v ≡ some c) (sym same)
                    (closed.value_of c vs t is_choice k) in
                let no : (c == c) ≡ false = rw of at e in absurd (ground (arith, no))
          ]
    ]

    Between-Leaves :
        (r : Option Symbol × Marks)
        → Between r
        → Leaves cs n m c (found_choice cs c r.0, unmark_all vs r.1)
    Between-Leaves r w = record {
      same = λ t.
          unmark_all-check vs r.1 t ∙ (ap (λ b. not (has vs t) && b) (w.same t) ∙ values_cleared t);
      grows = λ t h. unmark_all-checked vs r.1 t ∙ w.grows t h;
      found = λ t h. found_choice-other r.0 t w.found h;
    }

    values-Between :
        (b : ℕ) (check_deps : Symbol → Marks → CheckOutcome) (r : Option Symbol × Marks)
        → ((s : Symbol) → s < n → Keeps cs n b (check_deps s))
        → Between r
        → unchecked n r.1.checked ≤ b
        → Ensures Between (unless_found (check_values cs check_deps vs) r)
    unfolding unless_found
    values-Between b check_deps (some s, m') keeps w l = w
    values-Between b check_deps (none, m') keeps w l =
        Ensures-map (After cs n m') Between (check_values cs check_deps vs m')
          (Keeps-values cs n b check_deps keeps closed vs m' (Between-IsMarked (none, m') w) l)
          (λ r' a. Between-trans (none, m') r' w a)

    -- With fewer symbols left than before, the checks of the symbol and of the values of the choice.
    pub choice-Leaves :
        (b : ℕ) (check_deps : Symbol → Marks → CheckOutcome)
        → ((s : Symbol) → s < n → Keeps cs n b (check_deps s))
        → unchecked n started.checked ≤ b
        → Ensures (Leaves cs n m c) (sym_check_choice_deps cs check_deps c vs m)
    unfolding sym_check_choice_deps
    choice-Leaves b check_deps keeps l =
        let values = check_values cs check_deps vs in
        Ensures-bind (After cs n started) (Leaves cs n m c)
          (sym_check_sym_deps cs check_deps c started)
          (λ r. unless_found values (r.0, unmark c r.1) >>= λ r.
            some (found_choice cs c r.0, unmark_all vs r.1))
          (Keeps-sym cs n b check_deps keeps closed c started started-IsMarked l)
          (λ r a.
            let fewer = unchecked-le n started.checked r.1.checked a.grows in
            Ensures-bind Between (Leaves cs n m c) (unless_found values (r.0, unmark c r.1))
              (λ r. some (found_choice cs c r.0, unmark_all vs r.1))
              (values-Between b check_deps (r.0, unmark c r.1) keeps (started-Between r a)
                (omega arith))
              Between-Leaves)
