-- ===== src/Kconfig/Check/Grounded.antt =====
-- support/kconfig/symbol.c: the messages about recursive dependencies, where there are no choices.
use cargos_buildroot.Base.{
  ℕ, zero, suc, ◌+◌, ◌*◌, ◌≤◌, ◌<◌, ◌≡◌, refl, sym, subst, ◌⊎◌, true, false, Option, none, some,
  List, [], ◌∷◌, ◌==◌, ◌>>=◌, arith, Bool-cases, inl, inr, Allows, Allows-bind,
}
use cargos_buildroot.Kconfig.Symbol.{Symbol}
use cargos_buildroot.Kconfig.Check.{
  Marks, Checks, CheckOutcome, mark, unmark, sym_check_sym_deps, check_symbol, sym_check_deps,
  other_than, check_all,
}
use cargos_buildroot.Kconfig.Check.Flags.{has}
use cargos_buildroot.Kconfig.Check.Laws.{IsClosed}
use cargos_buildroot.Kconfig.Check.Ends.{IsClear, AllUnder, check_all_no_error}
use cargos_buildroot.Kconfig.Check.Covers.{
  dependencies, IsGrounded, grounded, IsDone, DoneGrounded, Fine, Post, Covers, Later,
  Covers-no_check, Post-trans, Covers-sym,
}

module _ (cs : Checks) where
  -- After the check of what a symbol depends on, the symbol is done.
  unmark-Post :
      (s : Symbol) (m : Marks) (r : Option Symbol × Marks)
      → m.check s ≡ false
      → Post cs (dependencies cs s) (mark s m) r
      → Post cs (s ∷ []) m (other_than s r.0, unmark s r.1)
  unmark-Post s m r off (inl l) = inl l
  unmark-Post s m r off (inr f) = inr (record {
    nothing_found = rw f.nothing_found refl;
    silent = f.silent;
    same = λ t. elim (Bool-cases (t == s)) [
      | inl e ↦
          let same : t ≡ s = ground arith in
          let off' : m.check t ≡ false = subst (λ u. m.check u ≡ false) (sym same) off in
          rw (e, off') refl
      | inr e ↦ rw (e, f.same t, e) refl
    ];
    grows = λ t h. f.grows t (ground (arith, h));
    done = λ t h.
        let same : t ≡ s = ground (arith, h) in
        let itself : (t == s) ≡ true = ground (arith, h) in
        (f.grows t (rw itself refl), rw itself refl);
    all_grounded = λ t d. elim (Bool-cases (t == s)) [
      | inl e ↦
          let same : s ≡ t = ground arith in
          subst (IsGrounded cs) same (grounded (λ u h. f.all_grounded u (f.done u h)))
      | inr e ↦ let off' : r.1.check t ≡ false = rw e at d.1 in f.all_grounded t (d.0, off')
    ];
  })

  already :
      (s : Symbol) (m : Marks)
      → m.check s ≡ false
      → m.checked s ≡ true
      → DoneGrounded cs m
      → Fine cs (s ∷ []) m (none, m)
  already s m off met g = record {
    nothing_found = refl;
    silent = refl;
    same = λ t. refl;
    grows = λ t h. h;
    done = λ t h. let same : s ≡ t = ground (arith, h) in subst (IsDone cs m) same (met, off);
    all_grounded = g;
  }

  marked_grounded : (s : Symbol) (m : Marks) → DoneGrounded cs m → DoneGrounded cs (mark s m)
  marked_grounded s m g t d = elim (Bool-cases (t == s)) [
    | inl e ↦ let on : true ≡ false = rw e at d.1 in absurd (ground (arith, on))
    | inr e ↦
        let met : m.checked t ≡ true = rw e at d.0 in
        let off : m.check t ≡ false = rw e at d.1 in g t (met, off)
  ]

  module _ (no_choices : (s : Symbol) → (cs.choice_of s ≡ none) × (cs.values s ≡ none)) where
    check_symbol_plain :
        (check_deps : Symbol → Marks → CheckOutcome) (s : Symbol) (m : Marks) (o : CheckOutcome)
        → o ≡ (sym_check_sym_deps cs check_deps s (mark s m) >>= λ r. some (r.0, unmark s r.1))
        → check_symbol cs check_deps s m ≡ o
    unfolding check_symbol
    check_symbol_plain check_deps s m o h =
        rw (check_symbol, (no_choices s).0, (no_choices s).1) (sym h)

    check_symbol-Allows :
        (check_deps : Symbol → Marks → CheckOutcome) (s : Symbol) (m : Marks)
        (P Q : Option Symbol × Marks → Type 0)
        → Allows P (sym_check_sym_deps cs check_deps s (mark s m))
        → ((r : Option Symbol × Marks) → P r → Q (other_than s r.0, unmark s r.1))
        → Allows Q (check_symbol cs check_deps s m >>= λ r. some (other_than s r.0, r.1))
    check_symbol-Allows check_deps s m P Q h k =
        let body = sym_check_sym_deps cs check_deps s (mark s m) in
        let after : Option Symbol × Marks → Type 0 = λ r. Q (other_than s r.0, r.1) in
        rw (check_symbol_plain check_deps s m (body >>= λ r. some (r.0, unmark s r.1)) refl) (
          Allows-bind after Q (body >>= λ r. some (r.0, unmark s r.1))
            (λ r. some (other_than s r.0, r.1))
            (Allows-bind P after body (λ r. some (r.0, unmark s r.1)) h k) (λ r q. q))

    Covers-sym_check_deps : (fuel : ℕ) (s : Symbol) → Covers cs (s ∷ []) (sym_check_deps cs fuel s)
    unfolding sym_check_deps
    Covers-sym_check_deps zero s = (λ m. tt, λ m g. tt)
    Covers-sym_check_deps (suc fuel) s =
        let check_deps = sym_check_deps cs fuel in
        let body = Covers-sym cs check_deps (Covers-sym_check_deps fuel) s (no_choices s).1 in
        (
          λ m. elim (Bool-cases (m.check s)) [
            | inl e ↦ rw e (omega arith)
            | inr e ↦ elim (Bool-cases (m.checked s)) [
              | inl d ↦ rw (e, d) (omega arith)
              | inr d ↦
                  rw (e, d)
                    (check_symbol-Allows check_deps s m (Later cs (mark s m)) (Later cs m)
                      (body.0 (mark s m)) (λ r l. l))
            ]
          ],
          λ m g. elim (Bool-cases (m.check s)) [
            | inl e ↦ rw e (inl (omega arith))
            | inr e ↦ elim (Bool-cases (m.checked s)) [
              | inl d ↦ rw (e, d) (inr (already s m e d g))
              | inr d ↦
                  rw (e, d)
                    (check_symbol-Allows check_deps s m (Post cs (dependencies cs s) (mark s m))
                      (Post cs (s ∷ []) m) (body.1 (mark s m) (marked_grounded s m g))
                      (λ r p. unmark-Post s m r e p))
            ]
          ],
        )

    check_all-Later :
        (fuel : ℕ) (ss : List Symbol) (m : Marks)
        → Allows (λ q. m.reports ≤ q.1.reports) (check_all cs fuel ss m)
    unfolding check_all
    check_all-Later fuel [] m = omega arith
    check_all-Later fuel (s ∷ ss) m =
        let later : ℕ × Marks → Type 0 = λ q. m.reports ≤ q.1.reports in
        Allows-bind (Later cs m) later (sym_check_deps cs fuel s m)
          (λ r. check_all cs fuel ss r.1 >>= λ q.
            some (elim r.0 [ none ↦ q.0 | some t ↦ suc q.0 ], q.1))
          ((Covers-sym_check_deps fuel s).0 m)
          (λ r l.
            Allows-bind (λ q. r.1.reports ≤ q.1.reports) later (check_all cs fuel ss r.1)
              (λ q. some (elim r.0 [ none ↦ q.0 | some t ↦ suc q.0 ], q.1))
              (check_all-Later fuel ss r.1) (λ q k. omega (arith, l, k)))

    check_all-Post :
        (fuel : ℕ) (ss : List Symbol) (m : Marks)
        → DoneGrounded cs m
        → Allows (λ q. Post cs ss m (none, q.1)) (check_all cs fuel ss m)
    unfolding check_all
    check_all-Post fuel [] m g = (Covers-no_check cs).1 m g
    check_all-Post fuel (s ∷ ss) m g =
        let post : ℕ × Marks → Type 0 = λ q. Post cs (s ∷ ss) m (none, q.1) in
        Allows-bind (Post cs (s ∷ []) m) post (sym_check_deps cs fuel s m)
          (λ r. check_all cs fuel ss r.1 >>= λ q.
            some (elim r.0 [ none ↦ q.0 | some t ↦ suc q.0 ], q.1))
          ((Covers-sym_check_deps fuel s).1 m g)
          (λ r p. elim p [
            | inl l ↦
                Allows-bind (λ q. r.1.reports ≤ q.1.reports) post (check_all cs fuel ss r.1)
                  (λ q. some (elim r.0 [ none ↦ q.0 | some t ↦ suc q.0 ], q.1))
                  (check_all-Later fuel ss r.1) (λ q k. inl (omega (arith, l, k)))
            | inr f ↦
                Allows-bind (λ q. Post cs ss r.1 (none, q.1)) post (check_all cs fuel ss r.1)
                  (λ q. some (elim r.0 [ none ↦ q.0 | some t ↦ suc q.0 ], q.1))
                  (check_all-Post fuel ss r.1 f.all_grounded)
                  (λ q k. Post-trans cs (s ∷ []) ss m r (none, q.1) f k)
          ])

-- Let there be no choices, the symbols and those of their properties have numbers below `n`, no symbol have one of the
-- two flags, and the fuel be 2 more than twice `n`. Then the checks of any list of symbols end, and either a message
-- about a recursive dependency was printed, or no chain of dependencies from a symbol of the list goes on without end.
pub check_all-IsGrounded :
    (cs : Checks) (n fuel : ℕ) (ss : List Symbol) (m : Marks)
    → IsClosed cs n
    → ((s : Symbol) → (cs.choice_of s ≡ none) × (cs.values s ≡ none))
    → AllUnder n ss
    → IsClear m
    → ((t : Symbol) → m.checked t ≡ false)
    → 2 * n + 2 ≤ fuel
    → (m' : Marks) × (check_all cs fuel ss m ≡ some (0, m'))
      × ((m.reports < m'.reports) ⊎ ((s : Symbol) → has ss s ≡ true → IsGrounded cs s))
check_all-IsGrounded cs n fuel ss m closed no_choices b c new k =
    let ends = check_all_no_error cs n fuel ss m closed b c k in
    let post =
      check_all-Post cs no_choices fuel ss m (λ t d. absurd (ground (arith, new t, d.0))) in
    let at_end : Allows {A = ℕ × Marks} (λ q. Post cs ss m (none, q.1)) (some (0, ends.0)) =
      subst (Allows {A = ℕ × Marks} (λ q. Post cs ss m (none, q.1))) ends.1 post in
    (
      ends.0,
      ends.1,
      elim at_end [ inl l ↦ inl l | inr f ↦ inr (λ s h. f.all_grounded s (f.done s h)) ],
    )
