-- ===== src/Kconfig/Check/Covers.antt =====
-- support/kconfig/symbol.c: the messages about recursive dependencies, where there are no choices: what the checks of expressions cover.
use cargos_buildroot.Base.{
  ◌≤◌, ◌<◌, ◌≡◌, refl, sym, ◌∙◌, ◌⊎◌, Bool, true, false, ◌&&◌, ◌||◌, not, Option, none, some, List,
  [], ◌∷◌, ◌++◌, if◌then◌else◌, ◌==◌, arith, Bool-cases, inl, inr, Allows, Allows-bind, Allows-map,
}
use cargos_buildroot.Kconfig.Symbol.{Symbol}
use cargos_buildroot.Kconfig.Expr.{Expr, e_symbol, e_not, e_equal, e_unequal, e_or, e_and}
use cargos_buildroot.Kconfig.Menu.Deps.{PropertyData}
use cargos_buildroot.Kconfig.Check.{
  Marks, Checks, CheckOutcome, unless_found, then_check, no_check, sym_check_expr_deps,
  check_pointer, is_skipped, is_default, default_expr, check_prop, check_props, sym_check_sym_deps,
}
use cargos_buildroot.Kconfig.Check.Flags.{has}

-- The symbols of an expression, of a pointer to one, of properties, and all that a symbol depends on.
abbrev pub symbols_of : Expr → List Symbol
symbols_of (e_symbol s) = s ∷ []
symbols_of (e_not e) = symbols_of e
symbols_of (e_or l r) = symbols_of l ++ symbols_of r
symbols_of (e_and l r) = symbols_of l ++ symbols_of r
symbols_of (e_equal a b) = (a ∷ []) ++ (b ∷ [])
symbols_of (e_unequal a b) = (a ∷ []) ++ (b ∷ [])

abbrev pub symbols_at : Option Expr → List Symbol
symbols_at none = []
symbols_at (some e) = symbols_of e

abbrev pub symbols_if : Bool → List Symbol → List Symbol
symbols_if true ss = ss
symbols_if false ss = []

abbrev pub props_symbols : List PropertyData → List Symbol
props_symbols [] = []
props_symbols (prop ∷ props) =
    symbols_if (not (is_skipped prop.type)) (
      symbols_at prop.visible ++ symbols_if (is_default prop.type) (symbols_at (default_expr prop)))
    ++ props_symbols props

abbrev pub dependencies : Checks → Symbol → List Symbol
dependencies cs s = symbols_at (cs.rev_dep s) ++ props_symbols (cs.props s)

-- No chain of dependencies goes on from the symbol without end; so there is no cycle that it reaches.
pub data IsGrounded (cs : Checks) : Symbol → Type 0 where
  grounded :
      {s : Symbol}
      → ((t : Symbol) → has (dependencies cs s) t ≡ true → IsGrounded cs t)
      → IsGrounded cs s

has-append : (xs ys : List Symbol) (t : Symbol) → has (xs ++ ys) t ≡ (has xs t || has ys t)
has-append [] ys t = refl
has-append (x ∷ xs) ys t = elim (Bool-cases (t == x)) [
  | inl e ↦ rw e refl
  | inr e ↦ rw e (has-append xs ys t)
]

module _ (cs : Checks) where
  abbrev pub IsDone : Marks → Symbol → Type 0
  IsDone m t = (m.checked t ≡ true) × (m.check t ≡ false)

  abbrev pub DoneGrounded : Marks → Type 0
  DoneGrounded m = (t : Symbol) → IsDone m t → IsGrounded cs t

  -- A check without a message: the symbols that it was for are done, and all that are done are grounded.
  pub record Fine (ts : List Symbol) (m : Marks) (r : Option Symbol × Marks) : Type 0 where
    pub nothing_found : r.0 ≡ none
    pub silent : r.1.reports ≡ m.reports
    pub same : (t : Symbol) → r.1.check t ≡ m.check t
    pub grows : (t : Symbol) → m.checked t ≡ true → r.1.checked t ≡ true
    pub done : (t : Symbol) → has ts t ≡ true → IsDone r.1 t
    pub all_grounded : DoneGrounded r.1

  abbrev pub Post : List Symbol → Marks → Option Symbol × Marks → Type 0
  Post ts m r = (m.reports < r.1.reports) ⊎ Fine ts m r

  abbrev pub Later : Marks → Option Symbol × Marks → Type 0
  Later m r = m.reports ≤ r.1.reports

  -- Messages are only added; and where those that are done are grounded, there is one, or the symbols are done too.
  abbrev pub Covers : List Symbol → (Marks → CheckOutcome) → Type 0
  Covers ts act =
      ((m : Marks) → Allows (Later m) (act m))
      × ((m : Marks) → DoneGrounded m → Allows (Post ts m) (act m))

  pub Covers-no_check : Covers [] no_check
  Covers-no_check = (
    λ m. omega arith,
    λ m g. inr (record {
      nothing_found = refl;
      silent = refl;
      same = λ t. refl;
      grows = λ t h. h;
      done = λ t h. absurd (ground (arith, h));
      all_grounded = g;
    }),
  )

  pub Post-trans :
      (ts us : List Symbol) (m : Marks) (r r' : Option Symbol × Marks)
      → Fine ts m r
      → Post us r.1 r'
      → Post (ts ++ us) m r'
  Post-trans ts us m r r' f (inl l) = inl (ground (arith, f.silent, l))
  Post-trans ts us m r r' f (inr f') = inr (record {
    nothing_found = f'.nothing_found;
    silent = f'.silent ∙ f.silent;
    same = λ t. f'.same t ∙ f.same t;
    grows = λ t h. f'.grows t (f.grows t h);
    done = λ t h.
        let either : (has ts t || has us t) ≡ true = sym (has-append ts us t) ∙ h in
        elim (Bool-cases (has ts t)) [
          | inl e ↦ let d = f.done t e in (f'.grows t d.0, f'.same t ∙ d.1)
          | inr e ↦ f'.done t (rw e at either)
        ];
    all_grounded = f'.all_grounded;
  })

  unless_found-Later :
      (next : Marks → CheckOutcome) (m : Marks) (r : Option Symbol × Marks)
      → ((m : Marks) → Allows (Later m) (next m))
      → Later m r
      → Allows (Later m) (unless_found next r)
  unfolding unless_found
  unless_found-Later next m (some s, m') k l = l
  unless_found-Later next m (none, m') k l =
      Allows-map (Later m') (Later m) (next m') (k m') (λ r h. omega (arith, l, h))

  unless_found-Post :
      (ts us : List Symbol) (next : Marks → CheckOutcome) (m : Marks) (r : Option Symbol × Marks)
      → Covers us next
      → Post ts m r
      → Allows (Post (ts ++ us) m) (unless_found next r)
  unfolding unless_found
  unless_found-Post ts us next m (some s, m') k (inl l) = inl l
  unless_found-Post ts us next m (some s, m') k (inr f) = absurd (not_found s f.nothing_found)
    where
      not_found : (s : Symbol) → some s ≡ none → ⊥
      not_found s h = cc
  unless_found-Post ts us next m (none, m') k (inl l) =
      Allows-map (Later m') (Post (ts ++ us) m) (next m') (k.0 m')
        (λ r h. inl (omega (arith, l, h)))
  unless_found-Post ts us next m (none, m') k (inr f) =
      Allows-map (Post us m') (Post (ts ++ us) m) (next m') (k.1 m' f.all_grounded)
        (λ r h. Post-trans ts us m (none, m') r f h)

  Covers-then_check :
      (ts us : List Symbol) (act next : Marks → CheckOutcome)
      → Covers ts act
      → Covers us next
      → Covers (ts ++ us) (then_check act next)
  Covers-then_check ts us act next h k = (
    λ m.
        Allows-bind (Later m) (Later m) (act m) (unless_found next) (h.0 m)
          (λ r l. unless_found-Later next m r k.0 l),
    λ m g.
        Allows-bind (Post ts m) (Post (ts ++ us) m) (act m) (unless_found next) (h.1 m g)
          (λ r p. unless_found-Post ts us next m r k p),
  )

  module _ (check_deps : Symbol → Marks → CheckOutcome)
      (deps_cover : (s : Symbol) → Covers (s ∷ []) (check_deps s)) where
    Covers-expr : (e : Expr) → Covers (symbols_of e) (sym_check_expr_deps check_deps e)
    unfolding sym_check_expr_deps
    Covers-expr (e_symbol s) = deps_cover s
    Covers-expr (e_not e) = Covers-expr e
    Covers-expr (e_or l r) =
        Covers-then_check (symbols_of l) (symbols_of r) (sym_check_expr_deps check_deps l)
          (sym_check_expr_deps check_deps r) (Covers-expr l) (Covers-expr r)
    Covers-expr (e_and l r) =
        Covers-then_check (symbols_of l) (symbols_of r) (sym_check_expr_deps check_deps l)
          (sym_check_expr_deps check_deps r) (Covers-expr l) (Covers-expr r)
    Covers-expr (e_equal s t) =
        Covers-then_check (s ∷ []) (t ∷ []) (check_deps s) (check_deps t) (deps_cover s)
          (deps_cover t)
    Covers-expr (e_unequal s t) =
        Covers-then_check (s ∷ []) (t ∷ []) (check_deps s) (check_deps t) (deps_cover s)
          (deps_cover t)

    Covers-pointer : (o : Option Expr) → Covers (symbols_at o) (check_pointer check_deps o)
    Covers-pointer none = Covers-no_check
    Covers-pointer (some e) = Covers-expr e

    Covers-if :
        (b : Bool) (ts : List Symbol) (act : Marks → CheckOutcome)
        → Covers ts act
        → Covers (symbols_if b ts) (if b && not false then act else no_check)
    Covers-if true ts act h = h
    Covers-if false ts act h = Covers-no_check

    Covers-unless :
        (b : Bool) (ts : List Symbol) (act : Marks → CheckOutcome)
        → Covers ts act
        → Covers (symbols_if (not b) ts) (if b then no_check else act)
    Covers-unless true ts act h = Covers-no_check
    Covers-unless false ts act h = h

    Covers-props :
        (props : List PropertyData)
        → Covers (props_symbols props) (check_props check_deps false props)
    unfolding check_props check_prop
    Covers-props [] = Covers-no_check
    Covers-props (prop ∷ props) =
        let visible = check_pointer check_deps prop.visible in
        let default = check_pointer check_deps (default_expr prop) in
        let act : Marks → CheckOutcome =
          if is_default prop.type && not false then default else no_check in
        let defaults = symbols_if (is_default prop.type) (symbols_at (default_expr prop)) in
        let ts = symbols_at prop.visible ++ defaults in
        Covers-then_check (symbols_if (not (is_skipped prop.type)) ts) (props_symbols props)
          (check_prop check_deps false prop) (check_props check_deps false props)
          (Covers-unless (is_skipped prop.type) ts (then_check visible act) (
            Covers-then_check (symbols_at prop.visible) defaults visible act
              (Covers-pointer prop.visible)
              (Covers-if (is_default prop.type) (symbols_at (default_expr prop)) default
                (Covers-pointer (default_expr prop)))))
          (Covers-props props)

    pub Covers-sym :
        (s : Symbol)
        → cs.values s ≡ none
        → Covers (dependencies cs s) (sym_check_sym_deps cs check_deps s)
    unfolding sym_check_sym_deps
    Covers-sym s v = rw v (
        Covers-then_check (symbols_at (cs.rev_dep s)) (props_symbols (cs.props s))
          (check_pointer check_deps (cs.rev_dep s)) (check_props check_deps false (cs.props s))
          (Covers-pointer (cs.rev_dep s)) (Covers-props (cs.props s)))
