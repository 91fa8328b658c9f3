-- ===== src/Kconfig/Check/Laws.antt =====
-- support/kconfig/symbol.c: what the checks of one symbol's expressions leave, given what `sym_check_deps` leaves.
use cargos_buildroot.Base.{
  ℕ, ◌≤◌, ◌<◌, ◌≡◌, refl, sym, ◌∙◌, Bool, true, false, ◌&&◌, not, Option, none, some, List, [], ◌∷◌,
  if◌then◌else◌, arith, Ensures, Ensures-bind, Ensures-map,
}
use cargos_buildroot.Kconfig.Symbol.{Symbol}
use cargos_buildroot.Kconfig.Expr.{Expr, e_symbol, e_not, e_equal, e_unequal, e_or, e_and}
use cargos_buildroot.Kconfig.Menu.Deps.{PropertyData}
use cargos_buildroot.Kconfig.Check.{
  Marks, Checks, CheckOutcome, unless_found, then_check, no_check, sym_check_expr_deps,
  check_pointer, is_skipped, is_default, default_expr, check_prop, check_props, is_choice_list,
  sym_check_sym_deps, check_values,
}
use cargos_buildroot.Kconfig.Check.Flags.{has, unchecked, unchecked-le}

-- The symbols of an expression are below a bound.
abbrev pub Below : ℕ → Expr → Type 0
Below n (e_symbol s) = s < n
Below n (e_not e) = Below n e
Below n (e_or l r) = Below n l × Below n r
Below n (e_and l r) = Below n l × Below n r
Below n (e_equal a b) = (a < n) × (b < n)
Below n (e_unequal a b) = (a < n) × (b < n)

abbrev pub BelowPointer : ℕ → Option Expr → Type 0
BelowPointer n none = Unit {0}
BelowPointer n (some e) = Below n e

abbrev pub AllBelow : ℕ → List PropertyData → Type 0
AllBelow n [] = Unit {0}
AllBelow n (prop ∷ props) =
    BelowPointer n prop.visible × BelowPointer n (default_expr prop) × AllBelow n props

-- The symbols have numbers below `n`, and the values of a choice are the symbols that are a value of it.
pub record IsClosed (cs : Checks) (n : ℕ) : Type 0 where
  pub rev_dep_below : (s : Symbol) → BelowPointer n (cs.rev_dep s)
  pub props_below : (s : Symbol) → AllBelow n (cs.props s)
  pub choice_below : (s c : Symbol) → cs.choice_of s ≡ some c → c < n
  pub value_of :
      (c : Symbol) (vs : List Symbol) (s : Symbol)
      → cs.values c ≡ some vs
      → has vs s ≡ true
      → cs.choice_of s ≡ some c
  pub no_value : (c : Symbol) (vs : List Symbol) → cs.values c ≡ some vs → cs.choice_of c ≡ none
  pub no_choice_value : (s c : Symbol) → cs.choice_of s ≡ some c → cs.choice_of c ≡ none

module _ (cs : Checks) (n : ℕ) where
  -- The values of a choice are only under way where the choice was met.
  abbrev pub IsMarked : Marks → Type 0
  IsMarked m = (s c : Symbol) → cs.choice_of s ≡ some c → m.check s ≡ true → m.checked c ≡ true

  -- A check leaves SYMBOL_CHECK as it was, clears no SYMBOL_CHECKED, and finds only symbols that are under way.
  pub record After (m : Marks) (r : Option Symbol × Marks) : Type 0 where
    pub same : (t : Symbol) → r.1.check t ≡ m.check t
    pub grows : (t : Symbol) → m.checked t ≡ true → r.1.checked t ≡ true
    pub found : (t : Symbol) → r.0 ≡ some t → m.check t ≡ true

  abbrev pub Keeps : ℕ → (Marks → CheckOutcome) → Type 0
  Keeps b act = (m : Marks) → IsMarked m → unchecked n m.checked ≤ b → Ensures (After m) (act m)

  pub After-IsMarked :
      (m : Marks) (r : Option Symbol × Marks) → After m r → IsMarked m → IsMarked r.1
  After-IsMarked m r a i s c h k = a.grows c (i s c h (sym (a.same s) ∙ k))

  After-trans : (m : Marks) (r r' : Option Symbol × Marks) → After m r → After r.1 r' → After m r'
  After-trans m r r' a b = record {
    same = λ t. b.same t ∙ a.same t;
    grows = λ t h. b.grows t (a.grows t h);
    found = λ t h. sym (a.same t) ∙ b.found t h;
  }

  pub After-refl : (m : Marks) → After m (none, m)
  After-refl m = record { same = λ t. refl; grows = λ t h. h; found = λ t h. cc }

  Keeps-no_check : (b : ℕ) → Keeps b no_check
  Keeps-no_check b m i l = After-refl m

  unless_found-After :
      (b : ℕ) (next : Marks → CheckOutcome) (m : Marks) (r : Option Symbol × Marks)
      → Keeps b next
      → IsMarked m
      → unchecked n m.checked ≤ b
      → After m r
      → Ensures (After m) (unless_found next r)
  unfolding unless_found
  unless_found-After b next m (some s, m') k i l a = a
  unless_found-After b next m (none, m') k i l a =
      let fewer = unchecked-le n m.checked m'.checked a.grows in
      Ensures-map (After m') (After m) (next m')
        (k m' (After-IsMarked m (none, m') a i) (omega arith)) (λ r'. After-trans m (none, m') r' a)

  Keeps-then_check :
      (b : ℕ) (act next : Marks → CheckOutcome)
      → Keeps b act
      → Keeps b next
      → Keeps b (then_check act next)
  Keeps-then_check b act next h k m i l =
      Ensures-bind (After m) (After m) (act m) (unless_found next) (h m i l)
        (λ r. unless_found-After b next m r k i l)

  module _ (b : ℕ) (check_deps : Symbol → Marks → CheckOutcome)
      (deps_keep : (s : Symbol) → s < n → Keeps b (check_deps s)) where
    Keeps-expr : (e : Expr) → Below n e → Keeps b (sym_check_expr_deps check_deps e)
    unfolding sym_check_expr_deps
    Keeps-expr (e_symbol s) h = deps_keep s h
    Keeps-expr (e_not e) h = Keeps-expr e h
    Keeps-expr (e_or l r) h =
        Keeps-then_check b (sym_check_expr_deps check_deps l) (sym_check_expr_deps check_deps r)
          (Keeps-expr l h.0) (Keeps-expr r h.1)
    Keeps-expr (e_and l r) h =
        Keeps-then_check b (sym_check_expr_deps check_deps l) (sym_check_expr_deps check_deps r)
          (Keeps-expr l h.0) (Keeps-expr r h.1)
    Keeps-expr (e_equal s t) h =
        Keeps-then_check b (check_deps s) (check_deps t) (deps_keep s h.0) (deps_keep t h.1)
    Keeps-expr (e_unequal s t) h =
        Keeps-then_check b (check_deps s) (check_deps t) (deps_keep s h.0) (deps_keep t h.1)

    Keeps-pointer : (o : Option Expr) → BelowPointer n o → Keeps b (check_pointer check_deps o)
    Keeps-pointer none h = Keeps-no_check b
    Keeps-pointer (some e) h = Keeps-expr e h

    Keeps-if :
        (c : Bool) (act next : Marks → CheckOutcome)
        → Keeps b act
        → Keeps b next
        → Keeps b (if c then act else next)
    Keeps-if true act next h k = h
    Keeps-if false act next h k = k

    Keeps-props :
        (is_choice : Bool) (props : List PropertyData)
        → AllBelow n props
        → Keeps b (check_props check_deps is_choice props)
    unfolding check_props check_prop
    Keeps-props is_choice [] h = Keeps-no_check b
    Keeps-props is_choice (prop ∷ props) h =
        let visible = check_pointer check_deps prop.visible in
        let default = check_pointer check_deps (default_expr prop) in
        let is_checked = is_default prop.type && not is_choice in
        Keeps-then_check b (check_prop check_deps is_choice prop)
          (check_props check_deps is_choice props)
          (Keeps-if (is_skipped prop.type) no_check
            (then_check visible (if is_checked then default else no_check)) (Keeps-no_check b)
            (Keeps-then_check b visible (if is_checked then default else no_check)
              (Keeps-pointer prop.visible h.0)
              (Keeps-if is_checked default no_check (Keeps-pointer (default_expr prop) h.1)
                (Keeps-no_check b))))
          (Keeps-props is_choice props h.2)

    pub Keeps-sym : IsClosed cs n → (s : Symbol) → Keeps b (sym_check_sym_deps cs check_deps s)
    unfolding sym_check_sym_deps
    Keeps-sym closed s =
        Keeps-then_check b (check_pointer check_deps (cs.rev_dep s))
          (check_props check_deps (is_choice_list (cs.values s)) (cs.props s))
          (Keeps-pointer (cs.rev_dep s) (closed.rev_dep_below s))
          (Keeps-props (is_choice_list (cs.values s)) (cs.props s) (closed.props_below s))

    pub Keeps-values : IsClosed cs n → (ss : List Symbol) → Keeps b (check_values cs check_deps ss)
    unfolding check_values
    Keeps-values closed [] = Keeps-no_check b
    Keeps-values closed (s ∷ ss) =
        Keeps-then_check b (sym_check_sym_deps cs check_deps s) (check_values cs check_deps ss)
          (Keeps-sym closed s) (Keeps-values closed ss)
