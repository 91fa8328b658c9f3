-- ===== src/Toolchain/Unsafe/Complete.antt =====
-- toolchain/toolchain-wrapper.c: no unsafe path slips through the search.
use cargos_buildroot.Base.{
  ◌≡◌, ◌≢◌, refl, sym, subst, Bool, true, false, ◌||◌, inl, inr, List, [], ◌∷◌, ◌++◌, Text,
  starts_with, text_eq, text_eq→eq, starts_with-append, drop-length-append, arith, Bool-cases,
  text_eq_self,
}
use cargos_buildroot.Toolchain.Unsafe.{
  unsafe_paths, unsafe_opts, Message, joined, separate, Form, other, alone, with_path, form,
  check_args,
}
use cargos_buildroot.Toolchain.Unsafe.Laws.{
  first_only, found, unsafe, about, warnings, scan_paranoid,
}

-- `x` is one of the texts.
abbrev pub is_one_of : List Text → Text → Bool
is_one_of [] x = false
is_one_of (y ∷ ys) x = text_eq y x || is_one_of ys x

-- None of the arguments is an unsafe option alone, which would take the next argument as its path.
abbrev pub NoneAlone : List Text → Type 0
NoneAlone [] = Unit {0}
NoneAlone (x ∷ xs) = (is_one_of unsafe_opts x ≡ false) × NoneAlone xs

abbrev Stops : List Message → Type 0
Stops ms = (first_only ms).stopped ≡ true

Stops-append_left : (ms ns : List Message) → Stops ms → Stops (ms ++ ns)
Stops-append_left [] ns h = cc
Stops-append_left (m ∷ ms) ns h = refl

Stops-append_right : (ms ns : List Message) → Stops ns → Stops (ms ++ ns)
Stops-append_right [] ns h = h
Stops-append_right (m ∷ ms) ns h = refl

starts_with_refl : (s : Text) → starts_with s s ≡ true
unfolding starts_with
starts_with_refl [] = refl
starts_with_refl (a ∷ s) = ground (arith, starts_with_refl s)

starts_with_same : (r p q : Text) → r ≡ p → starts_with r (p ++ q) ≡ true
starts_with_same r p q e = rw e (starts_with-append p q)

-- A path below one of the unsafe paths is found.
Stops-found :
    (ps : List Text) (m : Message) (p q : Text)
    → is_one_of ps p ≡ true
    → Stops (found ps m (p ++ q))
Stops-found [] m p q h = cc
Stops-found (r ∷ ps) m p q h = elim (Bool-cases (starts_with r (p ++ q))) [
  | inl e ↦ rw e refl
  | inr e ↦ rw e (Stops-found ps m p q (ground (arith, text_eq→eq r p, starts_with_same r p q, e)))
]

advanced : List Text → Text → List Text → List Message
advanced os cur [] = []
advanced os cur (next ∷ rest) = unsafe (separate cur next) next ++ warnings os next rest

warnings-cons :
    (o : Text) (os : List Text) (cur : Text) (rest : List Text)
    → warnings (o ∷ os) cur rest
      ≡ about (form o cur) cur (warnings os cur rest) (advanced os cur rest)
unfolding warnings advanced
warnings-cons o os cur [] = refl
warnings-cons o os cur (next ∷ rest) = refl

form-of_option : (o : Text) → form o o ≡ alone
unfolding form
form-of_option o = rw (starts_with_refl o, text_eq_self o)

form-of_joined :
    (o path : Text) → text_eq o (o ++ path) ≡ false → form o (o ++ path) ≡ with_path path
unfolding form
form-of_joined o path h = rw (starts_with-append o path, h, drop-length-append o path)

form-ne_alone : (o cur : Text) → text_eq o cur ≡ false → form o cur ≢ alone
unfolding form
form-ne_alone o cur h = ground arith

Stops-about :
    (f : Form) (cur : Text) (ms ns : List Message)
    → f ≢ alone
    → Stops ms
    → Stops (about f cur ms ns)
Stops-about other cur ms ns h s = s
Stops-about alone cur ms ns h s = absurd (h refl)
Stops-about (with_path path) cur ms ns h s = Stops-append_right (unsafe (joined cur) path) ms s

-- An argument that is no option alone passes the search on to the arguments behind it.
Stops-behind :
    (os : List Text) (cur next : Text) (rest : List Text)
    → is_one_of os cur ≡ false
    → Stops (warnings unsafe_opts next rest)
    → Stops (warnings os cur (next ∷ rest))
unfolding warnings
Stops-behind [] cur next rest h s = s
Stops-behind (o ∷ os) cur next rest h s =
    Stops-about (form o cur) cur _ _ (form-ne_alone o cur (ground arith))
      (Stops-behind os cur next rest (ground arith) s)

Stops-joined :
    (os : List Text) (o p q : Text) (rest : List Text)
    → is_one_of os o ≡ true
    → is_one_of unsafe_paths p ≡ true
    → is_one_of os (o ++ (p ++ q)) ≡ false
    → Stops (warnings os (o ++ (p ++ q)) rest)
Stops-joined [] o p q rest h u n = cc
Stops-joined (r ∷ os) o p q rest h u n =
    let cur = o ++ (p ++ q) in
    rw (warnings-cons r os cur rest) (elim (Bool-cases (text_eq r o)) [
      | inl e ↦
          rw
            (subst (λ x. form x cur ≡ with_path (p ++ q)) (sym (text_eq→eq r o e))
              (form-of_joined o (p ++ q)
                (subst (λ x. text_eq x cur ≡ false) (text_eq→eq r o e) (ground arith))))
            (Stops-append_left (unsafe (joined cur) (p ++ q)) _
              (Stops-found unsafe_paths (joined cur) p q u))
      | inr e ↦
          Stops-about (form r cur) cur _ _ (form-ne_alone r cur (ground arith))
            (Stops-joined os o p q rest (ground arith) u (ground arith))
    ])

Stops-separate :
    (os : List Text) (o p q : Text) (rest : List Text)
    → is_one_of os o ≡ true
    → is_one_of unsafe_paths p ≡ true
    → Stops (warnings os o ((p ++ q) ∷ rest))
unfolding advanced
Stops-separate [] o p q rest h u = cc
Stops-separate (r ∷ os) o p q rest h u =
    rw (warnings-cons r os o ((p ++ q) ∷ rest)) (elim (Bool-cases (text_eq r o)) [
      | inl e ↦ rw (subst (λ x. form x o ≡ alone) (sym (text_eq→eq r o e)) (form-of_option o)) (
          Stops-append_left (unsafe (separate o (p ++ q)) (p ++ q)) _
            (Stops-found unsafe_paths (separate o (p ++ q)) p q u))
      | inr e ↦
          Stops-about (form r o) o _ _ (form-ne_alone r o e)
            (Stops-separate os o p q rest (ground arith) u)
    ])

-- The arguments in front are passed by.
Stops-prefix :
    (xs : List Text) (cur : Text) (rest : List Text)
    → NoneAlone xs
    → Stops (warnings unsafe_opts cur rest)
    → (check_args true (xs ++ (cur ∷ rest))).stopped ≡ true
unfolding check_args
Stops-prefix [] cur rest h s = rw (scan_paranoid unsafe_opts cur rest) s
Stops-prefix (x ∷ xs) cur rest h s =
    rw (scan_paranoid unsafe_opts x (xs ++ (cur ∷ rest))) (through x xs h)
  where
    through :
        (x : Text) (xs : List Text)
        → NoneAlone (x ∷ xs)
        → Stops (warnings unsafe_opts x (xs ++ (cur ∷ rest)))
    through x [] h = Stops-behind unsafe_opts x cur rest h.0 s
    through x (y ∷ xs) h = Stops-behind unsafe_opts x y (xs ++ (cur ∷ rest)) h.0 (through y xs h.1)

-- In paranoid mode the wrapper exits at an argument that is an unsafe option joined with a path
-- below an unsafe one, wherever it stands, if neither it nor an argument in front of it is such an
-- option alone.
pub check_args_joined :
    (xs ys : List Text) (o p q : Text)
    → is_one_of unsafe_opts o ≡ true
    → is_one_of unsafe_paths p ≡ true
    → NoneAlone xs
    → is_one_of unsafe_opts (o ++ (p ++ q)) ≡ false
    → (check_args true (xs ++ ((o ++ (p ++ q)) ∷ ys))).stopped ≡ true
check_args_joined xs ys o p q h u n m =
    Stops-prefix xs (o ++ (p ++ q)) ys n (Stops-joined unsafe_opts o p q ys h u m)

-- In paranoid mode the wrapper exits at an unsafe option with a path below an unsafe one as the argument
-- behind it, wherever they stand, if no argument in front of them is such an option alone.
pub check_args_separate :
    (xs ys : List Text) (o p q : Text)
    → is_one_of unsafe_opts o ≡ true
    → is_one_of unsafe_paths p ≡ true
    → NoneAlone xs
    → (check_args true (xs ++ (o ∷ (p ++ q) ∷ ys))).stopped ≡ true
check_args_separate xs ys o p q h u n =
    Stops-prefix xs o ((p ++ q) ∷ ys) n (Stops-separate unsafe_opts o p q ys h u)
