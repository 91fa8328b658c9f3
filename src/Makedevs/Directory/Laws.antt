-- ===== src/Makedevs/Directory/Laws.antt =====
-- package/makedevs/makedevs.c: a directory that is made is there, with its parents.
use cargos_buildroot.Base.{
  ℕ, ◌≡◌, refl, Bool, true, false, List, [], ◌∷◌, ◌++◌, Text, if◌then◌else◌, ◌==◌, Bool-cases, inl,
  inr,
}
use cargos_buildroot.Makedevs.System.{System, Made, created, exists, refused}
use cargos_buildroot.Makedevs.Directory.{
  parent_result, make_parent, last_result, make_last, if_made, make_directories, bb_make_directory,
}

-- The paths of a path: its parents, each with the slashes behind it, and itself; for the path behind
-- `seen`, whose last byte is a slash or not.
abbrev pub paths_from : Text → Bool → Text → List Text
paths_from seen slash [] = seen ∷ []
paths_from seen false (c ∷ s) = paths_from (seen ++ (c ∷ [])) (c == b'/') s
paths_from seen true (c ∷ s) =
    let more = paths_from (seen ++ (c ∷ [])) true s in
    let next = seen ∷ paths_from (seen ++ (c ∷ [])) false s in if c == b'/' then more else next

abbrev pub All : (Text → Type 0) → List Text → Type 0
All P [] = Unit {0}
All P (x ∷ xs) = P x × All P xs

-- `Dir w p`: in the state `w` the path `p` is a directory. The hypotheses are what POSIX says of mkdir,
-- stat and chmod.
module _ {W : Type 0} (sys : System W) (Dir : W → Text → Type 0)
    (created-Dir : (p : Text) (w : W) → (sys.mkdir p w).0 ≡ created → Dir (sys.mkdir p w).1 p)
    (test-Dir : (p : Text) (w : W) → sys.is_directory w p ≡ true → Dir w p)
    (mkdir-Dir : (p q : Text) (w : W) → Dir w q → Dir (sys.mkdir p w).1 q)
    (chmod-Dir : (p q : Text) (mode : ℕ) (w : W) → Dir w q → Dir (sys.chmod p mode w).1 q) where
  parent_result-keeps :
      (p q : Text) (r : Made) (w : W) → Dir w q → Dir (parent_result sys p r w).1 q
  unfolding parent_result
  parent_result-keeps p q created w d = d
  parent_result-keeps p q exists w d = d
  parent_result-keeps p q refused w d = d

  last_result-keeps :
      (mode : ℕ) (p q : Text) (r : Made) (w : W) → Dir w q → Dir (last_result sys mode p r w).1 q
  unfolding last_result
  last_result-keeps mode p q created w d = chmod-Dir p q mode w d
  last_result-keeps mode p q exists w d = d
  last_result-keeps mode p q refused w d = d

  parent_result-Dir :
      (p : Text) (r : Made) (w : W)
      → (r ≡ created → Dir w p)
      → (parent_result sys p r w).0 ≡ true
      → Dir (parent_result sys p r w).1 p
  unfolding parent_result
  parent_result-Dir p created w d h = d refl
  parent_result-Dir p exists w d h = test-Dir p w h
  parent_result-Dir p refused w d h = cc

  last_result-Dir :
      (mode : ℕ) (p : Text) (r : Made) (w : W)
      → (r ≡ created → Dir w p)
      → (last_result sys mode p r w).0 ≡ true
      → Dir (last_result sys mode p r w).1 p
  unfolding last_result
  last_result-Dir mode p created w d h = chmod-Dir p p mode w (d refl)
  last_result-Dir mode p exists w d h = test-Dir p w h
  last_result-Dir mode p refused w d h = cc

  make_parent-Dir :
      (p : Text) (w : W) → (make_parent sys p w).0 ≡ true → Dir (make_parent sys p w).1 p
  unfolding make_parent
  make_parent-Dir p w h =
      parent_result-Dir p (sys.mkdir p w).0 (sys.mkdir p w).1 (created-Dir p w) h

  make_parent-keeps : (p q : Text) (w : W) → Dir w q → Dir (make_parent sys p w).1 q
  unfolding make_parent
  make_parent-keeps p q w d =
      parent_result-keeps p q (sys.mkdir p w).0 (sys.mkdir p w).1 (mkdir-Dir p q w d)

  if_made-keeps :
      (q : Text) (r : Bool × W) (next : W → Bool × W)
      → ((w : W) → Dir w q → Dir (next w).1 q)
      → Dir r.1 q
      → Dir (if_made r next).1 q
  if_made-keeps q (true, w) next k d = k w d
  if_made-keeps q (false, w) next k d = d

  make_directories-keeps :
      (mode : ℕ) (q seen : Text) (slash : Bool) (path : Text) (w : W)
      → Dir w q
      → Dir (make_directories sys mode seen slash path w).1 q
  unfolding make_directories make_last
  make_directories-keeps mode q seen slash [] w d =
      last_result-keeps mode seen q (sys.mkdir seen w).0 (sys.mkdir seen w).1 (mkdir-Dir seen q w d)
  make_directories-keeps mode q seen false (c ∷ s) w d =
      make_directories-keeps mode q (seen ++ (c ∷ [])) (c == b'/') s w d
  make_directories-keeps mode q seen true (c ∷ s) w d = elim (Bool-cases (c == b'/')) [
    | inl e ↦ rw e (make_directories-keeps mode q (seen ++ (c ∷ [])) true s w d)
    | inr e ↦ rw e (
        if_made-keeps q (make_parent sys seen w) _
          (make_directories-keeps mode q (seen ++ (c ∷ [])) false s) (make_parent-keeps seen q w d))
  ]

  if_made-All :
      (q : Text) (qs : List Text) (r : Bool × W) (next : W → Bool × W)
      → (r.0 ≡ true → Dir r.1 q)
      → ((w : W) → Dir w q → Dir (next w).1 q)
      → ((w : W) → (next w).0 ≡ true → All (Dir (next w).1) qs)
      → (if_made r next).0 ≡ true
      → Dir (if_made r next).1 q × All (Dir (if_made r next).1) qs
  if_made-All q qs (true, w) next d k a h = (k w (d refl), a w h)
  if_made-All q qs (false, w) next d k a h = cc

  branch-All :
      (b : Bool) (x y : Bool × W) (xs ys : List Text)
      → (x.0 ≡ true → All (Dir x.1) xs)
      → (y.0 ≡ true → All (Dir y.1) ys)
      → (if b then x else y).0 ≡ true
      → All (Dir (if b then x else y).1) (if b then xs else ys)
  branch-All true x y xs ys p q h = p h
  branch-All false x y xs ys p q h = q h

  make_directories-All :
      (mode : ℕ) (seen : Text) (slash : Bool) (path : Text) (w : W)
      → (make_directories sys mode seen slash path w).0 ≡ true
      → All (Dir (make_directories sys mode seen slash path w).1) (paths_from seen slash path)
  unfolding make_directories make_last
  make_directories-All mode seen slash [] w h = (
    last_result-Dir mode seen (sys.mkdir seen w).0 (sys.mkdir seen w).1 (created-Dir seen w) h,
    tt,
  )
  make_directories-All mode seen false (c ∷ s) w h =
      make_directories-All mode (seen ++ (c ∷ [])) (c == b'/') s w h
  make_directories-All mode seen true (c ∷ s) w h =
      let longer = seen ++ (c ∷ []) in
      branch-All (c == b'/') _ _ _ _ (make_directories-All mode longer true s w)
        (if_made-All seen _ (make_parent sys seen w) _ (make_parent-Dir seen w)
          (make_directories-keeps mode seen longer false s)
          (make_directories-All mode longer false s))
        h

  -- Where mkdir makes a directory if it says so, the test for a directory is right, and neither mkdir nor
  -- chmod takes a directory away, a path for which bb_make_directory succeeds is a directory in the end, and
  -- so is every parent of it.
  pub bb_make_directory-All :
      (path : Text) (mode : ℕ) (w : W)
      → (bb_make_directory sys path mode w).0 ≡ true
      → All (Dir (bb_make_directory sys path mode w).1) (paths_from [] false path)
  unfolding bb_make_directory
  bb_make_directory-All path mode w = make_directories-All mode [] false path w
