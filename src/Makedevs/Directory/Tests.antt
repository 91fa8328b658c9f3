-- ===== src/Makedevs/Directory/Tests.antt =====
-- package/makedevs/makedevs.c: a file system that keeps the list of its directories.
use cargos_buildroot.Base.{
  ◌≡◌, refl, Bool, true, false, ◌||◌, none, List, [], ◌∷◌, ◌+◌, Text, bytes, text_eq, text_eq_self,
  arith,
}
use cargos_buildroot.Makedevs.System.{System, Made, created, exists}
use cargos_buildroot.Makedevs.Directory.{
  parent_result, make_parent, last_result, make_last, make_directories, bb_make_directory,
}
use cargos_buildroot.Makedevs.Directory.Laws.{All, paths_from, bb_make_directory-All}

abbrev Directories : Type 0
Directories = List Text

abbrev is_there : Directories → Text → Bool
is_there [] p = false
is_there (q ∷ w) p = text_eq p q || is_there w p

abbrev mkdir_if : Bool → Text → Directories → Made × Directories
mkdir_if true p w = (exists, w)
mkdir_if false p w = (created, p ∷ w)

abbrev disk : System Directories
disk = record {
  mkdir = λ path w. mkdir_if (is_there w path) path w;
  is_directory = is_there;
  is_regular = λ w path. false;
  chmod = λ path mode w. (true, w);
  chown = λ path uid gid w. (true, w);
  mknod = λ path mode dev w. (true, w);
  bb_set_xattr = λ path xattr w. none;
  makedev = λ major minor. major + minor;
  print = λ n. n ∷ [];
  sscanf_xattr = λ line. none;
  sscanf_entry = λ line. none;
  strtoul = λ s. none;
  passwd = [];
  groups = [];
  uid = 0;
  gid = 0;
}

created_there :
    (b : Bool) (p : Text) (w : Directories)
    → (mkdir_if b p w).0 ≡ created
    → is_there (mkdir_if b p w).1 p ≡ true
created_there true p w h = cc
created_there false p w h = ground (arith, text_eq_self p)

stays_there :
    (b : Bool) (p q : Text) (w : Directories)
    → is_there w q ≡ true
    → is_there (mkdir_if b p w).1 q ≡ true
stays_there true p q w d = d
stays_there false p q w d = ground arith

abbrev target : Text
target = bytes "/target/dev"

bb_make_directory-All_example :
    All
      (λ p. is_there (bb_make_directory disk target 493 (bytes "/" ∷ [])).1 p ≡ true)
      (paths_from [] false target)
unfolding bb_make_directory make_directories make_parent make_last parent_result last_result text_eq
bb_make_directory-All_example =
    bb_make_directory-All disk (λ w p. is_there w p ≡ true)
      (λ p w. created_there (is_there w p) p w) (λ p w h. h)
      (λ p q w. stays_there (is_there w p) p q w) (λ p q mode w d. d) target 493 (bytes "/" ∷ [])
      refl
