-- ===== src/Makedevs/Directory.antt =====
-- package/makedevs/makedevs.c: `bb_make_directory` with FILEUTILS_RECUR and a mode, as `main` calls
-- it. `main` sets the umask to 0, so that the calls of `umask` change nothing.
pub mod Laws
mod Tests
use cargos_buildroot.Base.{ℕ, Bool, true, false, [], ◌∷◌, ◌++◌, Text, if◌then◌else◌, ◌==◌}
use cargos_buildroot.Makedevs.System.{System, Made, created, exists, refused}

-- `mkdir` for a parent, with its result: whether the loop goes on.
unfoldable pub parent_result : {W : Type 0} → System W → Text → Made → W → Bool × W
parent_result sys path created w = (true, w)
parent_result sys path exists w = (sys.is_directory w path, w)
parent_result sys path refused w = (false, w)

unfoldable pub make_parent : {W : Type 0} → System W → Text → W → Bool × W
unfolding parent_result
make_parent sys path w = let (result, w') = sys.mkdir path w in parent_result sys path result w'

-- `mkdir` and `chmod` for the whole path. A directory that exists keeps its permissions.
unfoldable pub last_result : {W : Type 0} → System W → ℕ → Text → Made → W → Bool × W
last_result sys mode path created w = sys.chmod path mode w
last_result sys mode path exists w = (sys.is_directory w path, w)
last_result sys mode path refused w = (false, w)

unfoldable pub make_last : {W : Type 0} → System W → ℕ → Text → W → Bool × W
unfolding last_result
make_last sys mode path w =
    let (result, w') = sys.mkdir path w in last_result sys mode path result w'

abbrev pub if_made : {W : Type 0} → Bool × W → (W → Bool × W) → Bool × W
if_made (true, w) next = next w
if_made (false, w) next = (false, w)

-- The loop, with the bytes of the path in front of `s`, and whether the last of them is a slash. The
-- parent that is made ends behind the slashes.
unfoldable pub make_directories : {W : Type 0} → System W → ℕ → Text → Bool → Text → W → Bool × W
unfolding make_parent make_last
make_directories sys mode seen slash [] w = make_last sys mode seen w
make_directories sys mode seen false (c ∷ s) w =
    make_directories sys mode (seen ++ (c ∷ [])) (c == b'/') s w
make_directories sys mode seen true (c ∷ s) w =
    let more = make_directories sys mode (seen ++ (c ∷ [])) true s w in
    let next =
      if_made (make_parent sys seen w)
        (λ w'. make_directories sys mode (seen ++ (c ∷ [])) false s w') in
    if c == b'/' then more else next

unfoldable pub bb_make_directory : {W : Type 0} → System W → Text → ℕ → W → Bool × W
unfolding make_directories
bb_make_directory sys path mode w = make_directories sys mode [] false path w
