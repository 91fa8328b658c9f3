-- ===== src/Makedevs/Entry.antt =====
-- package/makedevs/makedevs.c: the part of `main` that makes what an entry of the table names. The
-- result is whether the exit status stays EXIT_SUCCESS.
pub mod Laws
use cargos_buildroot.Base.{
  ℕ, zero, suc, ◌+◌, ◌-◌, ◌*◌, ◌/◌, ◌%◌, ◌^◌, Bool, true, false, ◌&&◌, ◌||◌, not, Option, none,
  some, List, [], ◌∷◌, ◌++◌, Text, if◌then◌else◌, ◌==◌, ltb,
}
use cargos_buildroot.Makedevs.System.{System, Entry}
use cargos_buildroot.Makedevs.Directory.{bb_make_directory}

-- `mode | 2 ^ n`
abbrev pub or_bit : ℕ → ℕ → ℕ
or_bit mode n = if (mode / 2 ^ n) % 2 == 1 then mode else mode + 2 ^ n

-- S_IFDIR, S_IFIFO, S_IFCHR and S_IFBLK are 040000, 010000, 020000 and 060000.
abbrev pub directory_mode : ℕ → ℕ
directory_mode mode = or_bit mode 14

-- The mode of a node; `none` is a type that is not supported.
unfoldable pub node_mode : ℕ → ℕ → Option ℕ
node_mode type mode =
    if type == b'p'
    then some (or_bit mode 12)
    else if type == b'c'
    then some (or_bit mode 13)
    else if type == b'b'
    then some (or_bit (or_bit mode 13) 14)
    else none

-- A call, and the next one if it succeeds.
abbrev pub and_then : {W : Type 0} → Bool × W → (W → Bool × W) → Bool × W
and_then (true, w) next = next w
and_then (false, w) next = (false, w)

-- The test `mode != -1` holds of every mode that is not 2 ^ 32 - 1.
unfoldable pub set_owner : {W : Type 0} → System W → Text → ℕ → ℕ → ℕ → W → Bool × W
set_owner sys path mode uid gid w =
    and_then (sys.chown path uid gid w)
      (λ w'. if mode == 4294967295 then (true, w') else sys.chmod path mode w')

unfoldable pub enter_directory : {W : Type 0} → System W → Text → ℕ → ℕ → ℕ → W → Bool × W
unfolding bb_make_directory set_owner
enter_directory sys path mode uid gid w =
    let (_, w') = bb_make_directory sys path (directory_mode mode) w in
    set_owner sys path mode uid gid w'

unfoldable pub enter_file : {W : Type 0} → System W → Text → ℕ → ℕ → ℕ → W → Bool × W
unfolding set_owner
enter_file sys path mode uid gid w =
    if sys.is_regular w path then set_owner sys path mode uid gid w else (false, w)

-- What one round of the loop over `i` makes.
pub record Node : Type 0 where
  pub path : Text
  pub device : ℕ

-- `full_name_inc` and `rdev` for `i = start + k`, with `count` already decreased.
abbrev pub node_at : {W : Type 0} → System W → Entry → Text → ℕ → ℕ → Node
node_at sys e full_name count k = record {
  path = if count == 0 then full_name else full_name ++ sys.print (e.start + k);
  device = sys.makedev e.major ((e.minor + k * e.increment) % 2 ^ 32);
}

unfoldable pub make_node : {W : Type 0} → System W → ℕ → ℕ → ℕ → Node → W → Bool × W
make_node sys mode uid gid n w =
    and_then (sys.mknod n.path mode n.device w)
      (λ w'. and_then (sys.chown n.path uid gid w') (λ w''. sys.chmod n.path mode w''))

abbrev pub both : {W : Type 0} → Bool → Bool × W → Bool × W
both ok (ok', w) = (ok && ok', w)

-- The loop: `rounds` nodes from `i = start + k` on. A failure does not end it.
unfoldable pub make_nodes :
    {W : Type 0} → System W → Entry → Text → ℕ → ℕ → ℕ → ℕ → ℕ → ℕ → W → Bool × W
unfolding make_node
make_nodes sys e full_name mode uid gid count zero k w = (true, w)
make_nodes sys e full_name mode uid gid count (suc rounds) k w =
    let (ok, w') = make_node sys mode uid gid (node_at sys e full_name count k) w in
    both ok (make_nodes sys e full_name mode uid gid count rounds (suc k) w')

unfoldable pub enter_nodes : {W : Type 0} → System W → Entry → Text → ℕ → ℕ → W → Bool × W
unfolding node_mode make_nodes
enter_nodes sys e full_name uid gid w = elim (node_mode e.type e.mode) [
  | none ↦ (false, w)
  | some mode ↦
      let count = e.count - 1 in make_nodes sys e full_name mode uid gid count (suc count) 0 w
]

unfoldable pub enter : {W : Type 0} → System W → Entry → Text → ℕ → ℕ → W → Bool × W
unfolding enter_directory enter_file enter_nodes
enter sys e full_name uid gid w =
    if e.type == b'd'
    then enter_directory sys full_name e.mode uid gid w
    else if e.type == b'f'
    then enter_file sys full_name e.mode uid gid w
    else enter_nodes sys e full_name uid gid w
