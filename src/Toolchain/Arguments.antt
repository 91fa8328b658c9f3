-- ===== src/Toolchain/Arguments.antt =====
-- toolchain/toolchain-wrapper.c: the paths and the argument list of the real compiler.
pub mod Laws
use cargos_buildroot.Base.{
  ℕ, zero, suc, ◌+◌, ◌-◌, Bool, true, false, ◌&&◌, ◌||◌, Option, none, some, List, [], ◌∷◌, ◌++◌,
  Text, bytes, length, take, drop, starts_with, text_eq, if◌then◌else◌, ◌==◌, leb,
}
use cargos_buildroot.Toolchain.Config.{Config, CrossPath, relative, absolute, standard}

-- `strrchr(progpath, '/')`: the directory and the name, or `none`.
unfoldable pub split_last : Text → Option (Text × Text)
split_last [] = none
split_last (c ∷ s) = elim (split_last s) [
  | some (dir, base) ↦ some (c ∷ dir, base)
  | none ↦ if c == b'/' then some ([], s) else none
]

-- The loop that cuts three components off the path of the executable, at `i`.
abbrev pub byte_at : Text → ℕ → ℕ
byte_at [] i = 0
byte_at (c ∷ s) zero = c
byte_at (c ∷ s) (suc i) = byte_at s i

unfoldable pub cut_components : ℕ → ℕ → Text → Text
cut_components zero count path = path
cut_components (suc i) count path =
    let cut = take (suc i) path in
    let stop = cut in
    let next = cut_components i (count + 1) cut in
    let skip = cut_components i count path in
    if byte_at path (suc i) == b'/' then if count + 1 == 3 then stop else next else skip

-- What the wrapper asks of the system: `realpath`, the link /proc/self/exe, the environment, `atoi`,
-- and whether `malloc`, `setenv` and `execv` succeed.
pub record World : Type 0 where
  pub realpath : Text → Option Text
  pub self_exe : Option Text
  pub getenv : Text → Option Text
  pub atoi : Text → ℕ
  pub can_allocate : ℕ → Bool
  pub can_setenv : Text → Bool
  pub can_exec : Text → List Text → Bool

-- `relbasedir` and its `realpath`, or the path of the executable, with the name of the program;
-- `none` is the exit with status 2.
unfoldable pub base_of : World → Text → Option (Text × Text)
unfolding split_last cut_components
base_of w progpath = elim (split_last progpath) [
  | some (dir, base) ↦
      if w.can_allocate (length dir + 7)
      then elim (w.realpath (dir ++ bytes "/../..")) [ none ↦ none | some b ↦ some (b, base) ]
      else none
  | none ↦ elim w.self_exe [
    | none ↦ none
    | some exe ↦ some (cut_components (length exe) 0 exe, progpath)
  ]
]

abbrev pub path_max : ℕ
path_max = 4096

unfoldable pub compiler_path : Config → Text → Text → Text
compiler_path c dir base = elim c.cross_path [
  | relative rel ↦ dir ++ (bytes "/" ++ (rel ++ (bytes "/" ++ (base ++ c.cross_path_suffix))))
  | absolute root ↦ root ++ (bytes "/" ++ (base ++ c.cross_path_suffix))
  | standard ↦ dir ++ (bytes "/usr/bin/" ++ (base ++ c.cross_path_suffix))
]

unfoldable pub ccache_path : Text → Text
ccache_path dir = dir ++ bytes "/usr/bin/ccache"

unfoldable pub sysroot_path : Config → Text → Text
sysroot_path c dir = dir ++ (bytes "/" ++ c.sysroot)

-- `ret >= sizeof(path)` for one of the three buffers.
unfoldable pub overflows : Config → Text → Text → Bool
unfolding compiler_path ccache_path sysroot_path
overflows c dir base =
    leb path_max (length (compiler_path c dir base))
    || (c.ccache && leb path_max (length (ccache_path dir)))
    || leb path_max (length (sysroot_path c dir))

-- An entry of `predef_args` that stands under `#ifdef`.
abbrev pub flag : Bool → Text → List Text
flag true arg = arg ∷ []
flag false arg = []

abbrev pub setting : Text → Option Text → List Text
setting prefix none = []
setting prefix (some v) = (prefix ++ v) ∷ []

unfoldable pub predef_args : Config → Text → Text → List Text
unfolding compiler_path ccache_path sysroot_path
predef_args c dir base =
    flag c.ccache (ccache_path dir)
    ++ (compiler_path c dir base
        ∷ bytes "--sysroot"
        ∷ sysroot_path c dir
        ∷ (setting (bytes "-mabi=") c.abi
            ++ (setting (bytes "-mfpu=") c.fpu
                ++ (flag c.softfloat (bytes "-msoft-float")
                    ++ (setting (bytes "-m") c.mode
                        ++ (flag c.is_64 (bytes "-m64")
                            ++ (flag c.omit_lock_prefix (bytes "-Wa,-momit-lock-prefix=yes")
                                ++ (flag c.binfmt_flat (bytes "-Wl,-elf2flt")
                                    ++ (flag c.mips_little_endian (bytes "-EL")
                                        ++ (flag c.big_endian (bytes "-EB")
                                            ++ c.additional_cflags))))))))))

-- A loop over argv[1] … that breaks at the first argument for which the test holds.
abbrev pub any : (Text → Bool) → List Text → Bool
any p [] = false
any p (a ∷ args) = p a || any p args

unfoldable pub sets_float_abi : Text → Bool
unfolding starts_with text_eq
sets_float_abi a =
    starts_with (bytes "-mfloat-abi=") a
    || text_eq a (bytes "-msoft-float")
    || text_eq a (bytes "-mhard-float")

unfoldable pub float_abi_args : Config → List Text → List Text
unfolding sets_float_abi
float_abi_args c argv =
    if any sets_float_abi argv then [] else setting (bytes "-mfloat-abi=") c.float_abi

unfoldable pub sets_cpu : Text → Bool
unfolding starts_with
sets_cpu a =
    starts_with (bytes "-march=") a
    || starts_with (bytes "-mtune=") a
    || starts_with (bytes "-mcpu=") a

unfoldable pub cpu_args : Config → List Text → List Text
unfolding sets_cpu
cpu_args c argv =
    if any sets_cpu argv
    then []
    else setting (bytes "-march=") c.arch ++ setting (bytes "-mcpu=") c.cpu

abbrev pub exclusive_args : ℕ
exclusive_args = 3

-- The array `args` without the final NULL, for the arguments behind argv[0].
unfoldable pub build_args : Config → Text → Text → List Text → List Text
unfolding predef_args float_abi_args cpu_args
build_args c dir base argv =
    predef_args c dir base ++ (float_abi_args c argv ++ (cpu_args c argv ++ argv))
