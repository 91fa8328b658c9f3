-- ===== src/Toolchain/Tests.antt =====
-- toolchain/toolchain-wrapper.c: runs at concrete arguments.
use cargos_buildroot.Base.{
  suc, ◌+◌, ◌≤◌, ◌<◌, ◌≡◌, ◌≢◌, ◌⊎◌, refl, ◌&&◌, true, false, Option, none, some, List, [], ◌∷◌,
  ◌++◌, Text, bytes, length, text_eq, if◌then◌else◌, starts_with,
}
use cargos_buildroot.Toolchain.Config.{Config, standard}
use cargos_buildroot.Toolchain.Unsafe.{check_args, scan, form, check_unsafe_path, check_paths}
use cargos_buildroot.Toolchain.Unsafe.Complete.{check_args_joined}
use cargos_buildroot.Toolchain.Arguments.{
  World, base_of, path_max, split_last, overflows, compiler_path, ccache_path, sysroot_path,
  predef_args, build_args, float_abi_args, cpu_args, sets_float_abi, sets_cpu, any, exclusive_args,
}
use cargos_buildroot.Toolchain.Arguments.Laws.{length-build_args, build_args_exclusive}
use cargos_buildroot.Toolchain.Main.{
  main, start, start_at, after_check, launch, exec_args, set_variables, variables_of, trace_of,
  is_paranoid,
}
use cargos_buildroot.Toolchain.Main.Laws.{main_executes, main_paranoid}

abbrev arm : Config
arm = record {
  ccache = true;
  abi = some (bytes "aapcs-linux");
  fpu = none;
  softfloat = false;
  mode = none;
  is_64 = false;
  omit_lock_prefix = false;
  binfmt_flat = false;
  mips_little_endian = false;
  big_endian = false;
  additional_cflags = [];
  cross_path = standard;
  cross_path_suffix = bytes ".br_real";
  sysroot = bytes "sysroot";
  float_abi = some (bytes "soft");
  arch = none;
  cpu = some (bytes "arm926ej-s");
  ccache_hash = some (bytes "1f");
  ccache_basedir = none;
}

abbrev variable_of : Text → Option Text
variable_of name =
    if text_eq name (bytes "BR_COMPILER_PARANOID_UNSAFE_PATH") then some (bytes "1") else none

abbrev host : World
host = record {
  realpath = λ p. some (bytes "/out/host");
  self_exe = some (bytes "/out/host/usr/bin/arm-gcc");
  getenv = variable_of;
  atoi = λ v. 0;
  can_allocate = λ n. true;
  can_setenv = λ v. true;
  can_exec = λ p as'. true;
}

abbrev user_args : List Text
user_args = bytes "-c" ∷ bytes "-mhard-float" ∷ bytes "x.c" ∷ []

length-build_args_example :
    suc (length (build_args arm (bytes "/out/host") (bytes "gcc") user_args))
    ≤ length (predef_args arm (bytes "/out/host") (bytes "gcc")) + (4 + exclusive_args)
length-build_args_example = length-build_args arm (bytes "/out/host") (bytes "gcc") user_args

build_args_exclusive_example :
    let added = float_abi_args arm user_args ++ cpu_args arm user_args in
    (build_args arm (bytes "/h") (bytes "gcc") user_args
      ≡ predef_args arm (bytes "/h") (bytes "gcc") ++ (added ++ user_args))
    × ((any sets_float_abi added && any sets_float_abi user_args) ≡ false)
    × ((any sets_cpu added && any sets_cpu user_args) ≡ false)
build_args_exclusive_example = build_args_exclusive arm (bytes "/h") (bytes "gcc") user_args

check_args_joined_example :
    (check_args true (
      (bytes "-c" ∷ [])
      ++ ((bytes "-L" ++ (bytes "/usr/lib" ++ bytes "/x")) ∷ bytes "x.c" ∷ []))).stopped
    ≡ true
unfolding form starts_with text_eq
check_args_joined_example =
    check_args_joined (bytes "-c" ∷ []) (bytes "x.c" ∷ []) (bytes "-L") (bytes "/usr/lib")
      (bytes "/x") refl refl (refl, tt) refl

abbrev built : List Text
built = build_args arm (bytes "/out/host") (bytes "gcc") user_args

main_executes_example :
    (dir : Text) × (base : Text) × (options : List Text) × (base_of host (bytes "usr/bin/gcc")
      ≡ some (dir, base))
    × ((length (compiler_path arm dir base) < path_max)
        × (length (sysroot_path arm dir) < path_max)
        × ((true ≡ false) ⊎ (length (ccache_path dir) < path_max)))
    × ((check_args (is_paranoid host) user_args).stopped ≡ false)
    × (let command : List Text =
          compiler_path arm dir base
          ∷ bytes "--sysroot"
          ∷ sysroot_path arm dir
          ∷ (options ++ user_args) in
        ((true ≡ true)
          × (host.getenv (bytes "BR_NO_CCACHE") ≡ none)
          × (built ≡ ccache_path dir ∷ command))
        ⊎ (((true ≡ false) ⊎ (host.getenv (bytes "BR_NO_CCACHE") ≢ none)) × (built ≡ command)))
    × ((main arm host (bytes "usr/bin/gcc") user_args).messages
        ≡ (check_args (is_paranoid host) user_args).messages)
unfolding main start start_at after_check launch exec_args set_variables variables_of trace_of
    is_paranoid base_of split_last overflows compiler_path ccache_path sysroot_path build_args
    predef_args float_abi_args cpu_args sets_float_abi sets_cpu check_args scan form
    check_unsafe_path check_paths starts_with text_eq
main_executes_example = main_executes arm host (bytes "usr/bin/gcc") user_args built refl

main_paranoid_example : (check_args false user_args).messages ≡ []
unfolding main start start_at after_check launch exec_args set_variables variables_of trace_of
    is_paranoid base_of split_last overflows compiler_path ccache_path sysroot_path build_args
    predef_args float_abi_args cpu_args sets_float_abi sets_cpu check_args scan form
    check_unsafe_path check_paths starts_with text_eq
main_paranoid_example = main_paranoid arm host (bytes "usr/bin/gcc") user_args built refl refl
