-- ===== src/Toolchain/Arguments/Laws.antt =====
-- toolchain/toolchain-wrapper.c: the argument list fits its buffer, and respects the user's arguments.
use cargos_buildroot.Base.{
  ap, sym, refl, Bool, ◌&&◌, ◌||◌, [], ◌∷◌, starts_with, text_eq, if◌then◌else◌, suc, ◌+◌, ◌≤◌, ◌≡◌,
  true, false, Option, none, some, List, ◌++◌, Text, bytes, length, length-append, arith,
}
use mathlib.Core.List.{append_assoc}
use cargos_buildroot.Toolchain.Config.{Config}
use cargos_buildroot.Toolchain.Arguments.{
  setting, predef_args, any, sets_float_abi, float_abi_args, sets_cpu, cpu_args, exclusive_args,
  build_args,
}

length-setting : (prefix : Text) (o : Option Text) → length (setting prefix o) ≤ 1
length-setting prefix none = omega arith
length-setting prefix (some v) = omega arith

length-float_abi_args : (c : Config) (argv : List Text) → length (float_abi_args c argv) ≤ 1
unfolding float_abi_args
length-float_abi_args c argv = ground (arith, length-setting (bytes "-mfloat-abi=") c.float_abi)

length-cpu_args : (c : Config) (argv : List Text) → length (cpu_args c argv) ≤ 2
unfolding cpu_args
length-cpu_args c argv = ground (
  arith,
  length-append (setting (bytes "-march=") c.arch) (setting (bytes "-mcpu=") c.cpu),
  length-setting (bytes "-march=") c.arch,
  length-setting (bytes "-mcpu=") c.cpu,
)

-- With the final NULL the argument list fits the buffer, which has room for the predefined
-- arguments, for argc pointers, and for EXCLUSIVE_ARGS more.
pub length-build_args :
    (c : Config) (dir base : Text) (argv : List Text)
    → let argc = suc (length argv) in
      suc (length (build_args c dir base argv))
      ≤ length (predef_args c dir base) + (argc + exclusive_args)
unfolding build_args
length-build_args c dir base argv = omega (
  arith,
  length-append (predef_args c dir base) (float_abi_args c argv ++ (cpu_args c argv ++ argv)),
  length-append (float_abi_args c argv) (cpu_args c argv ++ argv),
  length-append (cpu_args c argv) argv,
  length-float_abi_args c argv,
  length-cpu_args c argv,
)

any-append : (p : Text → Bool) (xs ys : List Text) → any p (xs ++ ys) ≡ (any p xs || any p ys)
any-append p [] ys = refl
any-append p (x ∷ xs) ys = ground (arith, any-append p xs ys)

any_unless :
    (p : Text → Bool) (extra : List Text) (b : Bool)
    → (any p (if b then [] else extra) && b) ≡ false
any_unless p extra true = refl
any_unless p extra false = ground arith

any_or_unless :
    (p : Text → Bool) (extra : List Text) (b : Bool)
    → ((any p (if b then [] else extra) || false) && b) ≡ false
any_or_unless p extra true = refl
any_or_unless p extra false = ground arith

-- What the wrapper adds of the one kind is not of the other.
sets_float_abi-cpu : (c : Config) (argv : List Text) → any sets_float_abi (cpu_args c argv) ≡ false
unfolding cpu_args sets_float_abi starts_with text_eq
sets_float_abi-cpu c argv = of_arch c.arch c.cpu (any sets_cpu argv)
  where
    of_arch :
        (arch cpu : Option Text) (b : Bool)
        → any sets_float_abi
            (if b then [] else setting (bytes "-march=") arch ++ setting (bytes "-mcpu=") cpu)
          ≡ false
    of_arch arch cpu true = refl
    of_arch none none false = refl
    of_arch none (some v) false = refl
    of_arch (some v) none false = refl
    of_arch (some u) (some v) false = refl

sets_cpu-float_abi : (c : Config) (argv : List Text) → any sets_cpu (float_abi_args c argv) ≡ false
unfolding float_abi_args sets_cpu starts_with text_eq
sets_cpu-float_abi c argv = of_abi c.float_abi (any sets_float_abi argv)
  where
    of_abi :
        (abi : Option Text) (b : Bool)
        → any sets_cpu (if b then [] else setting (bytes "-mfloat-abi=") abi) ≡ false
    of_abi abi true = refl
    of_abi none false = refl
    of_abi (some v) false = refl

-- The compiler gets the predefined arguments, then what the wrapper adds, then the user's arguments
-- unchanged; what it adds holds no option for the floating point if an argument of the user does, and
-- none of -march, -mtune and -mcpu if an argument of the user is one of them.
pub build_args_exclusive :
    (c : Config) (dir base : Text) (argv : List Text)
    → let added = float_abi_args c argv ++ cpu_args c argv in
      (build_args c dir base argv ≡ predef_args c dir base ++ (added ++ argv))
      × ((any sets_float_abi added && any sets_float_abi argv) ≡ false)
      × ((any sets_cpu added && any sets_cpu argv) ≡ false)
unfolding build_args float_abi_args cpu_args
build_args_exclusive c dir base argv = (
  ap (λ l. predef_args c dir base ++ l)
      (sym (append_assoc (float_abi_args c argv) (cpu_args c argv) argv)),
  rw
      (
        any-append sets_float_abi (float_abi_args c argv) (cpu_args c argv),
        sets_float_abi-cpu c argv,
      )
      (any_or_unless sets_float_abi _ (any sets_float_abi argv)),
  rw (any-append sets_cpu (float_abi_args c argv) (cpu_args c argv), sets_cpu-float_abi c argv)
      (any_unless sets_cpu _ (any sets_cpu argv)),
)
