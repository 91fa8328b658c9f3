-- ===== src/Toolchain/Main/Laws.antt =====
-- toolchain/toolchain-wrapper.c: what the wrapper has checked when it starts the compiler.
use cargos_buildroot.Base.{
  ℕ, ◌<◌, ◌≡◌, ◌≢◌, ◌⊎◌, refl, true, false, Option, none, some, List, [], ◌∷◌, ◌++◌, Text, bytes,
  length, leb, ◌∙◌, sym, ap, arith, Bool-cases, Option-cases, inl, inr,
}
use mathlib.Core.List.{append_assoc}
use cargos_buildroot.Toolchain.Config.{Config}
use cargos_buildroot.Toolchain.Unsafe.{Message, Report, check_args}
use cargos_buildroot.Toolchain.Unsafe.Laws.{first_only, check_args_paranoid}
use cargos_buildroot.Toolchain.Arguments.{
  World, base_of, path_max, compiler_path, ccache_path, sysroot_path, overflows, flag, predef_args,
  float_abi_args, cpu_args, build_args,
}
use cargos_buildroot.Toolchain.Main.{
  executes, Run, is_paranoid, exec_args, variables_of, set_variables, execute, launch, after_check,
  start, start_at, main,
}

-- The end of a run that `setenv` does not stop is the one it has, and its messages are.
set_variables_executes :
    (w : World) (vs : List (Text × Text)) (run : Run) (args : List Text)
    → (set_variables w vs run).outcome ≡ executes args
    → (run.outcome ≡ executes args) × ((set_variables w vs run).messages ≡ run.messages)
unfolding set_variables
set_variables_executes w [] run args h = (h, refl)
set_variables_executes w ((name, v) ∷ vs) run args h = ground (
  arith,
  set_variables_executes w vs (record run { variables = run.variables ++ ((name, v) ∷ []) }) args,
)

execute_args :
    (w : World) (to_run args : List Text) → execute w to_run ≡ executes args → args ≡ to_run
execute_args w [] args h = ground arith
execute_args w (a ∷ rest) args h = ground arith

launch_executes :
    (c : Config) (w : World) (r : Report) (built args : List Text)
    → (launch c w r built).outcome ≡ executes args
    → (args ≡ exec_args c w built) × ((launch c w r built).messages ≡ r.messages)
unfolding launch
launch_executes c w r built args h =
    let (p, q) = set_variables_executes w (variables_of c) _ args h in
    (execute_args w (exec_args c w built) args p, q)

after_check_executes :
    (c : Config) (w : World) (r : Report) (built args : List Text)
    → (after_check c w r built).outcome ≡ executes args
    → (r.stopped ≡ false)
      × (args ≡ exec_args c w built)
      × ((after_check c w r built).messages ≡ r.messages)
unfolding after_check
after_check_executes c w r built args h = ground (arith, launch_executes c w r built args)

start_executes :
    (c : Config) (w : World) (dir base : Text) (argv args : List Text)
    → (start c w dir base argv).outcome ≡ executes args
    → (overflows c dir base ≡ false)
      × ((check_args (is_paranoid w) argv).stopped ≡ false)
      × (args ≡ exec_args c w (build_args c dir base argv))
      × ((start c w dir base argv).messages ≡ (check_args (is_paranoid w) argv).messages)
unfolding start
start_executes c w dir base argv args h = ground (
  arith,
  after_check_executes c w (check_args (is_paranoid w) argv) (build_args c dir base argv) args,
)

start_at_executes :
    (c : Config) (w : World) (o : Option (Text × Text)) (argv args : List Text)
    → (start_at c w o argv).outcome ≡ executes args
    → (dir : Text) × (base : Text) × (o ≡ some (dir, base))
      × (overflows c dir base ≡ false)
      × ((check_args (is_paranoid w) argv).stopped ≡ false)
      × (args ≡ exec_args c w (build_args c dir base argv))
      × ((start_at c w o argv).messages ≡ (check_args (is_paranoid w) argv).messages)
unfolding start_at
start_at_executes c w none argv args h = ground arith
start_at_executes c w (some (dir, base)) argv args h =
    let (f, r, a, m) = start_executes c w dir base argv args h in (dir, base, refl, f, r, a, m)

main-executes :
    (c : Config) (w : World) (progpath : Text) (argv args : List Text)
    → (main c w progpath argv).outcome ≡ executes args
    → (dir : Text) × (base : Text) × (base_of w progpath ≡ some (dir, base))
      × (overflows c dir base ≡ false)
      × ((check_args (is_paranoid w) argv).stopped ≡ false)
      × (args ≡ exec_args c w (build_args c dir base argv))
      × ((main c w progpath argv).messages ≡ (check_args (is_paranoid w) argv).messages)
unfolding main
main-executes c w progpath = start_at_executes c w (base_of w progpath)

not_leb : (m n : ℕ) → leb m n ≡ false → n < m
not_leb m n h = ground arith

overflows-fits :
    (c : Config) (dir base : Text)
    → overflows c dir base ≡ false
    → (length (compiler_path c dir base) < path_max)
      × (length (sysroot_path c dir) < path_max)
      × ((c.ccache ≡ false) ⊎ (length (ccache_path dir) < path_max))
unfolding overflows
overflows-fits c dir base h = (
  not_leb path_max _ (ground arith),
  not_leb path_max _ (ground arith),
  elim (Bool-cases c.ccache) [ inr e ↦ inl e | inl e ↦ inr (not_leb path_max _ (ground arith)) ],
)

regroup :
    (options xs ys zs : List Text) → options ++ (xs ++ (ys ++ zs)) ≡ (options ++ (xs ++ ys)) ++ zs
regroup options xs ys zs =
    sym (append_assoc options (xs ++ ys) zs ∙ ap (λ es. options ++ es) (append_assoc xs ys zs))

-- The options that are built in, those that the user may override, and the user's arguments.
build_args_command :
    (c : Config) (dir base : Text) (argv : List Text)
    → (options : List Text) × (build_args c dir base argv
        ≡ flag c.ccache (ccache_path dir)
          ++ (compiler_path c dir base
              ∷ bytes "--sysroot"
              ∷ sysroot_path c dir
              ∷ (options ++ argv)))
unfolding build_args predef_args
build_args_command c dir base argv = (
  _,
  append_assoc (flag c.ccache (ccache_path dir)) _ _
      ∙ ap
          (λ es.
            flag c.ccache (ccache_path dir)
            ++ (compiler_path c dir base ∷ bytes "--sysroot" ∷ sysroot_path c dir ∷ es))
          (regroup _ (float_abi_args c argv) (cpu_args c argv) argv),
)

-- The program that is started, and what it is given.
exec_args_command :
    (c : Config) (w : World) (path : Text) (command args : List Text)
    → args ≡ exec_args c w (flag c.ccache path ++ command)
    → ((c.ccache ≡ true) × (w.getenv (bytes "BR_NO_CCACHE") ≡ none) × (args ≡ path ∷ command))
      ⊎ (((c.ccache ≡ false) ⊎ (w.getenv (bytes "BR_NO_CCACHE") ≢ none)) × (args ≡ command))
unfolding exec_args
exec_args_command c w path command args h = elim (Bool-cases c.ccache) [
  | inr e ↦ inr (inl e, rw e at h)
  | inl e ↦ elim (Option-cases (w.getenv (bytes "BR_NO_CCACHE"))) [
    | inl n ↦ inl (e, n, rw (e, n) at h)
    | inr (v, n) ↦ inr (inr (λ k. ground arith), rw (e, n) at h)
  ]
]

-- Where the wrapper starts a program, the directory and the name have been found, the paths of the compiler, of the
-- sysroot and, if the wrapper is built with it, of ccache are shorter than the buffers, and the check of the paths
-- has not stopped the wrapper. The program is ccache, given the compiler, if the wrapper is built with it and
-- BR_NO_CCACHE is not in the environment, and the compiler if not. The compiler is given --sysroot with the path of
-- the sysroot, further options, and at the end the user's arguments. What is printed about paths is what the check
-- says.
pub main_executes :
    (c : Config) (w : World) (progpath : Text) (argv args : List Text)
    → (main c w progpath argv).outcome ≡ executes args
    → (dir : Text) × (base : Text) × (options : List Text) × (base_of w progpath ≡ some (dir, base))
      × ((length (compiler_path c dir base) < path_max)
          × (length (sysroot_path c dir) < path_max)
          × ((c.ccache ≡ false) ⊎ (length (ccache_path dir) < path_max)))
      × ((check_args (is_paranoid w) argv).stopped ≡ false)
      × (let command : List Text =
            compiler_path c dir base ∷ bytes "--sysroot" ∷ sysroot_path c dir ∷ (options ++ argv) in
          ((c.ccache ≡ true)
            × (w.getenv (bytes "BR_NO_CCACHE") ≡ none)
            × (args ≡ ccache_path dir ∷ command))
          ⊎ (((c.ccache ≡ false) ⊎ (w.getenv (bytes "BR_NO_CCACHE") ≢ none)) × (args ≡ command)))
      × ((main c w progpath argv).messages ≡ (check_args (is_paranoid w) argv).messages)
main_executes c w progpath argv args h =
    let (dir, base, found, fits, running, same, messages) =
      main-executes c w progpath argv args h in
    let (options, built) = build_args_command c dir base argv in
    (
      dir,
      base,
      options,
      found,
      overflows-fits c dir base fits,
      running,
      exec_args_command c w (ccache_path dir) _ args (same ∙ ap (exec_args c w) built),
      messages,
    )

first_only_running : (ms : List Message) → (first_only ms).stopped ≡ false → ms ≡ []
first_only_running [] h = refl
first_only_running (m ∷ ms) h = ground arith

-- With BR_COMPILER_PARANOID_UNSAFE_PATH set and not empty, the wrapper starts the compiler only if
-- the check of the arguments that only warns finds nothing to warn of.
pub main_paranoid :
    (c : Config) (w : World) (progpath : Text) (argv args : List Text)
    → is_paranoid w ≡ true
    → (main c w progpath argv).outcome ≡ executes args
    → (check_args false argv).messages ≡ []
main_paranoid c w progpath argv args p h =
    let (dir, base, _, _, running, _, _) = main-executes c w progpath argv args h in
    let stopped = ap (λ b. (check_args b argv).stopped) p in
    first_only_running (check_args false argv).messages
      (sym (ap (λ r. r.stopped) (check_args_paranoid argv).1) ∙ (sym stopped ∙ running))
