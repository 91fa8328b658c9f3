-- ===== src/Makedevs/System.antt =====
-- package/makedevs/makedevs.c: what makedevs asks of the system, as parameters. The state of the file
-- system is the type `W`; a call returns whether it succeeds, and the new state.
use cargos_buildroot.Base.{ℕ, Bool, Option, List, Text}

-- `mkdir` succeeds, fails with EEXIST or EISDIR, or fails for another reason.
pub data Made : Type 0 where
  created exists refused : Made

-- An entry of the table as `sscanf` reads it, with the values of `main` for the fields that are
-- not there.
pub record Entry : Type 0 where
  pub name : Text
  pub type : ℕ
  pub mode : ℕ
  pub user : Text
  pub group : Text
  pub major : ℕ
  pub minor : ℕ
  pub start : ℕ
  pub increment : ℕ
  pub count : ℕ

-- `sscanf_xattr` and `sscanf_entry` are the two calls of `sscanf`, with `none` for a result below 1 and
-- below 2; `bb_set_xattr` exits with `none`; `strtoul` gives a number if it reads the whole of a
-- text that is not empty; `print` is the format %u.
pub record System (W : Type 0) : Type 0 where
  pub mkdir : Text → W → Made × W
  pub is_directory : W → Text → Bool
  pub is_regular : W → Text → Bool
  pub chmod : Text → ℕ → W → Bool × W
  pub chown : Text → ℕ → ℕ → W → Bool × W
  pub mknod : Text → ℕ → ℕ → W → Bool × W
  pub bb_set_xattr : Text → Text → W → Option W
  pub makedev : ℕ → ℕ → ℕ
  pub print : ℕ → Text
  pub sscanf_xattr : Text → Option Text
  pub sscanf_entry : Text → Option Entry
  pub strtoul : Text → Option ℕ
  pub passwd : List (Text × ℕ)
  pub groups : List (Text × ℕ)
  pub uid : ℕ
  pub gid : ℕ
