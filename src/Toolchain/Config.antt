-- ===== src/Toolchain/Config.antt =====
-- toolchain/toolchain-wrapper.c: the macros BR_* that the build defines, as a record. A macro that is
-- not defined is `none` or `false`.
use cargos_buildroot.Base.{Bool, Option, List, Text}

-- BR_CROSS_PATH_REL, BR_CROSS_PATH_ABS, or neither.
pub data CrossPath : Type 0 where
  relative absolute : Text → CrossPath
  standard : CrossPath

pub record Config : Type 0 where
  pub ccache : Bool
  pub abi : Option Text
  pub fpu : Option Text
  pub softfloat : Bool
  pub mode : Option Text
  pub is_64 : Bool
  pub omit_lock_prefix : Bool
  pub binfmt_flat : Bool
  pub mips_little_endian : Bool
  pub big_endian : Bool
  pub additional_cflags : List Text
  pub cross_path : CrossPath
  pub cross_path_suffix : Text
  pub sysroot : Text
  pub float_abi : Option Text
  pub arch : Option Text
  pub cpu : Option Text
  pub ccache_hash : Option Text
  pub ccache_basedir : Option Text
