-- ===== src/Toolchain.antt =====
-- toolchain/toolchain-wrapper.c: the wrapper that runs the real compiler with fixed arguments.
pub mod Config
pub mod Unsafe
pub mod Arguments
pub mod Main
mod Tests
