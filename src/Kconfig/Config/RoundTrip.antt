-- ===== src/Kconfig/Config/RoundTrip.antt =====
-- support/kconfig/confdata.c: the configuration that is written is the one that is read.
pub mod Values
pub mod Files
pub mod Recovers
pub mod Heading
pub mod Reads
