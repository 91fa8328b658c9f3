-- ===== src/Kconfig/Config.antt =====
-- support/kconfig/confdata.c: configuration files (.config), read into the symbols and written from
-- them. `prefix` is CONFIG_, which lkc.h takes from the environment; Buildroot leaves it empty.
pub mod Line
pub mod Read
pub mod Write
pub mod New
pub mod Saved
pub mod RoundTrip
mod Tests
