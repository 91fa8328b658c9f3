-- ===== src/Kconfig.antt =====
-- support/kconfig: the configuration engine behind the menus.
pub mod Symbol
pub mod Expr
pub mod Equality
pub mod Transform
pub mod Join
pub mod Compare
pub mod Extract
pub mod Print
pub mod Strings
pub mod Range
pub mod Calc
pub mod Config
pub mod Table
pub mod Expand
pub mod Check
pub mod Menu
mod Sample
mod Tests
