-- ===== src/Decimal.antt =====
-- The third-party package shopspring/decimal, as an interface (`Defs`), consequences of its laws
-- (`Laws`), and one type that meets it (`Milli`), on which examples are evaluated.
mod Defs
pub mod Milli
mod Laws
pub use Defs.*
pub use Laws.*
