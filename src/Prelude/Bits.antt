-- ===== src/Prelude/Bits.antt =====
-- Bit operations at variables: the digits of `&`, `|` and `^`, and masks as arithmetic.
mod Digits
mod Masks
mod Extent
pub use Digits.*
pub use Masks.*
pub use Extent.*
