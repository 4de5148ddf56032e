-- ===== src/Base/Word.antt =====
-- Machine words: the bits of native numbers, and the counts of package math/bits.
mod Digit
mod Bit
mod Count
unfoldable pub use Bit.{bit_at, ones, complement}
pub use Bit.*
unfoldable pub use Count.{ones_count, trailing_zeros}
pub use Count.*
pub use Digit.{bit_and_step, bit_or_step, bit_xor_step}
