-- ===== src/Base/Bits.antt =====
-- Facts about `&` and `|` on machine words, and tables that check every byte.
mod Step
mod Fields
mod Tables
pub use Step.{bit_and_step, bit_or_step}
pub use Fields.*
unfoldable pub use Tables.*
