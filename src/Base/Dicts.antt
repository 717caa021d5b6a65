-- ===== src/Base/Dicts.antt =====
-- A Python dict: keys in the order of first insertion, a repeated key overwritten in place.
mod Sums
pub use Sums.*
mod Defs
pub use Defs.*
