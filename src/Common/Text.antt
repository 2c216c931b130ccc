-- ===== src/Common/Text.antt =====
-- `str` as the list of its code points, with the functions of it that the program calls.
mod Laws
pub mod Inversion
pub use Laws.*
pub use Inversion.*
pub mod Basic
unfoldable pub use Basic.*
