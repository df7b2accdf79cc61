-- ===== src/Text.antt =====
-- Byte strings, with what the sources use of <cctype>, in the C locale, and of std::string_view.
pub mod Bytes
pub mod Cut
pub mod Decimal
unfoldable pub use Bytes.*
unfoldable pub use Cut.*
