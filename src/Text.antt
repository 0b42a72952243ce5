-- ===== src/Text.antt =====
-- Text as its UTF-8 bytes, and the functions of the standard library on it that src/rtsp uses.
mod Scan
mod Cut
mod Space
pub mod Utf8
mod Decimal
unfoldable pub use Scan.*
pub use Cut.*
unfoldable pub use Space.*
unfoldable pub use Decimal.*
