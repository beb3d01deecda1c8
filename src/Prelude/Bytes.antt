-- ===== src/Prelude/Bytes.antt =====
-- Strings and byte slices, hexadecimal texts, white space, words and numbers.
mod Text
mod Hex
mod Trim
mod Words
unfoldable pub use Text.*
unfoldable pub use Hex.*
unfoldable pub use Trim.*
unfoldable pub use Words.*
