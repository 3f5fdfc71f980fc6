-- ===== src/Text.antt =====
-- Python's `str` as a list of code points, with the methods that the program calls. The case mapping
-- is that of the ASCII letters; `isspace` is Python's whole set.
pub mod Chars
pub mod Lines
pub mod Words
pub mod Decimal
pub mod Number
pub mod Strip
pub mod Joined
unfoldable pub use Chars.*
unfoldable pub use Lines.*
unfoldable pub use Words.*
unfoldable pub use Decimal.*
unfoldable pub use Number.*
