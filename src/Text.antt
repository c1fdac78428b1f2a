-- ===== src/Text.antt =====
-- Go strings as lists of code points, and what the program uses of the packages strings,
-- strconv and unicode/utf8. A string is taken to be valid UTF-8; where Go counts bytes
-- `utf8_length` does.
mod Basic
pub mod Decimal
pub mod Trim
pub mod Split
pub use Basic.{codes}
unfoldable pub use Basic.{
  Text, is_space, trim_left, trim_space, text_eq, starts_with, cut, split_on, fields, utf8_length,
}
