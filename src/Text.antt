-- ===== src/Text.antt =====
-- std's text operations on byte strings: `str::parse` of an unsigned integer, `str::split_once`,
-- `strip_prefix`, decimal output and the splitting of lines and words.
pub mod Decimal
pub mod Split
pub mod Listed
