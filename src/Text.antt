-- ===== src/Text.antt =====
-- What the program uses of Python's `str` and `bytes`: prefixes, decimal numbers, `int(s)`, UTF-8,
-- base64, and the pattern that finds the last two segments of a schema.
pub mod Decimal
pub mod Prefix
pub mod IntLiteral
pub mod Segments
pub mod Utf8
pub mod NoSlash
pub mod Base64
