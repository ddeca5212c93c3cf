-- ===== src/Url.antt =====
-- packages/core/src/parse: a URL as written, from the prepared text to its parts.
pub mod Syntax
pub mod Tokens
pub mod Chars
pub mod Parts
pub mod Decode
pub mod Facts
pub mod Failure
