-- ===== src/Scanner.antt =====
-- The scanner and its dictionary of reserved words (src/parser/YmslScanner.cc,
-- src/parser/RsrvWordDic.cc).
pub mod Token
pub mod Chars
pub mod RsrvWordDic
pub mod Words
pub mod Lexemes
pub mod Scan
pub mod Progress
pub mod Driver
pub mod Munch
pub mod Reals
pub mod Layout
pub mod Dictionary
pub mod Spelling
mod Tests
