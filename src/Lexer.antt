-- ===== src/Lexer.antt =====
-- include/parser/Lexer.h and src/parser/Lexer.cpp: from the characters of a file to tokens.
mod Stream
mod Tokens
mod Scan
mod Next
pub mod Progress
pub mod Parts
pub mod Branches
pub mod Total
pub mod Names
pub mod Reserved
pub mod Words
unfoldable pub use Stream.*
unfoldable pub use Tokens.*
unfoldable pub use Scan.*
unfoldable pub use Next.*
