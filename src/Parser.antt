-- ===== src/Parser.antt =====
-- src/parser: SQL text to tokens, and to statements.
pub mod Tokenizer
pub mod Ast
pub mod Words
pub mod Keywords
pub mod Parse
pub mod Print
pub mod Sql
mod Tests
mod SqlTests
