-- ===== src/Parser.antt =====
-- src/parser: from the text of a statement to its syntax tree.
pub mod Ast
pub mod Lexer
pub mod State
pub mod Descent
mod Tests
