-- ===== src/Std.antt =====
-- The data structures of packages/std.
pub mod Array
pub mod Stack
pub mod Allocator
pub mod Queue
pub mod Hash
pub mod String
pub mod Path
pub mod Lexer
pub mod Sexp
