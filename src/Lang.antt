-- ===== src/Lang.antt =====
-- src/lang: expressions, their compilation to opcodes, and the definition of nodes and rules.
pub mod Exp
pub mod Stmt
pub mod Parse
pub mod Compile
pub mod Define
pub mod Execute
mod Tests
