-- ===== src/Stmt.antt =====
-- The statements of a function: what `codegen` and `runScopeExit` of each class of ast/ build.
-- Expressions are reached by a parameter, `codegen` of an expression or of a factor.
pub mod Values
pub mod Branches
pub mod Jumps
pub mod Body
pub mod Codegen
pub mod Declarations
pub mod Matches
