-- ===== src/Expr.antt =====
-- The expressions of a function: what `codegen` of each class of ast/ builds, over the builder of
-- LLVM. The sub-expressions of a class are reached by a parameter, `Factor::codegen`.
pub mod Operators
pub mod Conditions
pub mod Factors
pub mod Chains
pub mod Fuel
pub mod Typing
pub mod Interfaces
pub mod Calls
pub mod Members
pub mod InitList
pub mod Initializers
pub mod Comprehension
pub mod Tied
pub mod Captures
pub mod Closures
