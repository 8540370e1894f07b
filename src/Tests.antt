-- ===== src/Tests.antt =====
-- A concrete machine for the interfaces to LLVM, and runs of the compiler's operations on it.
pub mod Texts
pub mod Nodes
pub mod Machine
pub mod Build
pub mod Tables
pub mod Types
pub mod Decls
pub mod Modules
pub mod Classes
pub mod Dispatch
pub mod Expressions
pub mod Functions
pub mod Loops
pub mod Calls
pub mod Members
pub mod Closures
