-- ===== src/Decl.antt =====
-- The declarations of a module: whether their names are free, and what each registers.
pub mod Ident
pub mod Alias
pub mod Enumeration
pub mod Structure
pub mod Interface
pub mod DataClass
pub mod ExternFunc
pub mod Args
pub mod CompilerOpt
pub mod StructOpName
