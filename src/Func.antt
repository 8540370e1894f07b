-- ===== src/Func.antt =====
-- ast/function.hpp: the type of a function, the return type that is deduced from its body, and the
-- building of the body.
pub mod Returns
pub mod Codegen
pub mod Element
pub mod Structs
pub mod Bind
