-- ===== src/Core.antt =====
-- fathom/src/lang/core.rs and its children: the core language, its evaluation and its data reader.
pub mod Term
pub mod Locals
pub mod Globals
pub mod Semantics
pub mod Typing
pub mod Binary
pub mod Examples
