-- ===== src/Core/Typing.antt =====
-- fathom/src/lang/core/typing.rs: the type checker of the core language.
pub mod Message
pub mod Context
pub mod Terms
pub mod Judgements
pub mod Quiet
pub mod Params
pub mod Agree
pub mod Derives
mod Examples
