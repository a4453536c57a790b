-- ===== src/Surface.antt =====
-- fathom/src/lang/surface.rs and fathom/src/pass: the surface language, and its relation to the core
-- language.
pub mod Term
pub mod Distill
pub mod Restores
pub mod Elaborate
pub mod Errors
mod Examples
