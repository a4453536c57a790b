-- ===== src/Core/Binary.antt =====
-- fathom/src/lang/core/binary/read.rs: reading binary data with formats of the core language.
pub mod Session
pub mod Read
pub mod Item
pub mod Extends
pub mod Layout
pub mod Fields
pub mod Examples
