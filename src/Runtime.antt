-- ===== src/Runtime.antt =====
-- The crate fathom-runtime: readers and writers of binary data, and the formats of numbers.
pub mod Read
pub mod Write
pub mod UInt
pub mod Number
pub mod Scope
pub mod Examples
