-- ===== src/Core/Semantics.antt =====
-- fathom/src/lang/core/semantics.rs: values, and evaluation of terms to values.
pub mod Value
pub mod Elimination
pub mod Eval
pub mod Fields
pub mod ReadBack
pub mod Equal
