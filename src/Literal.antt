-- ===== src/Literal.antt =====
-- fathom/src/literal.rs: the decoding of numeric literals.
pub mod Token
pub mod Parse
pub mod Value
pub mod Float
pub mod Reports
mod Examples
