-- ===== src/Surface/Elaborate.antt =====
-- fathom/src/pass/surface_to_core.rs: the elaboration of surface terms into core terms.
pub mod Message
pub mod Context
pub mod Names
pub mod Aligned
pub mod Resolve
pub mod Host
pub mod Structs
pub mod Match
pub mod Check
pub mod Synth
pub mod Judgements
pub mod Items
pub mod Quiet
pub mod Sound
mod Examples
mod Omitted
