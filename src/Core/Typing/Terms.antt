-- ===== src/Core/Typing/Terms.antt =====
-- fathom/src/lang/core/typing.rs: the bodies of `synth_sort`, `check_type` and `synth_type`, over the
-- functions that they call, with the fuel for evaluation, read back and comparison.
mod Structs
mod Check
mod Synth
unfoldable pub use Structs.*
unfoldable pub use Check.*
unfoldable pub use Synth.*
