-- ===== src/Runtime/Write.antt =====
-- fathom-runtime/src/write.rs: a buffer that grows at its end.
use ddl.Prelude.{ℕ, List, [], ◌∷◌, ◌++◌}

pub record FormatWriter : Type 0 where
  pub buffer : List ℕ

unfoldable pub new_writer : List ℕ → FormatWriter
new_writer xs = record { buffer = xs }

unfoldable pub write_u8 : ℕ → FormatWriter → FormatWriter
write_u8 value w = record { buffer = w.buffer ++ (value ∷ []) }
