-- ===== src/Runtime/UInt/Encode.antt =====
-- fathom-runtime/src/lib.rs: what `write` appends.
use mathlib.Core.List.{append_assoc}
use ddl.Prelude.{ℕ, ◌/◌, ◌^◌, ◌<◌, ◌≡◌, ap, [], ◌∷◌, ◌++◌, arith}
use ddl.Runtime.Write.{FormatWriter, write_u8}
use ddl.Runtime.UInt.{UInt, u8, host_end, write}
use ddl.Runtime.UInt.Bytes.{encode}

-- Taking off one more byte is one longer shift.
module _ (v : ℕ) where
  by_16 : v / 2 ^ 8 / 256 ≡ v / 2 ^ 16
  by_16 = omega arith

  by_24 : v / 2 ^ 16 / 256 ≡ v / 2 ^ 24
  by_24 = omega arith

  by_32 : v / 2 ^ 24 / 256 ≡ v / 2 ^ 32
  by_32 = omega arith

  by_40 : v / 2 ^ 32 / 256 ≡ v / 2 ^ 40
  by_40 = omega arith

  by_48 : v / 2 ^ 40 / 256 ≡ v / 2 ^ 48
  by_48 = omega arith

  by_56 : v / 2 ^ 48 / 256 ≡ v / 2 ^ 56
  by_56 = omega arith

ruleset one_list = (append_assoc, by_16, by_24, by_32, by_40, by_48, by_56)

-- On every value of the host type, `write` keeps the buffer and appends the encoding of the value.
pub write-encode :
    (u : UInt) (v : ℕ) (w : FormatWriter)
    → v < host_end u
    → (write u v w).buffer ≡ w.buffer ++ encode u v
unfolding write encode write_u8
write-encode u8 v w h = ap (λ (b : ℕ). w.buffer ++ (b ∷ [])) (omega arith)
write-encode _ v w h = simp one_list
