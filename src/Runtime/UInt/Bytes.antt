-- ===== src/Runtime/UInt/Bytes.antt =====
-- The specification of the formats of unsigned integers: positional numbers of base 256.
use mathlib.Core.List.{reverse_aux, reverse-reverse}
use native.Mathlib.Nat.{pow-suc}
use ddl.Prelude.{
  ℕ, zero, suc, ◌+◌, ◌*◌, ◌/◌, ◌%◌, ◌^◌, ◌<◌, ◌≡◌, refl, ap, ◌∙◌, sym, List, [], ◌∷◌, reverse,
  length, All, arith,
}
use ddl.Runtime.Read.{IsByte}
use ddl.Runtime.UInt.{UInt, u8, u16_le, u16_be, u32_le, u32_be, u64_le, u64_be, size, host_end}

-- The number that a sequence of bytes stands for, lowest byte first and highest byte first.
abbrev pub decode_le : List ℕ → ℕ
decode_le [] = 0
decode_le (b ∷ bs) = b + 256 * decode_le bs

abbrev pub decode_be : ℕ → List ℕ → ℕ
decode_be acc [] = acc
decode_be acc (b ∷ bs) = decode_be (256 * acc + b) bs

unfoldable pub decode : UInt → List ℕ → ℕ
decode u8 bs = decode_le bs
decode u16_le bs = decode_le bs
decode u16_be bs = decode_be 0 bs
decode u32_le bs = decode_le bs
decode u32_be bs = decode_be 0 bs
decode u64_le bs = decode_le bs
decode u64_be bs = decode_be 0 bs

-- The lowest `n` bytes of a number.
abbrev pub encode_le : ℕ → ℕ → List ℕ
encode_le zero v = []
encode_le (suc n) v = v % 256 ∷ encode_le n (v / 256)

unfoldable pub encode : UInt → ℕ → List ℕ
encode u8 v = encode_le 1 v
encode u16_le v = encode_le 2 v
encode u16_be v = reverse (encode_le 2 v)
encode u32_le v = encode_le 4 v
encode u32_be v = reverse (encode_le 4 v)
encode u64_le v = encode_le 8 v
encode u64_be v = reverse (encode_le 8 v)

-- The format with the same size and the other byte order.
abbrev pub swap_order : UInt → UInt
swap_order u8 = u8
swap_order u16_le = u16_be
swap_order u16_be = u16_le
swap_order u32_le = u32_be
swap_order u32_be = u32_le
swap_order u64_le = u64_be
swap_order u64_be = u64_le

decode_be-reverse_aux :
    (bs acc : List ℕ) → decode_be (decode_le acc) bs ≡ decode_le (reverse_aux bs acc)
decode_be-reverse_aux [] acc = refl
decode_be-reverse_aux (b ∷ bs) acc =
    let turned : 256 * decode_le acc + b ≡ decode_le (b ∷ acc) = omega arith in
    rw turned (decode_be-reverse_aux bs (b ∷ acc))

decode_be-reverse : (bs : List ℕ) → decode_be 0 (reverse bs) ≡ decode_le bs
decode_be-reverse bs = decode_be-reverse_aux (reverse bs) [] ∙ ap decode_le (reverse-reverse bs)

-- Reversing the bytes reads the number in the other byte order.
pub decode-reverse :
    (u : UInt) (bs : List ℕ) → length bs ≡ size u → decode u (reverse bs) ≡ decode (swap_order u) bs
unfolding decode
decode-reverse u8 (b ∷ []) h = refl
decode-reverse u8 [] h = refl
decode-reverse u8 (b ∷ c ∷ bs) h = absurd (omega arith)
decode-reverse u16_le bs h = sym (decode_be-reverse_aux bs [])
decode-reverse u16_be bs h = decode_be-reverse bs
decode-reverse u32_le bs h = sym (decode_be-reverse_aux bs [])
decode-reverse u32_be bs h = decode_be-reverse bs
decode-reverse u64_le bs h = sym (decode_be-reverse_aux bs [])
decode-reverse u64_be bs h = decode_be-reverse bs

decode_le-encode_le : (n v : ℕ) → v < 256 ^ n → decode_le (encode_le n v) ≡ v
decode_le-encode_le zero v h = omega arith
decode_le-encode_le (suc n) v h =
    omega (arith, decode_le-encode_le n (v / 256) (omega (arith, pow-suc 256 n)))

encode_le-decode_le : (bs : List ℕ) → All IsByte bs → encode_le (length bs) (decode_le bs) ≡ bs
encode_le-decode_le [] h = refl
encode_le-decode_le (b ∷ bs) h =
    let low : (b + 256 * decode_le bs) % 256 ≡ b = omega arith in
    let high : (b + 256 * decode_le bs) / 256 ≡ decode_le bs = omega arith in
    rw (low, high, encode_le-decode_le bs h.1)

decode_le-lt : (bs : List ℕ) → All IsByte bs → decode_le bs < 256 ^ length bs
decode_le-lt [] h = omega arith
decode_le-lt (b ∷ bs) h = omega (arith, decode_le-lt bs h.1, pow-suc 256 (length bs))

pub decode-encode : (u : UInt) (v : ℕ) → v < host_end u → decode u (encode u v) ≡ v
unfolding decode encode
decode-encode u8 v h = decode_le-encode_le 1 v h
decode-encode u16_le v h = decode_le-encode_le 2 v h
decode-encode u16_be v h = decode_be-reverse (encode_le 2 v) ∙ decode_le-encode_le 2 v h
decode-encode u32_le v h = decode_le-encode_le 4 v h
decode-encode u32_be v h = decode_be-reverse (encode_le 4 v) ∙ decode_le-encode_le 4 v h
decode-encode u64_le v h = decode_le-encode_le 8 v h
decode-encode u64_be v h = decode_be-reverse (encode_le 8 v) ∙ decode_le-encode_le 8 v h

pub length-encode : (u : UInt) (v : ℕ) → length (encode u v) ≡ size u
unfolding encode
length-encode u8 v = refl
length-encode u16_le v = refl
length-encode u16_be v = refl
length-encode u32_le v = refl
length-encode u32_be v = refl
length-encode u64_le v = refl
length-encode u64_be v = refl

All-reverse_aux :
    (bs acc : List ℕ) → All IsByte bs → All IsByte acc → All IsByte (reverse_aux bs acc)
All-reverse_aux [] acc h k = k
All-reverse_aux (b ∷ bs) acc h k = All-reverse_aux bs (b ∷ acc) h.1 (h.0, k)

length-reverse_aux : (bs acc : List ℕ) → length (reverse_aux bs acc) ≡ length bs + length acc
length-reverse_aux [] acc = omega arith
length-reverse_aux (b ∷ bs) acc = omega (arith, length-reverse_aux bs (b ∷ acc))

pub All-reverse : (bs : List ℕ) → All IsByte bs → All IsByte (reverse bs)
All-reverse bs h = All-reverse_aux bs [] h tt

pub length-reverse : (bs : List ℕ) → length (reverse bs) ≡ length bs
length-reverse bs = omega (arith, length-reverse_aux bs [])

-- The bytes of a format, in the order that `decode_le` takes.
abbrev le_bytes : UInt → List ℕ → List ℕ
le_bytes u16_be bs = reverse bs
le_bytes u32_be bs = reverse bs
le_bytes u64_be bs = reverse bs
le_bytes _ bs = bs

decode-le_bytes : (u : UInt) (bs : List ℕ) → decode u bs ≡ decode_le (le_bytes u bs)
unfolding decode
decode-le_bytes u16_be bs = decode_be-reverse_aux bs []
decode-le_bytes u32_be bs = decode_be-reverse_aux bs []
decode-le_bytes u64_be bs = decode_be-reverse_aux bs []
decode-le_bytes _ bs = refl

encode-le_bytes : (u : UInt) (v : ℕ) → encode u v ≡ le_bytes u (encode_le (size u) v)
unfolding encode
encode-le_bytes u16_be v = refl
encode-le_bytes _ v = refl

le_bytes_twice : (u : UInt) (bs : List ℕ) → le_bytes u (le_bytes u bs) ≡ bs
le_bytes_twice u16_be bs = reverse-reverse bs
le_bytes_twice u32_be bs = reverse-reverse bs
le_bytes_twice u64_be bs = reverse-reverse bs
le_bytes_twice _ bs = refl

le_bytes-All : (u : UInt) (bs : List ℕ) → All IsByte bs → All IsByte (le_bytes u bs)
le_bytes-All u16_be bs h = All-reverse bs h
le_bytes-All u32_be bs h = All-reverse bs h
le_bytes-All u64_be bs h = All-reverse bs h
le_bytes-All _ bs h = h

length-le_bytes : (u : UInt) (bs : List ℕ) → length (le_bytes u bs) ≡ length bs
length-le_bytes u16_be bs = length-reverse bs
length-le_bytes u32_be bs = length-reverse bs
length-le_bytes u64_be bs = length-reverse bs
length-le_bytes _ bs = refl

module _ (u : UInt) (bs : List ℕ) (h : All IsByte bs) (n : length bs ≡ size u) where
  -- Decoding loses nothing.
  pub encode-decode : encode u (decode u bs) ≡ bs
  encode-decode = rw (
    encode-le_bytes,
    decode-le_bytes,
    ← n,
    ← length-le_bytes u bs,
    encode_le-decode_le (le_bytes u bs) (le_bytes-All u bs h),
    le_bytes_twice,
  )

  decode-lt_size : decode u bs < 256 ^ size u
  decode-lt_size =
      rw (decode-le_bytes, ← n, ← length-le_bytes u bs)
        (decode_le-lt (le_bytes u bs) (le_bytes-All u bs h))

pow_size : (u : UInt) → 256 ^ size u ≡ host_end u
pow_size u8 = refl
pow_size _ = refl

pub decode-lt :
    (u : UInt) (bs : List ℕ) → All IsByte bs → length bs ≡ size u → decode u bs < host_end u
decode-lt u bs h n = rw (pow_size u) at (decode-lt_size u bs h n)
