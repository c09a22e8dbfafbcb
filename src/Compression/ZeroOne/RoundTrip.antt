-- ===== src/Compression/ZeroOne/RoundTrip.antt =====
-- src/rempi/rempi_compression_util.cpp: the bits of a compressed vector are read back.
use re_mpi.Common.{
  ℕ, ◌+◌, ◌-◌, ◌*◌, ◌%◌, ◌^◌, ◌<◌, ◌≤◌, ◌≡◌, false, refl, ap, ◌∙◌, List, [], ◌∷◌, ◌++◌, map, ◌==◌,
  arith, length, ok,
}
use re_mpi.Compression.ZeroOne.{
  sign, zero_one_loop, compress_by_zero_one_binary, first_offset, byte_loop,
  decompress_by_zero_one_binary,
}
use re_mpi.Compression.ZeroOne.Bits.{
  bits_from, IsBits, byte-IsBits, bit_loop-all, bit_loop-some, zero_one_loop-mod,
}

sign-le : (v : ℕ) → sign v ≤ 1
sign-le v = ground arith

abbrev pushed : (b v : ℕ) → ℕ
pushed b v = (b * 2) % 256 + sign v

byte_loop-last :
    (v n offset : ℕ) (bits : List ℕ)
    → 0 < n
    → n ≤ 8
    → first_offset n ≡ offset
    → bits_from n offset v ≡ bits
    → byte_loop (v ∷ []) n ≡ ok bits
unfolding byte_loop
byte_loop-last v n offset bits pos le start shape =
    rw (start, bit_loop-some 8 n offset v pos le (omega arith)) (ap ok shape)

byte_loop-next :
    (v n : ℕ) (bin bits others : List ℕ)
    → 0 < n
    → 8 + n < 2 ^ 64
    → bits_from 8 128 v ≡ bits
    → byte_loop bin n ≡ ok others
    → byte_loop (v ∷ bin) (8 + n) ≡ ok (bits ++ others)
unfolding byte_loop
byte_loop-next v n bin bits others pos small shape rest =
    let start : first_offset (8 + n) ≡ 128 = ground arith in
    let left : 8 + n - 8 ≡ n = omega arith in
    let more : (n == 0) ≡ false = ground arith in
    rw
      (
        start,
        bit_loop-all 8 (8 + n) 128 v (omega arith) (omega arith) small,
        left,
        more,
        rest,
        shape,
      )
      refl

-- A byte that holds the signs of the values, behind `z` zeros.
module _ (a b c d e f g h : ℕ) where
  signs-IsBits :
      (v : ℕ)
      → v
        ≡ sign a * 128
          + sign b * 64
          + sign c * 32
          + sign d * 16
          + sign e * 8
          + sign f * 4
          + sign g * 2
          + sign h
      → IsBits v (sign a) (sign b) (sign c) (sign d) (sign e) (sign f) (sign g) (sign h)
  signs-IsBits v shape =
      byte-IsBits v (sign a) (sign b) (sign c) (sign d) (sign e) (sign f) (sign g) (sign h)
        (sign-le a) (sign-le b) (sign-le c) (sign-le d) (sign-le e) (sign-le f) (sign-le g)
        (sign-le h) shape

round_trip :
    (vec : List ℕ)
    → 0 < length vec
    → length vec < 2 ^ 64
    → byte_loop (zero_one_loop 0 0 vec) (length vec) ≡ ok (map sign vec)
unfolding zero_one_loop
round_trip [] pos small = absurd (omega arith)
round_trip (h ∷ []) pos small =
    byte_loop-last _ 1 1 _ (omega arith) (omega arith) refl
      (signs-IsBits 0 0 0 0 0 0 0 h (pushed 0 h) (omega (arith, sign-le h))).one
round_trip (g ∷ h ∷ []) pos small =
    byte_loop-last _ 2 2 _ (omega arith) (omega arith) refl
      (signs-IsBits 0 0 0 0 0 0 g h (pushed (pushed 0 g) h)
        (omega (arith, sign-le g, sign-le h))).two
round_trip (f ∷ g ∷ h ∷ []) pos small =
    byte_loop-last _ 3 4 _ (omega arith) (omega arith) refl
      (signs-IsBits 0 0 0 0 0 f g h (pushed (pushed (pushed 0 f) g) h)
        (omega (arith, sign-le f, sign-le g, sign-le h))).three
round_trip (e ∷ f ∷ g ∷ h ∷ []) pos small =
    byte_loop-last _ 4 8 _ (omega arith) (omega arith) refl
      (signs-IsBits 0 0 0 0 e f g h (pushed (pushed (pushed (pushed 0 e) f) g) h)
        (omega (arith, sign-le e, sign-le f, sign-le g, sign-le h))).four
round_trip (d ∷ e ∷ f ∷ g ∷ h ∷ []) pos small =
    byte_loop-last _ 5 16 _ (omega arith) (omega arith) refl
      (signs-IsBits 0 0 0 d e f g h (pushed (pushed (pushed (pushed (pushed 0 d) e) f) g) h)
        (omega (arith, sign-le d, sign-le e, sign-le f, sign-le g, sign-le h))).five
round_trip (c ∷ d ∷ e ∷ f ∷ g ∷ h ∷ []) pos small =
    byte_loop-last _ 6 32 _ (omega arith) (omega arith) refl
      (signs-IsBits 0 0 c d e f g h
        (pushed (pushed (pushed (pushed (pushed (pushed 0 c) d) e) f) g) h)
        (omega (arith, sign-le c, sign-le d, sign-le e, sign-le f, sign-le g, sign-le h))).six
round_trip (b ∷ c ∷ d ∷ e ∷ f ∷ g ∷ h ∷ []) pos small =
    byte_loop-last _ 7 64 _ (omega arith) (omega arith) refl
      (signs-IsBits 0 b c d e f g h
        (pushed (pushed (pushed (pushed (pushed (pushed (pushed 0 b) c) d) e) f) g) h)
        (omega (
          arith,
          sign-le b,
          sign-le c,
          sign-le d,
          sign-le e,
          sign-le f,
          sign-le g,
          sign-le h,
        ))).seven
round_trip (a ∷ b ∷ c ∷ d ∷ e ∷ f ∷ g ∷ h ∷ []) pos small =
    byte_loop-last _ 8 128 _ (omega arith) (omega arith) refl
      (signs-IsBits a b c d e f g h
        (pushed (pushed (pushed (pushed (pushed (pushed (pushed (pushed 0 a) b) c) d) e) f) g) h)
        (omega (
          arith,
          sign-le a,
          sign-le b,
          sign-le c,
          sign-le d,
          sign-le e,
          sign-le f,
          sign-le g,
          sign-le h,
        ))).eight
round_trip (a ∷ b ∷ c ∷ d ∷ e ∷ f ∷ g ∷ h ∷ next ∷ vec) pos small =
    ap (λ n. byte_loop (zero_one_loop 0 0 (a ∷ b ∷ c ∷ d ∷ e ∷ f ∷ g ∷ h ∷ next ∷ vec)) n)
      {x = length (a ∷ b ∷ c ∷ d ∷ e ∷ f ∷ g ∷ h ∷ next ∷ vec)} {y = 8 + length (next ∷ vec)}
      (omega arith)
    ∙ byte_loop-next _ (length (next ∷ vec)) (zero_one_loop 8 0 (next ∷ vec)) _
        (map sign (next ∷ vec)) (omega arith) (omega arith)
        (signs-IsBits a b c d e f g h
          (pushed (pushed (pushed (pushed (pushed (pushed (pushed (pushed 0 a) b) c) d) e) f) g) h)
          (omega (
            arith,
            sign-le a,
            sign-le b,
            sign-le c,
            sign-le d,
            sign-le e,
            sign-le f,
            sign-le g,
            sign-le h,
          ))).eight
        (ap (λ bin. byte_loop bin (length (next ∷ vec))) (zero_one_loop-mod (next ∷ vec) 8 0 0 refl)
          ∙ round_trip (next ∷ vec) (omega arith) (omega arith))

-- For every vector of at least one and fewer than `2 ^ 32` values: decompressing what compression
-- gives, with the length of the vector, succeeds, and gives 1 for each positive value and 0 for each
-- other one, in order.
pub zero_one_inverse :
    (vec : List ℕ)
    → 0 < length vec
    → length vec < 2 ^ 32
    → decompress_by_zero_one_binary (compress_by_zero_one_binary vec) (length vec)
      ≡ ok (map sign vec)
unfolding decompress_by_zero_one_binary compress_by_zero_one_binary
zero_one_inverse vec pos small = round_trip vec pos (omega arith)
