-- ===== src/Compression/ZeroOne.antt =====
-- src/rempi/rempi_compression_util.cpp, compress_by_zero_one_binary and its inverse: a vector of
-- unsigned values as bits, most significant first; the last byte holds its bits in its low end.
pub mod Bits
pub mod RoundTrip
use re_mpi.Common.{
  ℕ, zero, suc, ◌+◌, ◌-◌, ◌*◌, ◌/◌, ◌%◌, ◌^◌, ◌<◌, ◌≤◌, ◌≡◌, true, false, refl, sym, ap, ◌∙◌, List,
  [], ◌∷◌, ◌++◌, map, ◌==◌, ltb, if◌then◌else◌, arith, length, Run, ok, abort, ◌>>=◌,
}
use mathlib.Core.Path.{ap₂}

-- `vec[i] > 0`
abbrev pub sign : ℕ → ℕ
sign v = if ltb 0 v then 1 else 0

-- The loop from index `i` on; `b` is `binary[bin_index]` so far.
unfoldable pub zero_one_loop : (i b : ℕ) → List ℕ → List ℕ
zero_one_loop i b [] = if i % 8 == 0 then [] else b ∷ []
zero_one_loop i b (v ∷ vec) =
    let b' = (b * 2) % 256 + sign v in
    let full = zero_one_loop (i + 1) 0 vec in
    let partial = zero_one_loop (i + 1) b' vec in if i % 8 == 7 then b' ∷ full else partial

-- The loop's index is an unsigned int: it ends for fewer than `2 ^ 32` values.
unfoldable pub compress_by_zero_one_binary : List ℕ → List ℕ
unfolding zero_one_loop
compress_by_zero_one_binary = zero_one_loop 0 0

-- `(b & offset) != 0`, where `offset` is a power of two, or 0.
abbrev pub test_bit : (offset b : ℕ) → ℕ
test_bit offset b = if offset == 0 then 0 else (b / offset) % 2

-- The loop over the bits of a byte, `j` more times: the bits, and the count left, 0 where it returns.
unfoldable pub bit_loop : (j count offset b : ℕ) → List ℕ × ℕ
bit_loop zero count offset b = ([], count)
bit_loop (suc j) count offset b =
    let left = (count + 2 ^ 64 - 1) % 2 ^ 64 in
    let (bits, rest) = bit_loop j left (offset / 2) b in
    if left == 0 then (test_bit offset b ∷ [], 0) else (test_bit offset b ∷ bits, rest)

abbrev pub first_offset : ℕ → ℕ
first_offset count = if ltb count 8 then 128 / 2 ^ (8 - count) else 128

-- Reading behind the end of `bin` is undefined behaviour.
unfoldable pub byte_loop : List ℕ → ℕ → Run (List ℕ)
unfolding bit_loop
byte_loop [] count = abort
byte_loop (b ∷ bin) count =
    let (bits, rest) = bit_loop 8 count (first_offset count) b in
    let others = byte_loop bin rest in
    if rest == 0 then ok bits else others >>= λ vec. ok (bits ++ vec)

unfoldable pub decompress_by_zero_one_binary : List ℕ → ℕ → Run (List ℕ)
unfolding byte_loop
decompress_by_zero_one_binary = byte_loop
