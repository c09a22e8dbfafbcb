-- ===== src/Cdc/Matched/Words.antt =====
-- src/rempi/rempi_encoder_cdc.cpp, rempi_clock_delta_compression.cpp: vectors that are compressed as
-- ints and decompressed as numbers of 64 bits.
use mathlib.Core.Path.{ap₂}
use re_mpi.Common.{
  ◌⊎◌, ◌≤◌, ◌-◌, ◌*◌, ℕ, suc, ◌/◌, ◌^◌, ◌<◌, ◌≡◌, refl, sym, ◌∙◌, ap, List, [], ◌∷◌, ◌++◌, map,
  true, length, take, drop, All, arith, take-append, drop-append, take-length, length-append,
  All-append,
}
use re_mpi.Common.Bytes.{
  int_bytes, bytes_ints, IsInt, bytes_ints-int_bytes, length-int_bytes, int_bytes-append,
}
use re_mpi.Compression.LinearPrediction.{
  residual, predicted, compress_loop, decompress_loop, compress_by_linear_prediction,
  decompress_by_linear_prediction,
}
use re_mpi.Cdc.Indices.{to_int}
use re_mpi.ClockDelta.Binary.{vector_bytes}
use re_mpi.Cdc.Matched.{sign_extend, rempi_copy_vec_int, decode_vectors}

predicted-sign_extend :
    (t0 t1 t2 u1 u2 : ℕ)
    → t0 < 2 ^ 32
    → to_int u1 ≡ t1
    → to_int u2 ≡ t2
    → u2 < 2 ^ 64
    → to_int (predicted (2 ^ 64) (sign_extend (residual (2 ^ 32) t0 t1 t2)) u1 u2) ≡ t0
unfolding sign_extend
predicted-sign_extend t0 t1 t2 u1 u2 h e1 e2 lt = ground arith

decompress_loop-widened :
    (t1 t2 u1 u2 : ℕ) (vec : List ℕ)
    → All IsInt vec
    → to_int u1 ≡ t1
    → to_int u2 ≡ t2
    → u1 < 2 ^ 64
    → u2 < 2 ^ 64
    → map to_int
        (decompress_loop (2 ^ 64) u1 u2 (map sign_extend (compress_loop (2 ^ 32) t1 t2 vec)))
      ≡ vec
unfolding compress_loop decompress_loop
decompress_loop-widened t1 t2 u1 u2 [] h e1 e2 l1 l2 = refl
decompress_loop-widened t1 t2 u1 u2 (t0 ∷ vec) h e1 e2 l1 l2 =
    let v = predicted (2 ^ 64) (sign_extend (residual (2 ^ 32) t0 t1 t2)) u1 u2 in
    let e0 = predicted-sign_extend t0 t1 t2 u1 u2 h.0 e1 e2 l2 in
    ap₂ ◌∷◌ e0 (decompress_loop-widened t0 t1 v u1 vec h.1 e0 e1 (omega arith) l1)

length-compress_loop :
    (t1 t2 : ℕ) (vec : List ℕ) → length (compress_loop (2 ^ 32) t1 t2 vec) ≡ length vec
unfolding compress_loop
length-compress_loop t1 t2 [] = refl
length-compress_loop t1 t2 (t0 ∷ vec) = ap suc (length-compress_loop t0 t1 vec)

compress_loop-IsInt : (t1 t2 : ℕ) (vec : List ℕ) → All IsInt (compress_loop (2 ^ 32) t1 t2 vec)
unfolding compress_loop
compress_loop-IsInt t1 t2 [] = tt
compress_loop-IsInt t1 t2 (t0 ∷ vec) = (omega arith, compress_loop-IsInt t0 t1 vec)

-- What `decode` reads from two vectors of ints, one behind the other.
decode_vectors-int_bytes :
    (xs ys : List ℕ)
    → All IsInt xs
    → All IsInt ys
    → length ys ≡ length xs
    → decode_vectors (int_bytes xs ++ int_bytes ys) ≡ (
      decompress_by_linear_prediction (2 ^ 64) (map sign_extend xs),
      decompress_by_linear_prediction (2 ^ 64) (map sign_extend ys),
    )
unfolding decode_vectors rempi_copy_vec_int
decode_vectors-int_bytes xs ys h k same =
    let bytes = int_bytes xs ++ int_bytes ys in
    let count : length bytes / 4 / 2 ≡ length xs = omega (
      arith,
      length-append {0} (int_bytes xs) (int_bytes ys),
      length-int_bytes xs,
      length-int_bytes ys,
    ) in
    let ints : bytes_ints bytes ≡ xs ++ ys =
      ap bytes_ints (sym (int_bytes-append xs ys))
      ∙ bytes_ints-int_bytes (xs ++ ys) (All-append IsInt xs ys h k) in
    let front = ap₂ take count ints ∙ take-append xs ys in
    let back =
      ap₂ take count (ap₂ drop count ints ∙ drop-append xs ys)
      ∙ ap (λ n. take n ys) (sym same)
      ∙ take-length ys in
    ap₂ (λ a b. (a, b))
      (ap (λ v. decompress_by_linear_prediction (2 ^ 64) (map sign_extend v)) front)
      (ap (λ v. decompress_by_linear_prediction (2 ^ 64) (map sign_extend v)) back)

decompress-compress :
    (vec : List ℕ)
    → All IsInt vec
    → map to_int (
        decompress_by_linear_prediction
          (2 ^ 64)
          (map sign_extend (compress_by_linear_prediction (2 ^ 32) vec)))
      ≡ vec
unfolding compress_by_linear_prediction decompress_by_linear_prediction
decompress-compress vec h =
    decompress_loop-widened 0 0 0 0 vec h refl refl (omega arith) (omega arith)

pub decode_vectors_words :
    (xs ys : List ℕ)
    → All IsInt xs
    → All IsInt ys
    → length ys ≡ length xs
    → (map to_int (decode_vectors (vector_bytes true xs ++ vector_bytes true ys)).0 ≡ xs)
      × (map to_int (decode_vectors (vector_bytes true xs ++ vector_bytes true ys)).1 ≡ ys)
unfolding vector_bytes compress_by_linear_prediction
decode_vectors_words xs ys h k same =
    let e =
      decode_vectors-int_bytes (compress_loop (2 ^ 32) 0 0 xs) (compress_loop (2 ^ 32) 0 0 ys)
        (compress_loop-IsInt 0 0 xs) (compress_loop-IsInt 0 0 ys)
        (length-compress_loop 0 0 ys ∙ same ∙ sym (length-compress_loop 0 0 xs)) in
    (
      ap (λ v. map to_int v.0) e ∙ decompress-compress xs h,
      ap (λ v. map to_int v.1) e ∙ decompress-compress ys k,
    )

-- Ints whose residuals are ints as well.
abbrev pub IsShort : ℕ → Type 0
IsShort x = (x < 2 ^ 29) ⊎ ((2 ^ 32 - 2 ^ 29 ≤ x) × (x < 2 ^ 32))

short-IsInt : (xs : List ℕ) → All IsShort xs → All IsInt xs
short-IsInt [] h = tt
short-IsInt (x ∷ xs) h = (omega (arith, h.0), short-IsInt xs h.1)

-- For two vectors of fewer than `2 ^ 31` ints each, as many in both, of at least `- 2 ^ 29` and less than
-- `2 ^ 29`, so that no residual overflows: compressed as ints and decompressed as numbers of 64 bits,
-- the ints come back in the lower halves.
pub decode_vectors-vector_bytes :
    (xs ys : List ℕ)
    → All IsShort xs
    → All IsShort ys
    → length xs < 2 ^ 31
    → length ys ≡ length xs
    → (map to_int (decode_vectors (vector_bytes true xs ++ vector_bytes true ys)).0 ≡ xs)
      × (map to_int (decode_vectors (vector_bytes true xs ++ vector_bytes true ys)).1 ≡ ys)
decode_vectors-vector_bytes xs ys h k few same =
    decode_vectors_words xs ys (short-IsInt xs h) (short-IsInt ys k) same

pub length-vector_bytes : (xs : List ℕ) → length (vector_bytes true xs) ≡ 4 * length xs
unfolding vector_bytes compress_by_linear_prediction
length-vector_bytes xs =
    length-int_bytes (compress_loop (2 ^ 32) 0 0 xs) ∙ ap (λ n. 4 * n) (length-compress_loop 0 0 xs)
