-- ===== src/Compression/LinearPrediction.antt =====
-- src/rempi/rempi_compression_util.cpp, compress_by_linear_prediction and its inverse. A value of
-- the w-bit type T is its bit pattern below `2 ^ w`, and operations wrap: for the signed T = int that
-- is the code only where nothing overflows. The loops' indices are unsigned ints, so that vectors have
-- fewer than `2 ^ 32` values.
use re_mpi.Common.{
  length, ◌^◌, ℕ, ◌+◌, ◌-◌, ◌*◌, ◌%◌, ◌<◌, ◌≡◌, refl, ap, ◌∙◌, List, [], ◌∷◌, arith, All,
}
use mathlib.Core.Path.{ap₂}
use native.Mathlib.Nat.{mod-add-mod, mod-eq_of_lt, mod-lt, add-mul-mod_self_left, add_assoc}

-- `t0 - 2 * t1 + t2` and `t0 + 2 * t1 - t2` in T.
abbrev pub residual : ℕ → ℕ → ℕ → ℕ → ℕ
residual m t0 t1 t2 = (t0 + 2 * (m - t1) + t2) % m

abbrev pub predicted : ℕ → ℕ → ℕ → ℕ → ℕ
predicted m t0 t1 t2 = (t0 + 2 * t1 + (m - t2)) % m

module _ (m : ℕ) where
  -- The loop over `vec` from one index on, with the two values before it.
  unfoldable pub compress_loop : ℕ → ℕ → List ℕ → List ℕ
  compress_loop t1 t2 [] = []
  compress_loop t1 t2 (t0 ∷ vec) = residual m t0 t1 t2 ∷ compress_loop t0 t1 vec

  unfoldable pub compress_by_linear_prediction : List ℕ → List ℕ
  unfolding compress_loop
  compress_by_linear_prediction = compress_loop 0 0

  unfoldable pub decompress_loop : ℕ → ℕ → List ℕ → List ℕ
  decompress_loop t1 t2 [] = []
  decompress_loop t1 t2 (t0 ∷ vec) = let v = predicted m t0 t1 t2 in v ∷ decompress_loop v t1 vec

  unfoldable pub decompress_by_linear_prediction : List ℕ → List ℕ
  unfolding decompress_loop
  decompress_by_linear_prediction = decompress_loop 0 0

  -- Three moduli on top of a sum do not change it.
  mod_add_triple : (t : ℕ) → t < m → (t + m * 3) % m ≡ t
  mod_add_triple t h = add-mul-mod_self_left t m 3 ∙ mod-eq_of_lt h

  predicted-residual :
      (t0 t1 t2 : ℕ) → t0 < m → t1 < m → t2 < m → predicted m (residual m t0 t1 t2) t1 t2 ≡ t0
  predicted-residual t0 t1 t2 h0 h1 h2 =
      ap (λ x. x % m) (add_assoc (residual m t0 t1 t2) (2 * t1) (m - t2))
      ∙ mod-add-mod (t0 + 2 * (m - t1) + t2) m (2 * t1 + (m - t2))
      ∙ ap (λ x. x % m) (omega arith)
      ∙ mod_add_triple t0 h0

  residual-predicted :
      (t0 t1 t2 : ℕ) → t0 < m → t1 < m → t2 < m → residual m (predicted m t0 t1 t2) t1 t2 ≡ t0
  residual-predicted t0 t1 t2 h0 h1 h2 =
      ap (λ x. x % m) (add_assoc (predicted m t0 t1 t2) (2 * (m - t1)) t2)
      ∙ mod-add-mod (t0 + 2 * t1 + (m - t2)) m (2 * (m - t1) + t2)
      ∙ ap (λ x. x % m) (omega arith)
      ∙ mod_add_triple t0 h0

  abbrev pub IsWord : ℕ → Type 0
  IsWord x = x < m

  decompress_loop-compress_loop :
      (t1 t2 : ℕ) (vec : List ℕ)
      → t1 < m
      → t2 < m
      → All IsWord vec
      → decompress_loop t1 t2 (compress_loop t1 t2 vec) ≡ vec
  unfolding compress_loop decompress_loop
  decompress_loop-compress_loop t1 t2 [] h1 h2 h = refl
  decompress_loop-compress_loop t1 t2 (t0 ∷ vec) h1 h2 h =
      rw (predicted-residual t0 t1 t2 h.0 h1 h2)
        (ap (◌∷◌ t0) (decompress_loop-compress_loop t0 t1 vec h.0 h1 h.1))

  compress_loop-decompress_loop :
      (t1 t2 : ℕ) (vec : List ℕ)
      → t1 < m
      → t2 < m
      → All IsWord vec
      → compress_loop t1 t2 (decompress_loop t1 t2 vec) ≡ vec
  unfolding compress_loop decompress_loop
  compress_loop-decompress_loop t1 t2 [] h1 h2 h = refl
  compress_loop-decompress_loop t1 t2 (t0 ∷ vec) h1 h2 h =
      ap₂ ◌∷◌ (residual-predicted t0 t1 t2 h.0 h1 h2) (
        compress_loop-decompress_loop (predicted m t0 t1 t2) t1 vec
          (mod-lt (t0 + 2 * t1 + (m - t2)) (omega arith)) h1 h.1)

  pub linear_prediction_words :
      0 < m
      → (vec : List ℕ) → All IsWord vec
      → (decompress_by_linear_prediction (compress_by_linear_prediction vec) ≡ vec)
        × (compress_by_linear_prediction (decompress_by_linear_prediction vec) ≡ vec)
  unfolding compress_by_linear_prediction decompress_by_linear_prediction
  linear_prediction_words pos vec h = (
    decompress_loop-compress_loop 0 0 vec pos pos h,
    compress_loop-decompress_loop 0 0 vec pos pos h,
  )

-- For vectors of fewer than `2 ^ 32` numbers of 64 bits, as long as the loops' indices do not wrap around:
-- decompression restores what compression was given, and compression what decompression was given.
pub linear_prediction_inverse :
    (vec : List ℕ)
    → All (λ x. x < 2 ^ 64) vec
    → length vec < 2 ^ 32
    → (decompress_by_linear_prediction (2 ^ 64) (compress_by_linear_prediction (2 ^ 64) vec) ≡ vec)
      × (compress_by_linear_prediction (2 ^ 64) (decompress_by_linear_prediction (2 ^ 64) vec)
          ≡ vec)
linear_prediction_inverse vec words few = linear_prediction_words (2 ^ 64) (omega arith) vec words
