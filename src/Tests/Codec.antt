-- ===== src/Tests/Codec.antt =====
-- src/rempi/rempi_compression_util.cpp: linear prediction on 64-bit words, and ten values as bits.
use re_mpi.Common.{ℕ, ◌^◌, ◌≡◌, ◌∷◌, [], List, arith}
use re_mpi.Compression.LinearPrediction.{
  compress_by_linear_prediction, decompress_by_linear_prediction, linear_prediction_inverse,
}
use re_mpi.Common.{length, map, ok}
use re_mpi.Compression.ZeroOne.{sign, compress_by_zero_one_binary, decompress_by_zero_one_binary}
use re_mpi.Compression.ZeroOne.RoundTrip.{zero_one_inverse}

abbrev words : List ℕ
words = 3 ∷ 1 ∷ 4 ∷ 4294967295 ∷ []

linear_prediction_inverse_example :
    (decompress_by_linear_prediction (2 ^ 64) (compress_by_linear_prediction (2 ^ 64) words)
      ≡ words)
    × (compress_by_linear_prediction (2 ^ 64) (decompress_by_linear_prediction (2 ^ 64) words)
        ≡ words)
linear_prediction_inverse_example =
    linear_prediction_inverse words (omega arith, (omega arith, (omega arith, (omega arith, tt))))
      (omega arith)

abbrev flags : List ℕ
flags = 1 ∷ 0 ∷ 0 ∷ 7 ∷ 1 ∷ 0 ∷ 1 ∷ 1 ∷ 0 ∷ 5 ∷ []

zero_one_inverse_example :
    decompress_by_zero_one_binary (compress_by_zero_one_binary flags) (length flags)
    ≡ ok (map sign flags)
zero_one_inverse_example = zero_one_inverse flags (omega arith) (omega arith)
