-- ===== src/Cdc/Matched.antt =====
-- src/rempi/rempi_encoder_cdc.cpp: the matched events in `decode`, from the bytes that
-- `convert_to_diff_binary` has left to the indices.
pub mod Words
pub mod Places
pub mod Named
pub mod Script
pub mod Replayed
use re_mpi.Common.{
  ℕ, ◌+◌, ◌-◌, ◌/◌, ◌^◌, List, [], ◌∷◌, map, ltb, if◌then◌else◌, length, take, drop, Run,
}
use re_mpi.Common.Bytes.{Bytes, bytes_ints}
use re_mpi.Compression.LinearPrediction.{decompress_by_linear_prediction}
use re_mpi.Cdc.Indices.{cdc_prepare_decode_indices}

-- `(size_t)array[i]`: the int keeps its sign.
unfoldable pub sign_extend : ℕ → ℕ
sign_extend x = if ltb x (2 ^ 31) then x else x + (2 ^ 64 - 2 ^ 32)

unfoldable pub rempi_copy_vec_int : (array : List ℕ) (length : ℕ) → List ℕ
unfolding sign_extend
rempi_copy_vec_int array n = map sign_extend (take n array)

-- `matched_events_id_vec` and `matched_events_delay_vec`, from the bytes.
unfoldable pub decode_vectors : Bytes → List ℕ × List ℕ
unfolding bytes_ints rempi_copy_vec_int decompress_by_linear_prediction
decode_vectors bytes =
    let n = length bytes / 4 / 2 in
    let ints = bytes_ints bytes in
    (
      decompress_by_linear_prediction (2 ^ 64) (rempi_copy_vec_int ints n),
      decompress_by_linear_prediction (2 ^ 64) (rempi_copy_vec_int (drop n ints) n),
    )

-- `matched_events_permutated_indices_vec`.
unfoldable pub decode_matched_events : (count : ℕ) (compressed : Bytes) → Run (List ℕ)
unfolding decode_vectors cdc_prepare_decode_indices
decode_matched_events count compressed =
    let (id_vec, delay_vec) = decode_vectors compressed in
    cdc_prepare_decode_indices count id_vec delay_vec
