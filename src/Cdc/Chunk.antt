-- ===== src/Cdc/Chunk.antt =====
-- src/rempi/rempi_encoder_cdc.cpp: `encode` and `decode`, a chunk's tables as bytes and back.
pub mod Fields
pub mod RoundTrip
pub mod Recorded
pub mod History
use re_mpi.Common.{
  ℕ, zero, suc, ◌+◌, ◌*◌, ◌/◌, ◌^◌, Bool, true, false, Option, none, some, List, [], ◌∷◌, ◌++◌, map,
  ◌==◌, ltb, if◌then◌else◌, length, set, replicate, Run, ok, abort, ◌>>=◌,
}
use re_mpi.Common.Bytes.{Bytes, to_le, from_le}
use re_mpi.Common.Maps.{Map, put}
use re_mpi.Common.Ranges.{upto}
use re_mpi.Event.{Event}
use re_mpi.Compression.LinearPrediction.{
  compress_by_linear_prediction, decompress_by_linear_prediction,
}
use re_mpi.Request.Merge.Footer.{word_bytes, bytes_words, read_bytes}
use re_mpi.ClockDelta.Binary.{compress}
use re_mpi.Cdc.Indices.{to_int}
use re_mpi.Cdc.Matched.{decode_matched_events}
use re_mpi.Cdc.Table.{Table, InputFormat, put_table}

-- A vector of `size_t`s behind its size in bytes, and behind its length as well.
unfoldable pub sized : List ℕ → List Bytes
sized xs = to_le 8 (length xs * 8) ∷ (word_bytes xs ∷ [])

unfoldable pub counted : List ℕ → List Bytes
unfolding sized
counted xs = to_le 8 (length xs) ∷ sized xs

-- What is pushed to `write_queue_vec`. The buffers are those of the vectors, which are compressed in
-- place.
unfoldable pub compress_non_matched_events : Table → Run (List Bytes)
unfolding sized counted
compress_non_matched_events t =
    if length t.epoch_rank_vec == length t.epoch_clock_vec
    then ok (
        to_le 4 t.matching_set_id
        ∷ (to_le 4 t.count
            ∷ (sized t.epoch_rank_vec
                ++ (word_bytes t.epoch_clock_vec
                    ∷ (counted (compress_by_linear_prediction (2 ^ 64) t.with_previous_vec)
                        ++ (counted t.matched_index_vec
                            ++ (sized
                                  (compress_by_linear_prediction (2 ^ 64) t.unmatched_events_id_vec)
                                ++ sized t.unmatched_events_count_vec)))))))
    else abort

abbrev pub clock_orders : List Event → List ℕ
clock_orders = map (λ e. e.clock_order)

unfoldable pub compress_matched_events : (bit_behind : Bool) → Table → Run (List Bytes)
compress_matched_events bit_behind t =
    compress bit_behind true (clock_orders t.matched_events_ordered_map) (clock_orders t.events_vec)
    >>= λ bytes. ok (to_le 8 (length bytes) ∷ (bytes ∷ []))

unfoldable pub encode_table : (bit_behind : Bool) → Table → Run (List Bytes)
encode_table bit_behind t = compress_non_matched_events t >>= λ non_matched.
    compress_matched_events bit_behind t >>= λ matched. ok (non_matched ++ matched)

-- `encode`: the buffers of all tables.
unfoldable pub encode : (bit_behind : Bool) → List (ℕ × Table) → Run (List Bytes)
encode bit_behind [] = ok []
encode bit_behind ((id, t) ∷ ts) =
    encode_table bit_behind t >>= λ queue. encode bit_behind ts >>= λ rest. ok (queue ++ rest)

-- The buffers one after the other: what is written to the file, and what `decode` copies.
unfoldable pub joined : List Bytes → Bytes
joined [] = []
joined (b ∷ bs) = b ++ joined bs

-- `rempi_encoder_input_format_test_table`, the members that `decode` fills.
pub record Decoded : Type 0 where
  pub matching_set_id : ℕ
  pub count : ℕ
  pub epoch_umap : Map ℕ
  pub epoch_line_umap : Map ℕ
  pub epoch_rank_vec : List ℕ
  pub epoch_clock_vec : List ℕ
  pub with_previous_vec : List ℕ
  pub with_previous_bool_vec : List Bool
  pub matched_index_vec : List ℕ
  pub unmatched_events_umap : Map ℕ
  pub matched_events_permutated_indices_vec : List ℕ
  pub pending_event_count_umap : Map ℕ
  pub current_epoch_line_umap : Map ℕ

-- `*(int*)decoding_address`, `*(size_t*)decoding_address`: the buffer must go that far.
unfoldable pub read_word : (n : ℕ) → Bytes → Run (ℕ × Bytes)
unfolding read_bytes from_le
read_word n bytes = read_bytes n bytes >>= λ r. ok (from_le r.0, r.1)

-- A count, which is an int: `resize` to a negative one throws, and so aborts.
unfoldable pub read_count : Bytes → Run (ℕ × Bytes)
unfolding read_word
read_count bytes = read_word 4 bytes >>= λ r. if ltb r.0 (2 ^ 31) then ok r else abort

-- `rempi_copy_vec`: its index is an int, which overflows in a longer vector.
unfoldable pub read_vec : (size : ℕ) → Bytes → Run (List ℕ × Bytes)
unfolding read_bytes bytes_words
read_vec size bytes =
    if ltb (size / 8) (2 ^ 31)
    then (read_bytes size bytes >>= λ r. ok (bytes_words (size / 8) r.0, r.1))
    else abort

unfoldable pub read_sized : Bytes → Run (List ℕ × Bytes)
unfolding read_word read_vec
read_sized bytes = read_word 8 bytes >>= λ size. read_vec size.0 size.1

unfoldable pub read_counted : Bytes → Run (List ℕ × Bytes)
unfolding read_word read_sized
read_counted bytes = read_word 8 bytes >>= λ length. read_sized length.1

-- The epoch: one size for both vectors.
unfoldable pub read_epoch : Bytes → Run ((List ℕ × List ℕ) × Bytes)
unfolding read_word read_vec
read_epoch bytes = read_word 8 bytes >>= λ size. read_vec size.0 size.1 >>= λ ranks.
    read_vec size.0 ranks.1 >>= λ clocks. ok ((ranks.0, clocks.0), clocks.1)

unfoldable pub put_all : List ℕ → List ℕ → Map ℕ → Map ℕ
unfolding put
put_all [] vs m = m
put_all (k ∷ ks) [] m = m
put_all (k ∷ ks) (v ∷ vs) m = put_all ks vs (put k v m)

-- `with_previous_bool_vec[i] = true`, for an index in the vector.
unfoldable pub mark_all : List ℕ → List Bool → Run (List Bool)
mark_all [] bits = ok bits
mark_all (i ∷ is) bits =
    if ltb (to_int i) (length bits) then mark_all is (set bits (to_int i) true) else abort

unfoldable pub with_previous_bools : (count : ℕ) → List ℕ → Run (List Bool)
unfolding mark_all
with_previous_bools count [] = ok []
with_previous_bools count (i ∷ is) = mark_all (i ∷ is) (replicate count false)

-- `unmatched_events_umap`, where there are counts. The two vectors are read side by side.
unfoldable pub unmatched_umap : List ℕ → List ℕ → Run (Map ℕ)
unfolding put_all
unmatched_umap ids [] = ok []
unmatched_umap ids (c ∷ counts) =
    if ltb (length (c ∷ counts)) (length ids) then abort else ok (put_all ids (c ∷ counts) [])

unfoldable pub read_matched : (count : ℕ) → Bytes → Run (List ℕ × Bytes)
unfolding read_word read_bytes decode_matched_events
read_matched count bytes = read_word 8 bytes >>= λ size. read_bytes size.0 size.1 >>= λ compressed.
    decode_matched_events count compressed.0 >>= λ indices. ok (indices, compressed.1)

-- The members, from what has been read.
unfoldable pub decoded :
    (id count : ℕ) (ranks clocks with_previous : List ℕ) (bools : List Bool) (index : List ℕ)
    (unmatched : Map ℕ) (indices : List ℕ)
    → Decoded
unfolding put_all
decoded id count ranks clocks with_previous bools index unmatched indices = record {
  matching_set_id = id;
  count = count;
  epoch_umap = put_all ranks clocks [];
  epoch_line_umap = put_all (map to_int ranks) clocks [];
  epoch_rank_vec = ranks;
  epoch_clock_vec = clocks;
  with_previous_vec = with_previous;
  with_previous_bool_vec = bools;
  matched_index_vec = index;
  unmatched_events_umap = unmatched;
  matched_events_permutated_indices_vec = indices;
  pending_event_count_umap = put_all (map to_int ranks) (replicate (length ranks) 0) [];
  current_epoch_line_umap = put_all (map to_int ranks) (replicate (length ranks) 0) [];
}

-- The body of the loop of `decode`.
unfoldable pub decode_table : Bytes → Run (Decoded × Bytes)
decode_table bytes = read_word 4 bytes >>= λ id. read_count id.1 >>= λ count.
    read_epoch count.1 >>= λ epoch. read_counted epoch.1 >>= λ previous.
    with_previous_bools count.0 (decompress_by_linear_prediction (2 ^ 64) previous.0) >>= λ bools.
    read_counted previous.1 >>= λ index. read_sized index.1 >>= λ ids.
    read_sized ids.1 >>= λ counts.
    unmatched_umap (decompress_by_linear_prediction (2 ^ 64) ids.0) counts.0 >>= λ unmatched.
    read_matched count.0 counts.1 >>= λ matched. ok (
      decoded id.0 count.0 epoch.0.0 epoch.0.1 (decompress_by_linear_prediction (2 ^ 64) previous.0)
          bools index.0 unmatched matched.0,
      matched.1,
    )

-- The loop of `decode`, which ends with the buffer. Each turn takes four bytes at least.
unfoldable pub decode : (fuel : ℕ) → Bytes → List (ℕ × Decoded) → Run (List (ℕ × Decoded))
decode fuel [] tables = ok tables
decode zero (b ∷ bytes) tables = abort
decode (suc fuel) (b ∷ bytes) tables =
    decode_table (b ∷ bytes) >>= λ r. decode fuel r.1 (put_table r.0.matching_set_id r.0 tables)

-- `decode` on the bytes of a chunk.
unfoldable pub decode_chunk : Bytes → Run (List (ℕ × Decoded))
decode_chunk bytes = decode (length bytes) bytes []
