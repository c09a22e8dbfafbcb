-- ===== src/Tests/Chunks.antt =====
-- src/rempi/rempi_encoder_cdc.cpp, rempi_clock_delta_compression.cpp: three messages that were observed in
-- another order than that of their clocks.
use re_mpi.ClockDelta.Compress.{unset}
use re_mpi.Common.{ℕ, ◌-◌, ◌^◌, ◌≡◌, refl, List, [], ◌∷◌, ◌++◌, map, true, arith}
use re_mpi.Common.{ok, ap, inr, inl}
use re_mpi.Common.Bytes.{Bytes}
use re_mpi.Event.{
  Event, minus_one, get_flag, get_with_next, get_index, get_event_counts, get_msg_id, get_rank,
}
use re_mpi.Tests.{event_of}
use re_mpi.Cdc.Table.{
  Table, new_table, add_to_table, add_matched, add_unmatched, back_is, add_back, is_truncated,
}
use re_mpi.Cdc.Table.Kept.{add_events}
use re_mpi.Cdc.Chunk.History.{History, add_events-History}
use re_mpi.Cdc.Table.Restored.{IsFilled, Restored, format_table-Restored}
use re_mpi.Cdc.Chunk.{Decoded, decoded, encode, joined, decode_chunk}
use re_mpi.Cdc.Chunk.RoundTrip.{decode_chunk-encode}
use re_mpi.Cdc.Chunk.Recorded.{IsAdded, Recorded, format_table-Recorded}
use re_mpi.Common.Ranges.{count, upto}
use re_mpi.ClockDelta.Binary.{vector_bytes}
use re_mpi.Cdc.Indices.{
  to_int, is_at, erase_id, forward, backward, advance, rewind, permutate, permutate_all, sequential,
  memorize, value, indices, zip, cdc_prepare_decode_indices,
}
use re_mpi.Cdc.Matched.{decode_vectors, sign_extend}
use re_mpi.Cdc.Matched.Words.{decode_vectors-vector_bytes}
use re_mpi.Cdc.Matched.Named.{IsOrder}
use re_mpi.Cdc.Matched.Replayed.{Replayed, compress-Replayed}

abbrev observed : List ℕ
observed = 2 ∷ 0 ∷ 1 ∷ []

observed-IsOrder : IsOrder 3 observed
unfolding count upto
observed-IsOrder = record { once = λ c. ground arith; size = refl }

compress-Replayed_example : Replayed 3 observed
compress-Replayed_example = compress-Replayed 3 observed (omega arith) observed-IsOrder

-- Message 2 moves two places to the front.
cdc_prepare_decode_indices_run :
    cdc_prepare_decode_indices 3 (2 ∷ []) ((2 ^ 64 - 2) ∷ []) ≡ ok (1 ∷ 2 ∷ 0 ∷ [])
unfolding cdc_prepare_decode_indices is_at erase_id forward backward advance rewind permutate
    permutate_all sequential memorize value indices zip
cdc_prepare_decode_indices_run = refl

decode_vectors-vector_bytes_example :
    (map to_int
        (decode_vectors
          (vector_bytes true (7 ∷ 1 ∷ []) ++ vector_bytes true (0 ∷ 4294967295 ∷ []))).0
      ≡ 7 ∷ 1 ∷ [])
    × (map to_int
          (decode_vectors
            (vector_bytes true (7 ∷ 1 ∷ []) ++ vector_bytes true (0 ∷ 4294967295 ∷ []))).1
        ≡ 0 ∷ 4294967295 ∷ [])
decode_vectors-vector_bytes_example =
    decode_vectors-vector_bytes (7 ∷ 1 ∷ []) (0 ∷ 4294967295 ∷ [])
      (inl (omega arith), (inl (omega arith), tt))
      (inl (omega arith), (inr (omega arith, omega arith), tt)) (omega arith) refl

-- Two messages: clock 5 from rank 1, then clock 3 from rank 0, and four unsuccessful tests between them.
abbrev pub message : (rank clock : ℕ) → Event
message rank clock = event_of (record {
  event_count = 1;
  type = 2;
  flag = 1;
  rank = rank;
  with_next = 0;
  index = 0;
  msg_id = clock;
  matching_group_id = 7;
})

abbrev pub tests : Event
tests = event_of (record {
  event_count = 4;
  type = 2;
  flag = 0;
  rank = minus_one;
  with_next = 0;
  index = 0;
  msg_id = 0;
  matching_group_id = 7;
})

abbrev pub table : Table
table = record {
  matching_set_id = 7;
  events_vec = message 1 5 ∷ message 0 3 ∷ [];
  count = 2;
  epoch_umap = [];
  epoch_rank_vec = [];
  epoch_clock_vec = [];
  with_previous_vec = [];
  matched_index_vec = 0 ∷ 0 ∷ [];
  unmatched_events_id_vec = 1 ∷ [];
  unmatched_events_count_vec = 4 ∷ [];
  matched_events_ordered_map = [];
}

add_run :
    (add_to_table
      (message 0 3)
      (add_to_table tests (add_to_table (message 1 5) (new_table 7)).0).0).0
    ≡ table
unfolding add_to_table add_matched add_unmatched new_table back_is add_back sign_extend get_flag
    get_with_next get_index get_event_counts
add_run = refl

table-IsFilled : IsFilled table
unfolding is_truncated get_msg_id get_rank get_with_next
table-IsFilled = record {
  fresh = (refl, (refl, tt));
  clocked = omega arith;
  unlike = (((λ h. inl (λ e. omega arith)), tt), (tt, tt));
  whole = refl;
  small = omega arith;
  new = refl;
}

format_table-Restored_example : Restored table
format_table-Restored_example = format_table-Restored table table-IsFilled

pub table-IsAdded : IsAdded table
table-IsAdded = record {
  filled = table-IsFilled;
  id_int = omega arith;
  counted = refl;
  previous = tt;
  previous_fits = omega arith;
  index = record { words = omega arith; fits = omega arith };
  ids = record { words = omega arith; fits = omega arith };
  counts = record { words = omega arith; fits = omega arith };
  tests = refl;
  no_ranks = refl;
  no_clocks = refl;
}

abbrev pub recorded : Recorded table
recorded = format_table-Recorded table table-IsAdded

abbrev pub formatted_table : Table
formatted_table = recorded.restored.table

abbrev pub decoded_table : Decoded
decoded_table =
    decoded table.matching_set_id table.count (map (λ e. e.0) recorded.restored.umap)
      (map (λ e. e.1) recorded.restored.umap) table.with_previous_vec recorded.bools
      table.matched_index_vec recorded.unmatched recorded.restored.indices

decode_chunk-encode_example :
    (buffers : List Bytes) × (encode unset ((7, formatted_table) ∷ []) ≡ ok buffers)
    × (decode_chunk (joined buffers) ≡ ok ((7, decoded_table) ∷ []))
decode_chunk-encode_example =
    decode_chunk-encode ((7, formatted_table) ∷ []) ((7, decoded_table) ∷ [])
      (ap (λ t. t.matching_set_id) recorded.restored.shape, refl, recorded.has_decoded, tt) (tt, tt)

add_events-History_example :
    History 7
      (message 1 5 ∷ tests ∷ message 0 3 ∷ [])
      (add_events (message 1 5 ∷ tests ∷ message 0 3 ∷ []) (new_table 7))
add_events-History_example =
    add_events-History 7 (message 1 5 ∷ tests ∷ message 0 3 ∷ []) (omega arith)
