-- ===== src/Tests/Files.antt =====
-- src/rempi/rempi_encoder_cdc.cpp: a record file of two chunks, with a zlib that stores.
use re_mpi.ClockDelta.Compress.{unset}
use re_mpi.Common.{ℕ, ◌≡◌, refl, List, [], ◌∷◌, Bool, true, length, Run, ok, ◌>>=◌}
use re_mpi.Common.Bytes.{Bytes}
use re_mpi.Event.{Event, minus_one}
use re_mpi.Encoder.Basic.{Config}
use re_mpi.Cdc.Table.{format_table}
use re_mpi.Cdc.Chunk.{encode, joined}
use re_mpi.Common.{none}
use re_mpi.EventList.{EventList, new_list}
use re_mpi.Cdc.Table.{InputFormat, add, format}
use re_mpi.Cdc.Extract.{extract_encoder_input_format_chunk}
use re_mpi.Tests.Chunks.{message, tests, table}

abbrev chunk_bytes : Run ℕ
chunk_bytes =
    format_table table >>= λ t. encode unset ((7, t) ∷ []) >>= λ queue. ok (length (joined queue))

-- A zlib that stores.
abbrev storing : Config
storing = record {
  rempi_gzip = true;
  rempi_max_event_length = 10;
  any_source = minus_one;
  compress_by_zlib_vec = ok;
  decompress_by_zlib_vec = ok;
}

-- Five events on a list that is not closed, for chunks of more than one.
abbrev five_events : EventList
five_events = record (new_list 10) {
  events = record {
    items = message 1 5 ∷ tests ∷ message 0 3 ∷ message 1 8 ∷ tests ∷ [];
    enqueue_count = 5;
    dequeue_count = 0;
  };
}

abbrev no_tables : InputFormat
no_tables = record {
  test_tables_map = [];
  total_length = 0;
  last_added_event = none;
  all_epoch_rank_uset = [];
}

abbrev left_and_ready : EventList × InputFormat × Bool → Run (List Event × Bool)
left_and_ready (l, f, ready) = ok (l.events.items, ready)

-- Two of the five events fill a chunk.
extract_encoder_input_format_chunk_run :
    (extract_encoder_input_format_chunk 1 five_events no_tables >>= left_and_ready)
    ≡ ok (message 0 3 ∷ message 1 8 ∷ tests ∷ [], true)
unfolding extract_encoder_input_format_chunk add format
extract_encoder_input_format_chunk_run = refl
