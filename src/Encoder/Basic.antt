-- ===== src/Encoder/Basic.antt =====
-- src/rempi/rempi_encoder_basic.cpp: the encoder that ReMPI records with, from the event list to the
-- record file and back. The file is its bytes; for reading, the bytes not read yet.
pub mod Chunk
pub mod RoundTrip
use re_mpi.Common.{
  ℕ, zero, suc, ◌+◌, ◌*◌, ◌^◌, Bool, true, false, ◌&&◌, ◌||◌, Option, none, some, List, [], ◌∷◌,
  ◌++◌, ◌==◌, ltb, leb, if◌then◌else◌, length, take, drop, get_elem?, Run, not, ok, spin, abort,
  ◌>>=◌,
}
use re_mpi.Common.Bytes.{Bytes, to_le, from_le, int_bytes, bytes_ints}
use re_mpi.Event.{
  Inputs, Event, recv_type, test_type, serialize, create_recv_event, create_test_event,
}
use re_mpi.EventList.{EventList, size, front, pop, enqueue_replay}
use re_mpi.Encoder.{TestTable, InputFormat, find_table, put_table, add, create_encoder_input_format}

-- `rempi_gzip`, `rempi_max_event_length`, MPI's wildcard rank, and the two zlib codecs.
pub record Config : Type 0 where
  pub rempi_gzip : Bool
  pub rempi_max_event_length : ℕ
  pub any_source : ℕ
  pub compress_by_zlib_vec : List Bytes → Run (List Bytes)
  pub decompress_by_zlib_vec : List Bytes → Run (List Bytes)

-- `record_fs` and `total_write_size`.
pub record Encoder : Type 0 where
  pub record_fs : Bytes
  pub total_write_size : ℕ

-- One event after the other, `rempi_event::max_size` bytes each. The offset of an event, an int, is in
-- range for fewer than `2 ^ 28` events.
unfoldable pub event_bytes : List Event → Bytes
event_bytes [] = []
event_bytes (e ∷ es) = int_bytes (serialize e.mpi_inputs) ++ event_bytes es

-- `compressed_write_queue_vec[0]`: only the first chunk is kept.
unfoldable pub first_chunk : List Bytes → Run Bytes
first_chunk [] = abort
first_chunk (c ∷ cs) = ok c

-- `test_tables_map[0]` of a map without that key is a null pointer, which the code dereferences.
unfoldable pub table_zero : InputFormat → Run TestTable
table_zero f = elim (find_table 0 f.test_tables_map) [ none ↦ abort | some t ↦ ok t ]

unfoldable pub write_record_file : InputFormat → Encoder → Run Encoder
unfolding table_zero
write_record_file f enc = if ltb 1 (length f.test_tables_map) then abort else (do
  t ← table_zero f
  ok (record {
    record_fs =
        enc.record_fs
        ++ (to_le 8 t.compressed_matched_events_size
            ++ take t.compressed_matched_events_size t.compressed_matched_events);
    total_write_size = enc.total_write_size + t.compressed_matched_events_size;
  }))

-- Eight ints make an event. A buffer that ends inside an event is read past its end.
unfoldable pub decode_events : List ℕ → InputFormat → Run InputFormat
unfolding create_recv_event create_test_event add
decode_events (count ∷ type ∷ flag ∷ rank ∷ with_next ∷ index ∷ msg_id ∷ gid ∷ ints) f =
    let recv = decode_events ints (add f (create_recv_event rank none) 0) in
    let test =
      decode_events ints (add f (create_test_event count flag rank with_next index msg_id gid) 0) in
    if type == recv_type then recv else if type == test_type then test else abort
decode_events [] f = ok f
decode_events _ f = abort

unfoldable pub decode_chunks : List Bytes → InputFormat → Run InputFormat
unfolding decode_events bytes_ints
decode_chunks [] f = ok f
decode_chunks (c ∷ cs) f = decode_events (bytes_ints c) f >>= decode_chunks cs

unfoldable pub enqueue_all : List Event → EventList → Run EventList
enqueue_all [] l = ok l
enqueue_all (e ∷ es) l = enqueue_replay l e 0 >>= enqueue_all es

unfoldable pub insert_encoder_input_format_chunk : InputFormat → EventList → Run EventList
unfolding table_zero enqueue_all
insert_encoder_input_format_chunk f replaying = do
  t ← table_zero f
  enqueue_all t.events_vec replaying

module _ (cfg : Config) where
  -- A receive whose source is not known yet. The code takes it off the queue and waits until the
  -- application has set its rank; only the I/O thread takes events, so the model waits before.
  abbrev pub is_unmatched : Event → Bool
  is_unmatched e = e.mpi_inputs.type == recv_type && e.mpi_inputs.rank == cfg.any_source

  -- The body of the loop `while (1)` over the queue, on what `pop` returned; `continue` goes on.
  -- `patient` is set in the second loop, which does not give up when the list is closed.
  unfoldable pub take_next :
      Bool
      → EventList
      → InputFormat
      → (EventList → InputFormat → Run (EventList × InputFormat))
      → Option Event × EventList
      → Run (EventList × InputFormat)
  take_next patient l f continue (none, _) = ok (l, f)
  take_next patient l f continue (some e, l') =
      if is_unmatched e && (patient || not l.is_push_closed) then spin else continue l' (add f e 0)

  -- The loop, with as much fuel as the queue has events.
  unfoldable pub take_events : Bool → ℕ → EventList → InputFormat → Run (EventList × InputFormat)
  unfolding take_next
  take_events patient zero l f = ok (l, f)
  take_events patient (suc fuel) l f = take_next patient l f (take_events patient fuel) (pop l)

  unfoldable pub second_loop : EventList → InputFormat → Run (EventList × InputFormat × Bool)
  unfolding take_events
  second_loop l f = take_events true (size l) l f >>= λ (l', f'). ok (l', f', true)

  unfoldable pub extract_encoder_input_format_chunk :
      EventList → InputFormat → Run (EventList × InputFormat × Bool)
  unfolding take_events second_loop size
  extract_encoder_input_format_chunk l f = take_events false (size l) l f >>= λ (l', f').
      if f'.total_length == 0
      then ok (l', f', false)
      else if ltb cfg.rempi_max_event_length f'.total_length || l'.is_push_closed
      then second_loop l' f'
      else ok (l', f', false)

  unfoldable pub payload : InputFormat → Bytes → Run Bytes
  unfolding first_chunk
  payload f original_buff =
      if cfg.rempi_gzip
      then cfg.compress_by_zlib_vec (f.write_queue_vec ++ original_buff ∷ []) >>= first_chunk
      else ok original_buff

  unfoldable pub encode : InputFormat → Run InputFormat
  unfolding table_zero payload find_table put_table
  encode f = do
    t ← table_zero f
    p ← payload f (event_bytes t.events_vec)
    ok (record f {
      test_tables_map =
          put_table 0
            (record t { compressed_matched_events = p; compressed_matched_events_size = length p })
            f.test_tables_map;
      write_queue_vec =
          if cfg.rempi_gzip
          then f.write_queue_vec ++ event_bytes t.events_vec ∷ []
          else f.write_queue_vec;
    })

  unfoldable pub decompressed : Bytes → Run (List Bytes)
  decompressed c = if cfg.rempi_gzip then cfg.decompress_by_zlib_vec (c ∷ []) else ok (c ∷ [])

  -- The payload behind a size that has been read, and what follows it. A file that ends inside a
  -- record leaves part of the buffer unset.
  unfoldable pub read_payload :
      InputFormat → Encoder → ℕ → Bytes → Run (Option (InputFormat × Encoder))
  unfolding decompressed
  read_payload f enc size rest = if ltb (length rest) size then abort else (do
    chunks ← decompressed (take size rest)
    f' ←
        decode_chunks (f.write_queue_vec ++ chunks)
          (record f { write_queue_vec = f.write_queue_vec ++ chunks })
    ok (
        some (
          f',
          record { record_fs = drop size rest; total_write_size = enc.total_write_size + size },
        )))

  -- `none` is `is_no_more_record`.
  unfoldable pub read_header : InputFormat → Encoder → Bytes → Run (Option (InputFormat × Encoder))
  unfolding read_payload
  read_header f enc bytes =
      if length bytes == 0
      then ok none
      else if ltb (length bytes) 8
      then abort
      else read_payload f enc (from_le (take 8 bytes)) (drop 8 bytes)

  unfoldable pub read_record_file : InputFormat → Encoder → Run (Option (InputFormat × Encoder))
  unfolding read_header
  read_record_file f enc = read_header f enc enc.record_fs
