-- ===== src/Tests/File.antt =====
-- src/rempi/rempi_encoder_basic.cpp and rempi_io_thread.cpp: a chunk through the file, and a whole run.
use re_mpi.Common.{◌≡◌, refl, inl, inr, true, List, [], ◌∷◌, ◌++◌, arith, All, ok, ◌>>=◌}
use re_mpi.Event.{Event, increment, same_event, serialize, create_recv_event, fresh_event}
use re_mpi.Event.Counting.{inputs}
use re_mpi.EventList.{
  EventList, new_list, size, push, push_after, pop, normal_push, flush, close_push,
  set_globally_minimal_clock,
}
use re_mpi.Encoder.{InputFormat, create_encoder_input_format, find_table, put_table, add}
use re_mpi.Encoder.Basic.{
  Encoder, event_bytes, encode, write_record_file, table_zero, payload, first_chunk, take_next,
  take_events, second_loop, extract_encoder_input_format_chunk,
}
use re_mpi.Encoder.Basic.Chunk.{IsRecordable, tables_of}
use re_mpi.Encoder.Basic.RoundTrip.{
  record_bytes, written, write-encode, ReadBack, read-record_bytes,
}
use re_mpi.IoThread.{Writer, store_chunk, write_round, is_written}
use re_mpi.IoThread.Write.{Session, Reach, start, next, produce, flush_last, close, round, records}
use re_mpi.IoThread.Recorded.{Ended, write_record-Ended}
use re_mpi.Tests.{test_event, recv_event, config}
use re_mpi.IoThread.Finish.{write_round-ends}

abbrev two : List Event
two = test_event ∷ recv_event ∷ []

two-IsRecordable : All IsRecordable (inputs two)
unfolding serialize create_recv_event fresh_event
two-IsRecordable = (
  record {
    ints = (
      omega arith,
      (
        omega arith,
        (
          omega arith,
          (omega arith, (omega arith, (omega arith, (omega arith, (omega arith, tt))))),
        ),
      ),
    );
    kind = inl refl;
  },
  (
    record {
      ints = (
        omega arith,
        (
          omega arith,
          (
            omega arith,
            (omega arith, (omega arith, (omega arith, (omega arith, (omega arith, tt))))),
          ),
        ),
      );
      kind = inr refl;
    },
    tt,
  ),
)

abbrev no_file : Encoder
no_file = record { record_fs = []; total_write_size = 0 }

abbrev format_two : InputFormat
format_two = record { test_tables_map = tables_of two; total_length = 2; write_queue_vec = [] }

write-encode_example :
    (encode config format_two >>= λ f. write_record_file f no_file) ≡ ok (written no_file two)
write-encode_example =
    write-encode config refl format_two test_event (recv_event ∷ []) no_file
      (record { tables = refl; total = refl }) (omega arith) (omega arith)

abbrev file_of_two : Encoder
file_of_two = record { record_fs = record_bytes two ++ 9 ∷ []; total_write_size = 0 }

read-record_bytes_example :
    ReadBack config refl create_encoder_input_format file_of_two (9 ∷ []) (inputs two)
unfolding create_encoder_input_format
read-record_bytes_example =
    read-record_bytes config refl two create_encoder_input_format file_of_two (9 ∷ [])
      two-IsRecordable (omega arith) (record { tables = refl; total = refl }) refl refl

abbrev archived : Encoder
archived = record { record_fs = records (two ∷ []); total_write_size = 0 }

-- Two equal tests are counted by one event; the writer runs in between, before `push_all`.
unfoldable closed_session : (s : Session) × Reach config 8 s
unfolding push push_after normal_push flush increment same_event close_push
    set_globally_minimal_clock write_round extract_encoder_input_format_chunk take_events take_next
    pop size second_loop store_chunk add find_table put_table create_encoder_input_format encode
    payload write_record_file table_zero first_chunk event_bytes
closed_session = (
  _,
  next
      (next
        (next
          (next
            (next (next start (produce test_event (refl, inr refl) refl refl))
              (produce test_event (refl, inr refl) refl refl))
            (produce recv_event (refl, inl refl) refl refl))
          (round _ _ refl))
        (flush_last refl refl refl))
      (close refl),
)

-- The writer runs once more.
unfoldable session : (s : Session) × Reach config 8 s
unfolding closed_session write_round extract_encoder_input_format_chunk take_events take_next pop
    size second_loop store_chunk add find_table put_table create_encoder_input_format encode payload
    write_record_file table_zero first_chunk event_bytes
session = (_, next closed_session.1 (round _ _ refl))

all_written : is_written session.0.list ≡ true
unfolding session closed_session is_written
all_written = refl

write_record-Ended_example : Ended config refl session.0.writer session.0.pushed
unfolding session closed_session
write_record-Ended_example = write_record-Ended config refl session.1 (omega arith) all_written

abbrev closed_list : EventList
closed_list = record (new_list 8) {
  events = record { items = two; enqueue_count = 2; dequeue_count = 0 };
  is_push_closed = true;
}

abbrev filled : Writer
filled = record { input_format = format_two; encoder = no_file }

write_round-ends_example :
    (w : Writer) × (l : EventList) × (write_round config filled closed_list ≡ ok (w, l))
    × (is_written l ≡ true)
    × (w.input_format.total_length ≡ 0)
write_round-ends_example =
    write_round-ends config refl filled closed_list two (record { tables = refl; total = refl })
      refl (refl, (refl, tt)) (omega arith)
