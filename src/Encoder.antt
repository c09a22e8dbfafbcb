-- ===== src/Encoder.antt =====
-- src/rempi/rempi_encoder.h and rempi_encoder.cpp: the chunk of events that an encoder works on,
-- `rempi_encoder_input_format`, with the members that the basic encoder uses.
pub mod Basic
use re_mpi.Common.{
  ℕ, ◌+◌, ◌^◌, Bool, Option, none, some, List, [], ◌∷◌, ◌++◌, ◌==◌, if◌then◌else◌, length, Run, ok,
  abort,
}
use re_mpi.Common.Bytes.{Bytes}
use re_mpi.Event.{Event}

-- `rempi_encoder_input_format_test_table`
pub record TestTable : Type 0 where
  pub matching_set_id : ℕ
  pub events_vec : List Event
  pub compressed_matched_events : Bytes
  pub compressed_matched_events_size : ℕ

-- `test_tables_map` in the order of insertion; no operation here depends on the order.
pub record InputFormat : Type 0 where
  pub test_tables_map : List (ℕ × TestTable)
  pub total_length : ℕ
  pub write_queue_vec : List Bytes

abbrev pub new_table : ℕ → TestTable
new_table id = record {
  matching_set_id = id;
  events_vec = [];
  compressed_matched_events = [];
  compressed_matched_events_size = 0;
}

unfoldable pub create_encoder_input_format : InputFormat
create_encoder_input_format = record {
  test_tables_map = [];
  total_length = 0;
  write_queue_vec = [];
}

unfoldable pub find_table : ℕ → List (ℕ × TestTable) → Option TestTable
find_table id [] = none
find_table id ((j, t) ∷ ts) = if j == id then some t else find_table id ts

unfoldable pub put_table : ℕ → TestTable → List (ℕ × TestTable) → List (ℕ × TestTable)
put_table id t [] = (id, t) ∷ []
put_table id t ((j, u) ∷ ts) = if j == id then (j, t) ∷ ts else (j, u) ∷ put_table id t ts

abbrev pub or_new : ℕ → Option TestTable → TestTable
or_new id none = new_table id
or_new id (some t) = t

-- `add(event, test_id)`; `add(event)` is the case of test id 0.
unfoldable pub add : InputFormat → Event → ℕ → InputFormat
unfolding find_table put_table
add f e test_id =
    let t = or_new test_id (find_table test_id f.test_tables_map) in
    record f {
      test_tables_map =
          put_table test_id (record t { events_vec = t.events_vec ++ e ∷ [] }) f.test_tables_map;
      total_length = f.total_length + 1;
    }
