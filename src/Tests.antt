-- ===== src/Tests.antt =====
-- Concrete runs at which the theorems' conditions hold.
mod Recording
mod File
mod Codec
mod Queue
mod Requests
mod Deltas
mod Chunks
mod Files
mod Clocks
mod Gates
use re_mpi.Common.{ℕ, ◌^◌, none, false, List, Bool}
use re_mpi.Common.{ok}
use re_mpi.Event.{Inputs, Event, minus_one}
use re_mpi.Encoder.Basic.{Config}

abbrev pub event_of : Inputs → Event
event_of inputs = record {
  clock_order = minus_one;
  msg_count = minus_one;
  request = 0;
  mpi_inputs = inputs;
}

-- An unsuccessful test, and a receive from rank 3.
abbrev pub test_event : Event
test_event = event_of (record {
  event_count = 1;
  type = 2;
  flag = 0;
  rank = minus_one;
  with_next = 0;
  index = 0;
  msg_id = 0;
  matching_group_id = 7;
})

abbrev pub recv_event : Event
recv_event = event_of (record {
  event_count = 1;
  type = 1;
  flag = 0;
  rank = 3;
  with_next = 0;
  index = 0;
  msg_id = 0;
  matching_group_id = 0;
})

abbrev pub config : Config
config = record {
  rempi_gzip = false;
  rempi_max_event_length = 1;
  any_source = minus_one;
  compress_by_zlib_vec = λ vec. ok vec;
  decompress_by_zlib_vec = λ vec. ok vec;
}
