-- ===== src/IoThread/Read.antt =====
-- src/rempi/rempi_io_thread.cpp, `read_record_lite`: the file goes back into the replaying list.
use re_mpi.Common.{◌≡◌, true, List, ◌++◌, Run, ok}
use re_mpi.Event.{Inputs, Event}
use re_mpi.Event.Counting.{inputs}
use re_mpi.EventList.{EventList, queue_of}
use re_mpi.Encoder.Basic.{Encoder}

-- What the list holds for test id 0.
abbrev pub decoded : EventList → List Event
decoded l = (queue_of (l.replay_events 0)).items

-- Events enqueued for test id 0; nothing else of the list changes.
pub record Enqueued (r : Run EventList) (l : EventList) (es : List Event) : Type 0 where
  pub list : EventList
  pub result : r ≡ ok list
  pub items : decoded list ≡ decoded l ++ es
  pub previous : list.previous_replaying_event ≡ l.previous_replaying_event
  pub room : list.max_size ≡ l.max_size

-- The replaying list after the whole file.
pub record Loaded (r : Run EventList) (l : EventList) (expected : List Inputs) : Type 0 where
  pub list : EventList
  pub result : r ≡ ok list
  pub same : inputs (decoded list) ≡ inputs (decoded l) ++ expected
  pub previous : list.previous_replaying_event ≡ l.previous_replaying_event
  pub closed : list.is_push_closed ≡ true
