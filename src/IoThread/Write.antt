-- ===== src/IoThread/Write.antt =====
-- src/rempi/rempi_io_thread.cpp, `write_record`: the application records while the I/O thread writes.
use re_mpi.Common.{
  ℕ, ◌≡◌, sym, ap, ◌∙◌, ◌-◌, ◌^◌, Bool, true, false, List, [], ◌∷◌, ◌++◌, All, ok, ◌≢◌,
  append_assoc, append-nil,
}
use re_mpi.Common.Bytes.{Bytes}
use re_mpi.Event.{Inputs, Event}
use re_mpi.Event.Counting.{inputs}
use re_mpi.EventList.{EventList, new_list, push, flush, close_push, set_globally_minimal_clock}
use re_mpi.EventList.Record.{queued, IsSingle}
use re_mpi.EventList.Record.History.{IsHistory}
use re_mpi.Encoder.{create_encoder_input_format}
use re_mpi.Encoder.Basic.{Config}
use re_mpi.Encoder.Basic.Chunk.{Holds}
use re_mpi.Encoder.Basic.RoundTrip.{record_bytes}
use re_mpi.IoThread.{Writer, write_round}

-- The application and the I/O thread: the list between them, the writer's variables, and the events
-- that the application has pushed.
pub record Session : Type 0 where
  pub list : EventList
  pub writer : Writer
  pub pushed : List Event
  -- `push_all` has put the last event into the queue
  pub closing : Bool

abbrev pub new_writer : Writer
new_writer = record {
  input_format = create_encoder_input_format;
  encoder = record { record_fs = []; total_write_size = 0 };
}

pub data Step (cfg : Config) (s : Session) : Session → Type 0 where
  produce :
      (e : Event) {l : EventList}
      → IsSingle e
      → s.closing ≡ false
      → push s.list e ≡ ok l
      → Step cfg s (record s { list = l; pushed = s.pushed ++ e ∷ [] })
  flush_last :
      {l : EventList}
      → s.closing ≡ false
      → s.list.is_push_closed ≡ false
      → flush s.list s.list.previous_recording_event ≡ ok l
      → Step cfg s (record s { list = l; closing = true })
  close :
      s.closing ≡ true
      → Step cfg s (record s { list = close_push (set_globally_minimal_clock s.list (2 ^ 64 - 1)) })
  round :
      (w : Writer) (l : EventList)
      → write_round cfg s.writer s.list ≡ ok (w, l)
      → Step cfg s (record s { list = l; writer = w })

pub data Reach (cfg : Config) (max_size : ℕ) : Session → Type 0 where
  start :
      Reach cfg max_size
        (record { list = new_list max_size; writer = new_writer; pushed = []; closing = false })
  next : {s t : Session} → Reach cfg max_size s → Step cfg s t → Reach cfg max_size t

-- The events of a list of chunks, and its record file.
unfoldable pub join : List (List Event) → List Event
join [] = []
join (c ∷ cs) = c ++ join cs

unfoldable pub records : List (List Event) → Bytes
records [] = []
records (c ∷ cs) = record_bytes c ++ records cs

pub join-append : (cs : List (List Event)) (c : List Event) → join (cs ++ c ∷ []) ≡ join cs ++ c
unfolding join
join-append [] c = append-nil c
join-append (d ∷ cs) c = ap (◌++◌ d) (join-append cs c) ∙ sym (append_assoc d (join cs) c)

pub records-append :
    (cs : List (List Event)) (c : List Event)
    → records (cs ++ c ∷ []) ≡ records cs ++ record_bytes c
unfolding records
records-append [] c = append-nil (record_bytes c)
records-append (d ∷ cs) c =
    ap (◌++◌ (record_bytes d)) (records-append cs c)
    ∙ sym (append_assoc (record_bytes d) (records cs) (record_bytes c))

-- The file holds the chunks written so far, and the writer the chunk `xs`.
pub record Archive (w : Writer) (chunks : List (List Event)) (xs : List Event) : Type 0 where
  pub file : w.encoder.record_fs ≡ records chunks
  pub nonempty : All (λ c. c ≢ []) chunks
  pub holds : Holds w.input_format xs

-- What the writer has not taken. Once the last event is in the queue, it no longer counts as pending.
abbrev pub waiting : (closing : Bool) → EventList → List Inputs
waiting true l = inputs l.events.items
waiting false l = queued l

pub record Inv (s : Session) : Type 0 where
  pub chunks : List (List Event)
  pub xs : List Event
  pub archive : Archive s.writer chunks xs
  pub history : IsHistory (inputs (join chunks ++ xs) ++ waiting s.closing s.list) s.pushed
