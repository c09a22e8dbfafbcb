-- ===== src/Cdc/Extract/Taken.antt =====
-- src/rempi/rempi_encoder_cdc.cpp, `extract_encoder_input_format_chunk`: which events a chunk takes.
use re_mpi.Common.{ℕ, ◌<◌, ◌≡◌, true, false, some, ◌⊎◌, List, [], ◌∷◌, ◌++◌, ok}
use re_mpi.Event.{Event}
use re_mpi.SpscQueue.Fifo.{shifted}
use re_mpi.EventList.{EventList}
use re_mpi.Cdc.Table.{InputFormat, add}
use re_mpi.Cdc.Extract.{is_full, take_events, formatted_chunk, extract_encoder_input_format_chunk}

-- `add` of events, one after the other.
unfoldable pub add_all : List Event → InputFormat → InputFormat
add_all [] f = f
add_all (e ∷ es) f = add_all es (add e f)

-- A chunk that nothing was added to, or that knows its last event.
abbrev pub IsStarted : InputFormat → Type 0
IsStarted f = (f.total_length ≡ 0) ⊎ ((e : Event) × (f.last_added_event ≡ some e))

-- A list with other events.
abbrev rest_of : EventList → Event → List Event → EventList
rest_of l e es = record l { events = (shifted l.events (e ∷ es)).1 }

module _ (rempi_max_event_length : ℕ) where
  -- What the loop over the list leaves.
  pub record Taken (fuel : ℕ) (l : EventList) (f : InputFormat) : Type 0 where
    pub list : EventList
    pub chunk : InputFormat
    pub taken : List Event
    pub takes : take_events rempi_max_event_length fuel l f ≡ ok (list, chunk)
    pub order : l.events.items ≡ taken ++ list.events.items
    pub added : chunk ≡ add_all taken f
    pub stops : (list.events.items ≡ []) ⊎ (is_full rempi_max_event_length chunk ≡ ok true)
    pub closed : list.is_push_closed ≡ l.is_push_closed
    pub started : IsStarted chunk

  -- The two ways in which a call ends: a chunk that is ready is formatted, of a list that is closed or
  -- when it is full; another one waits for events, of which the list has no more.
  abbrev pub Outcome : EventList → InputFormat → EventList → InputFormat → Type 0
  Outcome l f list chunk =
      ((extract_encoder_input_format_chunk rempi_max_event_length l f
          ≡ formatted_chunk rempi_max_event_length list chunk)
        × (0 < chunk.total_length)
        × ((l.is_push_closed ≡ true) ⊎ (is_full rempi_max_event_length chunk ≡ ok true)))
      ⊎ ((extract_encoder_input_format_chunk rempi_max_event_length l f ≡ ok (list, chunk, false))
          × (list.events.items ≡ [])
          × ((chunk.total_length ≡ 0) ⊎ (l.is_push_closed ≡ false)))

  pub record Extracted (l : EventList) (f : InputFormat) : Type 0 where
    pub list : EventList
    pub chunk : InputFormat
    pub taken : List Event
    pub order : l.events.items ≡ taken ++ list.events.items
    pub added : chunk ≡ add_all taken f
    pub stops : (list.events.items ≡ []) ⊎ (is_full rempi_max_event_length chunk ≡ ok true)
    pub outcome : Outcome l f list chunk
