-- ===== src/Cdc/Extract.antt =====
-- src/rempi/rempi_encoder_cdc.cpp: `extract_encoder_input_format_chunk`, which fills a chunk from the event
-- list.
pub mod Taken
use re_mpi.Common.{
  ℕ, zero, suc, Bool, true, false, Option, none, some, ◌==◌, ltb, if◌then◌else◌, Run, ok, abort,
  ◌>>=◌,
}
use re_mpi.Event.{Event, get_with_next}
use re_mpi.EventList.{EventList, size, front, pop}
use re_mpi.Cdc.Table.{InputFormat, add, format}

-- `last_added_event->get_with_next() == REMPI_MPI_EVENT_NOT_WITH_NEXT`, of a pointer that is NULL at first.
unfoldable pub ends_call : Option Event → Run Bool
unfolding get_with_next
ends_call none = abort
ends_call (some e) = ok (get_with_next e == 0)

-- `rempi_max_event_length`
module _ (rempi_max_event_length : ℕ) where
  unfoldable pub is_full : InputFormat → Run Bool
  unfolding ends_call
  is_full f =
      if ltb rempi_max_event_length f.total_length then ends_call f.last_added_event else ok false

  -- `add` of what `pop` returned, which must not be NULL; `continue` goes on.
  unfoldable pub add_popped :
      (EventList → InputFormat → Run (EventList × InputFormat))
      → InputFormat
      → Option Event × EventList
      → Run (EventList × InputFormat)
  add_popped continue f (none, l) = abort
  add_popped continue f (some e, l) = continue l (add e f)

  -- The body of the loop on what `front` returned.
  unfoldable pub take_event :
      (EventList → InputFormat → Run (EventList × InputFormat))
      → EventList
      → InputFormat
      → Option Event
      → Run (EventList × InputFormat)
  unfolding is_full add_popped pop
  take_event continue l f none = ok (l, f)
  take_event continue l f (some e) =
      is_full f >>= λ full. if full then ok (l, f) else add_popped continue f (pop l)

  -- The loop, with one more than the queue has events as fuel.
  unfoldable pub take_events : (fuel : ℕ) → EventList → InputFormat → Run (EventList × InputFormat)
  unfolding take_event front
  take_events zero l f = abort
  take_events (suc fuel) l f = take_event (take_events fuel) l f (front l)

  unfoldable pub formatted_chunk : EventList → InputFormat → Run (EventList × InputFormat × Bool)
  formatted_chunk l f = format f >>= λ f'. ok (l, f', true)

  -- After the loop. The last component is `is_ready_for_encoding`.
  unfoldable pub extracted : EventList → InputFormat → Run (EventList × InputFormat × Bool)
  unfolding is_full formatted_chunk
  extracted l f =
      if f.total_length == 0
      then ok (l, f, false)
      else if l.is_push_closed
      then formatted_chunk l f
      else (is_full f >>= λ full. if full then formatted_chunk l f else ok (l, f, false))

  unfoldable pub extract_encoder_input_format_chunk :
      EventList → InputFormat → Run (EventList × InputFormat × Bool)
  unfolding take_events extracted size
  extract_encoder_input_format_chunk l f = take_events (suc (size l)) l f >>= λ r. extracted r.0 r.1
