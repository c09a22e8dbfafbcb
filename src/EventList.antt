-- ===== src/EventList.antt =====
-- src/rempi/rempi_event_list.h and rempi_event_list.cpp: the queues between the application's
-- threads and the I/O thread. The mutex guards single map accesses and is not modelled; the two
-- threads meet as an interleaving of whole operations. A full queue makes the caller `spin`.
pub mod Record
pub mod Replay
use re_mpi.Common.{
  update, ℕ, zero, ◌-◌, ◌^◌, Bool, true, false, ◌&&◌, Option, none, some, List, [], ◌∷◌, ◌==◌, leb,
  if◌then◌else◌, Run, ok, spin, abort, ◌>>=◌,
}
use re_mpi.Event.{Event, increment, same_event, Popped, itself, split}
use re_mpi.Event
use re_mpi.SpscQueue.Fifo
use re_mpi.SpscQueue.Fifo.{Fifo, no_items, enqueue, dequeue, rough_size}

-- A map from test ids: an absent key is `none`. In `previous_replaying_event_umap` an absent key and
-- a NULL event are both `none`, since the code writes NULL at an absent key before it reads.
pub record EventList : Type 0 where
  pub events : Fifo Event
  pub replay_events : ℕ → Option (Fifo Event)
  pub previous_recording_event : Option Event
  pub previous_replaying_event : ℕ → Option Event
  pub is_push_closed : Bool
  pub max_size : ℕ
  pub globally_minimal_clock : ℕ

abbrev pub new_list : ℕ → EventList
new_list max_size = record {
  events = no_items;
  replay_events = λ _. none;
  previous_recording_event = none;
  previous_replaying_event = λ _. none;
  is_push_closed = false;
  max_size = max_size;
  globally_minimal_clock = 0;
}

unfoldable pub size : EventList → ℕ
size l = rough_size l.events

-- `while (events.rough_size() >= max_size) usleep(...); events.enqueue(event)`
unfoldable pub normal_push : EventList → Event → Run EventList
normal_push l e =
    if leb l.max_size (rough_size l.events)
    then spin
    else ok (record l { events = enqueue l.events e })

unfoldable pub push_after : EventList → Option Event → Event → Run EventList
unfolding normal_push
push_after l none e = ok (record l { previous_recording_event = some e })
push_after l (some p) e =
    if same_event p e && p.mpi_inputs.matching_group_id == e.mpi_inputs.matching_group_id
    then ok (record l { previous_recording_event = some (increment p) })
    else normal_push l p >>= λ l'. ok (record l' { previous_recording_event = some e })

unfoldable pub push : EventList → Event → Run EventList
unfolding push_after
push l e = if l.is_push_closed then abort else push_after l l.previous_recording_event e

unfoldable pub set_globally_minimal_clock : EventList → ℕ → EventList
set_globally_minimal_clock l gmc = record l { globally_minimal_clock = gmc }

unfoldable pub get_globally_minimal_clock : EventList → ℕ
get_globally_minimal_clock l = l.globally_minimal_clock

unfoldable pub close_push : EventList → EventList
close_push l = record l { is_push_closed = true }

unfoldable pub flush : EventList → Option Event → Run EventList
unfolding normal_push
flush l none = ok l
flush l (some p) = normal_push l p

unfoldable pub push_all : EventList → Run EventList
unfolding flush close_push set_globally_minimal_clock
push_all l =
    if l.is_push_closed
    then abort
    else flush l l.previous_recording_event >>= λ l'.
        ok (close_push (set_globally_minimal_clock l' (2 ^ 64 - 1)))

unfoldable pub pop : EventList → Option Event × EventList
pop l = let (e, q) = dequeue l.events in (e, record l { events = q })

unfoldable pub front : EventList → Option Event
front l = Fifo.front l.events

-- REMPI_EVENT_LIST_EMPTY, REMPI_EVENT_LIST_FINISH, REMPI_EVENT_LIST_DEQUEUED
pub data Status : Type 0 where
  empty finish dequeued : Status

abbrev pub Dequeued : Type 0
Dequeued = EventList × Status × Option Event

unfoldable pub hand_out : EventList → ℕ → Event → Run Dequeued
hand_out l test_id e = Event.pop e >>= elim [
  | itself ↦ ok (
    record l { previous_replaying_event = update l.previous_replaying_event test_id none },
    dequeued,
    some e,
  )
  | split event rest ↦ ok (
    record l { previous_replaying_event = update l.previous_replaying_event test_id (some rest) },
    dequeued,
    some event,
  )
]

unfoldable pub fetch : EventList → ℕ → Option Event × Fifo Event → Run Dequeued
unfolding hand_out
fetch l test_id (none, q) = ok (l, if l.is_push_closed then finish else empty, none)
fetch l test_id (some e, q) =
    hand_out (record l { replay_events = update l.replay_events test_id (some q) }) test_id e

unfoldable pub dequeue_from : EventList → ℕ → Option (Fifo Event) → Option Event → Run Dequeued
unfolding fetch
dequeue_from l test_id none previous = ok (l, empty, none)
dequeue_from l test_id (some q) none = fetch l test_id (dequeue q)
dequeue_from l test_id (some q) (some e) = hand_out l test_id e

unfoldable pub dequeue_replay : EventList → ℕ → Run Dequeued
unfolding dequeue_from
dequeue_replay l test_id =
    dequeue_from l test_id (l.replay_events test_id) (l.previous_replaying_event test_id)

unfoldable pub front_replay : EventList → ℕ → Option Event
front_replay l test_id = elim (l.replay_events test_id) [ none ↦ none | some q ↦ Fifo.front q ]

abbrev pub queue_of : Option (Fifo Event) → Fifo Event
queue_of none = no_items
queue_of (some q) = q

-- The queue of an unknown test id is created first, empty, so that it is full only if `max_size` is 0.
unfoldable pub enqueue_replay : EventList → Event → ℕ → Run EventList
enqueue_replay l e test_id =
    let q = queue_of (l.replay_events test_id) in
    if leb l.max_size (rough_size q)
    then spin
    else ok (record l { replay_events = update l.replay_events test_id (some (enqueue q e)) })

unfoldable pub size_replay : EventList → ℕ → ℕ
size_replay l test_id = rough_size (queue_of (l.replay_events test_id))

unfoldable pub get_enqueue_count : EventList → ℕ → ℕ
get_enqueue_count l test_id = (queue_of (l.replay_events test_id)).enqueue_count

unfoldable pub get_dequeue_count : EventList → ℕ → ℕ
get_dequeue_count l test_id = (queue_of (l.replay_events test_id)).dequeue_count

-- "is not supported"
unfoldable pub get_last_enqueued_clock : EventList → ℕ → Run ℕ
get_last_enqueued_clock l rank = abort
