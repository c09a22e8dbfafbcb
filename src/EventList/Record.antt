-- ===== src/EventList/Record.antt =====
-- src/rempi/rempi_event_list.cpp on the recording side: the application pushes, the I/O thread
-- pops, in any order.
pub mod Effect
pub mod History
use re_mpi.Common.{
  ℕ, suc, ◌+◌, ◌^◌, ◌≤◌, ◌<◌, ◌≡◌, refl, sym, ap, ◌∙◌, ◌⊎◌, Bool, true, false, Option, none, some,
  List, [], ◌∷◌, ◌++◌, map, arith, ◌==◌, Bool-cases, inl, inr, ◌&&◌, Run, ok, ok-injective,
  >>=-eq-ok, unless-abort, length, All, All-append, length-append, append_assoc, map-append,
  append-nil,
}
use mathlib.Core.Path.{subst, ap₂}
use re_mpi.Event.{Inputs, Event, increment, same_event, recv_type, test_type}
use re_mpi.Event.Counting.{
  held, inputs, left-IsCounted, IsCounted, expand, expand_all, expand_all-append, expand_all_one,
  expand-once, expand-increment, increment-IsCounted, length-expand,
}
use re_mpi.SpscQueue.Fifo.{Fifo, enqueue}
use re_mpi.EventList.{EventList, new_list, normal_push, flush, push_after, push, push_all, pop}

-- The event that is still being counted. After `push_all` it stands in the queue.
abbrev pub unless_closed : Bool → Option Event → List Inputs
unless_closed true prev = []
unless_closed false prev = held prev

abbrev pub pending : EventList → List Inputs
pending l = unless_closed l.is_push_closed l.previous_recording_event

-- A call of a recorder: one occurrence of a receive or a test.
abbrev pub IsSingle : Event → Type 0
IsSingle e =
    (e.mpi_inputs.event_count ≡ 1)
    × ((e.mpi_inputs.type ≡ recv_type) ⊎ (e.mpi_inputs.type ≡ test_type))

-- The list, what the I/O thread has popped, and what the application has pushed.
pub record Recording : Type 0 where
  pub list : EventList
  pub popped : List Event
  pub pushed : List Event

pub data Step (s : Recording) : Recording → Type 0 where
  produce :
      (e : Event) {l : EventList}
      → IsSingle e
      → push s.list e ≡ ok l
      → Step s (record s { list = l; pushed = s.pushed ++ e ∷ [] })
  consume :
      (e : Event) {l : EventList}
      → pop s.list ≡ (some e, l)
      → Step s (record s { list = l; popped = s.popped ++ e ∷ [] })
  close : {l : EventList} → push_all s.list ≡ ok l → Step s (record s { list = l })

pub data Reach (max_size : ℕ) : Recording → Type 0 where
  start : Reach max_size (record { list = new_list max_size; popped = []; pushed = [] })
  next : {s t : Recording} → Reach max_size s → Step s t → Reach max_size t

-- The events in the list, in order.
abbrev pub queued : EventList → List Inputs
queued l = inputs l.events.items ++ pending l

-- What has left the application, in order: popped, queued, and still being counted.
abbrev pub stream : Recording → List Inputs
stream s = inputs s.popped ++ queued s.list

pub inputs-append :
    (xs : List Event) (e : Event) → inputs (xs ++ e ∷ []) ≡ inputs xs ++ e.mpi_inputs ∷ []
inputs-append xs e = map-append (λ (e : Event). e.mpi_inputs) xs (e ∷ [])
