-- ===== src/Tests/Recording.antt =====
-- src/rempi/rempi_event_list.cpp: two unsuccessful tests and a receive are pushed, one event popped.
use re_mpi.Common.{suc, [], ◌∷◌, true, refl, inl, inr, some, length, arith}
use re_mpi.Event.{Event, increment, same_event}
use re_mpi.Event.Counting.{expand_all}
use re_mpi.SpscQueue.Fifo.{Fifo}
use re_mpi.EventList.Replay.{Drained, remaining, drain-expand_all}
use re_mpi.EventList.{
  EventList, new_list, push, push_after, push_all, pop, normal_push, flush, close_push,
  set_globally_minimal_clock,
}
use re_mpi.EventList.Record.{Recording, Reach, start, next, produce, consume, close, stream}
use re_mpi.EventList.Record.History.{IsHistory, Reach-IsHistory}
use re_mpi.Tests.{test_event, recv_event}

unfoldable recorded : (s : Recording) × Reach 8 s
unfolding push push_after push_all pop normal_push flush increment same_event close_push
    set_globally_minimal_clock
recorded = (
  _,
  next
      (next
        (next
          (next (next start (produce test_event (refl, inr refl) refl))
            (produce test_event (refl, inr refl) refl))
          (produce recv_event (refl, inl refl) refl))
        (consume (increment test_event) refl))
      (close refl),
)

Reach-IsHistory_example : IsHistory (stream recorded.0) recorded.0.pushed
unfolding recorded
Reach-IsHistory_example = Reach-IsHistory recorded.1 (omega arith)

-- A list for replay that holds a test counted twice, and a receive.
abbrev counted_event : Event
counted_event =
    let i = test_event.mpi_inputs in record test_event { mpi_inputs = record i { event_count = 2 } }

abbrev two_items : Fifo Event
two_items = record { items = counted_event ∷ recv_event ∷ []; enqueue_count = 2; dequeue_count = 0 }

abbrev replaying : EventList
replaying = record (new_list 8) { replay_events = λ _. some two_items; is_push_closed = true }

drain-expand_all_example :
    Drained replaying 5
      (suc (length (expand_all (remaining replaying 5 two_items))))
      (expand_all (remaining replaying 5 two_items))
drain-expand_all_example = drain-expand_all replaying 5 two_items refl refl (
  record { positive = omega arith; bounded = omega arith; known = inr refl },
  (record { positive = omega arith; bounded = omega arith; known = inl (refl, refl) }, tt),
)
