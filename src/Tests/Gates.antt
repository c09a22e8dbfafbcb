-- ===== src/Tests/Gates.antt =====
-- src/reomp/reomp_gate_clock.cpp: two threads, a nested section, and consecutive loads.
use re_mpi.Common.{update, ◌≡◌, [], ◌∷◌, refl, arith, true, false, ◌||◌}
use re_mpi.Gate.{
  Gate, init, record_ticket_number, fwrite, filter_reentry_in, filter_reentry_out,
  filter_serial_region_inout,
}
use re_mpi.Gate.Ticket.{
  gate_in, gate_out, ticket_wait, leave, wait_outermost, leave_outermost, set_lock,
}
use re_mpi.Common.{◌<◌}
use re_mpi.Common.Bytes.{to_le, from_le}
use re_mpi.Gate.{get_clock_replay, fread}
use re_mpi.Gate.Ticket.{await_clock}
use re_mpi.Gate.Record.{count}
use re_mpi.Gate.Replay
use re_mpi.Gate.Replay.{marks}
use re_mpi.Gate.Replay.Order.{IsReplay, Reach-IsReplay}
use re_mpi.Gate.Replay.Progress.{CanProceed, Reach-CanProceed}
use re_mpi.Gate.Record.{Session, Reach, start, next, enter, exit}
use re_mpi.Gate.Record.Moves.{IsRecorded}
use re_mpi.Gate.Record.Tickets.{Reach-IsRecorded}
use re_mpi.Gate.Concurrent.{
  is_load, is_store, IsRun, test_concecutive_load_store, test_concecutive_load_store_lem,
}

unfoldable recorded : (s : Session) × Reach 2 (λ _ _. 0) 6 s
unfolding gate_in gate_out ticket_wait leave wait_outermost leave_outermost set_lock
    record_ticket_number fwrite filter_reentry_in filter_reentry_out filter_serial_region_inout
recorded = (
  _,
  next
      (next
        (next (next (next (next start (enter 0 3 refl)) (enter 0 4 refl)) (exit 0 4 (3 ∷ []) refl))
          (exit 0 3 [] refl))
        (enter 1 3 refl))
      (exit 1 3 [] refl),
)

Reach-IsRecorded_example : IsRecorded 6 recorded.0
Reach-IsRecorded_example = Reach-IsRecorded 2 refl recorded.1 (omega arith)

-- The lock 0 has seen a store, two loads, and then the load at clock 3.
abbrev loaded : Gate
loaded = init (λ _. update (update (update (update (λ _. 0) 0 102) 1 101) 2 101) 3 101) (λ _. [])

test_concecutive_load_store_lem_example :
    ((is_load 101 || is_store 101) ≡ true
      → IsRun 10 1 3 101 (loaded.previous 0) (test_concecutive_load_store 3 101 0 loaded))
    × ((is_load 101 || is_store 101) ≡ false → test_concecutive_load_store 3 101 0 loaded ≡ 0)
test_concecutive_load_store_lem_example =
    test_concecutive_load_store_lem 3 101 0 loaded (omega arith)

-- Thread 0 is replayed, and thread 1 is inside its section.
unfoldable replayed :
    (s : Session) × Replay.Reach 2 recorded.0.history (λ _ _. 0) recorded.0.gate.files 5 s
unfolding recorded gate_in gate_out ticket_wait leave wait_outermost leave_outermost set_lock
    record_ticket_number fwrite filter_reentry_in filter_reentry_out filter_serial_region_inout
    await_clock get_clock_replay fread marks count to_le from_le
replayed = (
  _,
  Replay.next
      (Replay.next
        (Replay.next
          (Replay.next (Replay.next Replay.start (Replay.enter 0 3 ([], refl) refl))
            (Replay.enter 0 4 tt refl))
          (Replay.exit 0 4 (3 ∷ []) refl))
        (Replay.exit 0 3 [] refl))
      (Replay.enter 1 3 ([], refl) refl),
)

Reach-IsReplay_example : IsReplay recorded.0.history replayed.0
Reach-IsReplay_example =
    Reach-IsReplay 2 6 5 recorded.0 replayed.0 refl recorded.1 (omega arith) replayed.1
      (omega arith)

lock_behind : count 3 replayed.0.history < count 3 recorded.0.history
unfolding recorded replayed count
lock_behind = omega arith

Reach-CanProceed_example : CanProceed 2 recorded.0.history replayed.0
Reach-CanProceed_example =
    Reach-CanProceed 2 6 5 3 recorded.0 replayed.0 refl recorded.1 (omega arith) replayed.1
      (omega arith) lock_behind
