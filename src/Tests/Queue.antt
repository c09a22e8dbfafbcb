-- ===== src/Tests/Queue.antt =====
-- src/rempi/rempi_spsc_queue.h: a run in which the node left behind is used again.
use re_mpi.Common.{ℕ, ◌≡◌, List, [], ◌∷◌, arith}
use re_mpi.SpscQueue.Fifo.{no_items}
use re_mpi.SpscQueue.Nodes.{new_queue}
use re_mpi.SpscQueue.Calls.{
  Call, enqueue_call, dequeue_call, front_call, size_call, run_nodes, run_fifo, run_nodes-run_fifo,
}

abbrev calls : List (Call ℕ)
calls =
    enqueue_call 5
    ∷ dequeue_call
    ∷ enqueue_call 6
    ∷ enqueue_call 7
    ∷ front_call
    ∷ dequeue_call
    ∷ size_call
    ∷ dequeue_call
    ∷ dequeue_call
    ∷ []

run_nodes-run_fifo_example : run_nodes calls new_queue ≡ run_fifo calls no_items
run_nodes-run_fifo_example = run_nodes-run_fifo calls (omega arith)
