-- ===== src/IoThread/Replay.antt =====
-- src/rempi: recording, the file, and replay together.
use re_mpi.Common.{ℕ, suc, ◌≡◌, List, length, Run, ok, ◌>>=◌}
use re_mpi.Event.{Event}
use re_mpi.Event.Counting.{inputs}
use re_mpi.SpscQueue.Fifo.{Fifo}
use re_mpi.EventList.{EventList, Status, finish, new_list}
use re_mpi.EventList.Replay.{drain}
use re_mpi.Encoder.Basic.{Config}
use re_mpi.IoThread.{Writer, read_record_lite}
use re_mpi.IoThread.Recorded.{Recorded}

-- A fresh list, the file decoded into it, and the application's calls.
unfoldable pub replay : Config → ℕ → ℕ → ℕ → Writer → Run (List Event × Status)
replay cfg max_size rounds calls w =
    read_record_lite cfg rounds w.encoder (new_list max_size) >>= λ l. drain calls l 0

-- The outcome of a replay of what was pushed.
pub record Replayed (cfg : Config) (max_size : ℕ) (w : Writer) (pushed : List Event) : Type 0 where
  pub rounds : ℕ
  pub events : List Event
  pub result : replay cfg max_size rounds (suc (length pushed)) w ≡ ok (events, finish)
  pub same : inputs events ≡ inputs pushed
