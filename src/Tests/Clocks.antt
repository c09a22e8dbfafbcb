-- ===== src/Tests/Clocks.antt =====
-- src/rempi/rempi_clock.cpp: rank 0 sends, rank 1 receives and sends.
use re_mpi.Common.{◌+◌, [], refl, All, arith, false}
use re_mpi.Clock.{
  initial_clock, sync_clocks, sync_loop, sync_one, sync_clock, matched_request_index, mpi_isend,
}
use re_mpi.Clock.Causality.{
  System, Reach, start, next, send, receive, poll, IsCausal, Reach-IsCausal,
}

unfoldable relayed : (s : System) × Reach false 4 s
unfolding sync_clocks sync_loop sync_one sync_clock matched_request_index mpi_isend
relayed = (
  _,
  next (next (next (next start (send 0)) (receive 1 [] [] _ refl refl)) (poll 0 refl)) (send 1),
)

Reach-IsCausal_example : All (IsCausal (initial_clock + 4)) relayed.0.sent
Reach-IsCausal_example = Reach-IsCausal relayed.1 (omega arith)
