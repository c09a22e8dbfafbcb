-- ===== src/Gate/Ticket.antt =====
-- src/reomp/reomp_gate_clock.cpp, `reomp_gate_clock`: a section waits for its ticket. A wait that goes
-- on is `spin`: the thread has changed nothing that another reads, and the call is made again.
use re_mpi.Common.{update, ℕ, Bool, true, false, ◌==◌, if◌then◌else◌, Run, ok, spin, ◌>>=◌}
use re_mpi.Gate.{
  minus_one, Gate, Mode, recording, replaying, increased, get_clock_replay, record_ticket_number,
  filter_serial_region_inout, filter_reentry_in, filter_reentry_out,
}

-- `omp_set_lock` and `omp_unset_lock`
unfoldable pub set_lock : ℕ → Gate → Run Gate
set_lock lock_id g =
    if g.omp_locks lock_id
    then spin
    else ok (record g { omp_locks = update g.omp_locks lock_id true })

abbrev pub unset_lock : ℕ → Gate → Gate
unset_lock lock_id g = record g { omp_locks = update g.omp_locks lock_id false }

-- `while (clock != reomp_cgate.current_clocks[lock_id]);`
unfoldable pub await_clock : ℕ → ℕ × Gate → Run Gate
await_clock lock_id (clock, g) = if clock == g.current_clocks lock_id then ok g else spin

-- The rest of `reomp_cgate_ticket_wait` behind the filter.
unfoldable pub wait_outermost : Mode → (tid lock_id : ℕ) → Bool × Gate → Run Gate
unfolding set_lock await_clock get_clock_replay
wait_outermost mode tid lock_id (true, g) = ok g
wait_outermost recording tid lock_id (false, g) =
    set_lock lock_id g >>= λ g'. ok (record g' { current_tid = tid })
wait_outermost replaying tid lock_id (false, g) =
    get_clock_replay tid g >>= await_clock lock_id >>= λ g'. ok (record g' { current_tid = tid })

unfoldable pub ticket_wait : Mode → (tid lock_id : ℕ) → Gate → Run Gate
unfolding wait_outermost filter_reentry_in
ticket_wait mode tid lock_id g = wait_outermost mode tid lock_id (filter_reentry_in tid g)

-- The rest of `reomp_cgate_leave` behind the filter.
unfoldable pub leave_outermost : Mode → (tid lock_id : ℕ) → Bool × Gate → Gate
unfolding record_ticket_number
leave_outermost mode tid lock_id (true, g) = g
leave_outermost recording tid lock_id (false, g) =
    record_ticket_number tid (g.current_clocks lock_id) (
      unset_lock lock_id (record g {
        current_tid = minus_one;
        current_clocks = update g.current_clocks lock_id (increased (g.current_clocks lock_id));
      }))
leave_outermost replaying tid lock_id (false, g) = record g {
  current_tid = minus_one;
  current_clocks = update g.current_clocks lock_id (increased (g.current_clocks lock_id));
}

unfoldable pub leave : Mode → (tid lock_id : ℕ) → Gate → Gate
unfolding leave_outermost filter_reentry_out
leave mode tid lock_id g = leave_outermost mode tid lock_id (filter_reentry_out tid g)

unfoldable pub gate_in : Mode → (num_threads tid lock_id : ℕ) → Gate → Run Gate
unfolding ticket_wait
gate_in mode num_threads tid lock_id g =
    if num_threads == 1 then ok g else ticket_wait mode tid lock_id g

unfoldable pub gate_out : Mode → (num_threads tid lock_id : ℕ) → Gate → Gate
unfolding leave filter_serial_region_inout
gate_out mode num_threads tid lock_id g =
    if filter_serial_region_inout num_threads then g else leave mode tid lock_id g
