-- ===== src/Gate.antt =====
-- src/reomp/reomp_gate_clock.cpp: the gates of ReOMP around gated sections, with clocks as tickets.
-- An `int` is its 32-bit pattern. Reductions, speculation and timing are not modelled.
pub mod Ticket
pub mod Record
pub mod Replay
pub mod Concurrent
use re_mpi.Common.{
  update, ℕ, ◌+◌, ◌-◌, ◌%◌, ◌^◌, Bool, true, false, ◌&&◌, not, List, [], ◌∷◌, ◌++◌, ◌==◌, ltb, leb,
  if◌then◌else◌, length, take, drop, Run, ok, spin, abort, ◌>>=◌,
}
use re_mpi.Common.Bytes.{Bytes, to_le, from_le}

abbrev pub int_mod : ℕ
int_mod = 2 ^ 32

abbrev pub minus_one : ℕ
minus_one = 2 ^ 32 - 1

-- `x > 0` of an int.
abbrev pub is_positive : ℕ → Bool
is_positive x = ltb 0 x && ltb x (2 ^ 31)

abbrev pub increased : ℕ → ℕ
increased x = (x + 1) % int_mod

abbrev pub decreased : ℕ → ℕ
decreased x = (x + int_mod - 1) % int_mod

-- `reomp_cgate`, the accesses of each lock before (`reomp_ccgate_previous`), and each thread's record
-- file: its bytes when recording, those not read yet when replaying.
pub record Gate : Type 0 where
  pub current_tid : ℕ
  pub nest_num : ℕ → ℕ
  pub current_clocks : ℕ → ℕ
  pub omp_locks : ℕ → Bool
  pub previous : ℕ → ℕ → ℕ
  pub files : ℕ → Bytes

-- `reomp_cgate_init`; what `valloc` leaves in `reomp_ccgate_previous` is a parameter.
abbrev pub init : (ℕ → ℕ → ℕ) → (ℕ → Bytes) → Gate
init previous files = record {
  current_tid = minus_one;
  nest_num = λ _. 0;
  current_clocks = λ _. 0;
  omp_locks = λ _. false;
  previous = previous;
  files = files;
}

-- REOMP_ENV_MODE_RECORD or REOMP_ENV_MODE_REPLAY
pub data Mode : Type 0 where
  recording replaying : Mode

unfoldable pub fwrite : (size value tid : ℕ) → Gate → Gate
fwrite size value tid g = record g { files = update g.files tid (g.files tid ++ to_le size value) }

-- The end of the file is MUTIL_ERR.
unfoldable pub fread : (size tid : ℕ) → Gate → Run (ℕ × Gate)
fread size tid g =
    if ltb (length (g.files tid)) size
    then abort
    else ok (
      from_le (take size (g.files tid)),
      record g { files = update g.files tid (drop size (g.files tid)) },
    )

unfoldable pub get_clock_replay : ℕ → Gate → Run (ℕ × Gate)
unfolding fread
get_clock_replay tid g = fread 4 tid g

unfoldable pub record_ticket_number : (tid clock : ℕ) → Gate → Gate
unfolding fwrite
record_ticket_number tid clock g = fwrite 4 clock tid g

-- `omp_get_num_threads() == 1`
unfoldable pub filter_serial_region_inout : ℕ → Bool
filter_serial_region_inout num_threads = num_threads == 1

unfoldable pub filter_reentry_in : ℕ → Gate → Bool × Gate
filter_reentry_in tid g = (
  is_positive (g.nest_num tid),
  record g { nest_num = update g.nest_num tid (increased (g.nest_num tid)) },
)

unfoldable pub filter_reentry_out : ℕ → Gate → Bool × Gate
filter_reentry_out tid g =
    let n = decreased (g.nest_num tid) in
    (is_positive n, record g { nest_num = update g.nest_num tid n })
