-- ===== src/Clock.antt =====
-- src/rempi/rempi_clock.cpp: the local logical clock, a 64-bit word. The clocks that come with the
-- messages are CLMPI's, which reads the local clock at a send; its collective synchronisation is not
-- modelled.
pub mod Causality
use re_mpi.Common.{
  ℕ, zero, suc, ◌+◌, ◌%◌, ◌^◌, Bool, true, false, ◌&&◌, Option, none, some, List, ◌==◌, ltb,
  if◌then◌else◌, get_elem?, Run, ok, abort, ◌>>=◌,
}

abbrev pub clock_mod : ℕ
clock_mod = 2 ^ 64

-- REMPI_CLOCK_INITIAL_CLOCK, REMPI_RECV_REQUEST
abbrev pub initial_clock : ℕ
initial_clock = 10

abbrev pub recv_request : ℕ
recv_request = 152

-- `rempi_clock_sync_clock(clock, request_type)` on the local clock.
unfoldable pub sync_clock : (clock request_type local_clock : ℕ) → ℕ
sync_clock clock request_type local_clock =
    if request_type == recv_request
    then ((if ltb local_clock clock then clock else local_clock) + 1) % clock_mod
    else local_clock

-- The arrays of a matching function. `array_of_indices` is NULL for MPI_Test, Testall, Wait, Waitall.
pub record Matched : Type 0 where
  pub array_of_indices : Option (List ℕ)
  pub clock : List ℕ
  pub request_info : List ℕ

unfoldable pub matched_request_index : Option (List ℕ) → ℕ → Option ℕ
matched_request_index none i = some i
matched_request_index (some indices) i = get_elem? indices i

-- An entry behind the end of an array is undefined behaviour.
unfoldable pub sync_one : Matched → ℕ → ℕ → Run ℕ
unfolding sync_clock matched_request_index
sync_one m i local_clock = elim (matched_request_index m.array_of_indices i) [
  | none ↦ abort
  | some index ↦ elim (get_elem? m.clock i) [
    | none ↦ abort
    | some clock ↦ elim (get_elem? m.request_info index) [
      | none ↦ abort
      | some type ↦ ok (sync_clock clock type local_clock)
    ]
  ]
]

-- The loop, from `i` on, `n` more times.
unfoldable pub sync_loop : (n i : ℕ) → Matched → ℕ → Run ℕ
unfolding sync_one
sync_loop zero i m local_clock = ok local_clock
sync_loop (suc n) i m local_clock = sync_one m i local_clock >>= sync_loop n (i + 1) m

-- `rempi_clock_sync_clock(outcount, ...)`. `rep` says that `rempi_encode` is REMPI_ENV_REMPI_ENCODE_REP.
unfoldable pub sync_clocks : Bool → (outcount : ℕ) → Matched → ℕ → Run ℕ
unfolding sync_loop
sync_clocks rep outcount m local_clock = sync_loop outcount 0 m local_clock >>= λ c.
    ok (if rep && outcount == 0 then (c + 1) % clock_mod else c)

unfoldable pub mpi_isend : ℕ → ℕ
mpi_isend local_clock = (local_clock + 1) % clock_mod
