-- ===== src/Gate/Concurrent.antt =====
-- src/reomp/reomp_gate_clock.cpp, `reomp_gate_cclock`: consecutive loads, or consecutive stores, of one
-- lock get the clock of the first of them as their ticket, so that they may run at once on replay. A
-- clock is below `2 ^ 31 - 1024`, so that no index is negative.
use re_mpi.Common.{
  ◌^◌, update, ℕ, zero, suc, ◌+◌, ◌-◌, ◌%◌, ◌<◌, ◌≤◌, ◌≡◌, ◌≢◌, refl, sym, ap, ◌∙◌, Bool, true,
  false, ◌||◌, ◌&&◌, not, Option, none, some, ◌==◌, ltb, ==_iff, Bool-cases, inl, inr,
  if◌then◌else◌, arith, Run, ok, spin, ◌>>=◌,
}
use re_mpi.Gate.{
  minus_one, filter_reentry_out, Gate, Mode, recording, replaying, increased, int_mod,
  get_clock_replay, record_ticket_number, filter_serial_region_inout, filter_reentry_in,
}
use re_mpi.Gate.Ticket.{set_lock, unset_lock}

-- REOMP_CCGATE_PREVIOUSE_SIZE, REOMP_CCGATE_WINDOW_SIZE
abbrev pub previous_size : ℕ
previous_size = 1024

abbrev pub window_size : ℕ
window_size = 10

-- REOMP_RR_TYPE_NULL, LOAD, ATOMICLOAD, STORE, ATOMICSTORE
abbrev pub is_load : ℕ → Bool
is_load rw = rw == 101 || rw == 110

abbrev pub is_store : ℕ → Bool
is_store rw = rw == 102 || rw == 111

abbrev pub null_type : ℕ
null_type = 0

-- One entry of the accesses of a lock.
abbrev pub write_previous : (index rw lock_id : ℕ) → Gate → Gate
write_previous index rw lock_id g = record g {
  previous = update g.previous lock_id (update (g.previous lock_id) index rw);
}

unfoldable pub set_concecutive_load_store : (clock rw lock_id : ℕ) → Gate → Gate
set_concecutive_load_store clock rw lock_id g = write_previous (clock % previous_size) rw lock_id g

-- The loop from `i` on, `n` more times.
unfoldable pub consecutive_from : (n i clock rw : ℕ) → (ℕ → ℕ) → ℕ
consecutive_from zero i clock rw previous = 0
consecutive_from (suc n) i clock rw previous =
    let rest = consecutive_from n (i + 1) clock rw previous in
    if previous ((clock + previous_size - i) % previous_size) == rw then suc rest else 0

-- In range for clocks below `2 ^ 31 - 1024`.
unfoldable pub test_concecutive_load_store : (clock rw lock_id : ℕ) → Gate → ℕ
unfolding consecutive_from
test_concecutive_load_store clock rw lock_id g =
    if not (is_load rw || is_store rw)
    then 0
    else consecutive_from window_size 1 clock rw (g.previous lock_id)

unfoldable pub reset_concecutive_load_store : (clock lock_id : ℕ) → Gate → Gate
reset_concecutive_load_store clock lock_id g =
    write_previous ((clock + 341) % previous_size) null_type lock_id g

-- -1 is `none`, 1 and 0 are `some`.
unfoldable pub is_next_store : (clock lock_id : ℕ) → Gate → Option Bool
is_next_store clock lock_id g =
    let rw = g.previous lock_id ((clock + 1) % previous_size) in
    if rw == null_type then none else some (is_store rw)

-- `while (clock > reomp_cgate.current_clocks[lock_id]);`
unfoldable pub await_at_least : ℕ → ℕ × Gate → Run Gate
await_at_least lock_id (clock, g) = if ltb (g.current_clocks lock_id) clock then spin else ok g

unfoldable pub ccgate_in_outermost : Mode → (tid lock_id : ℕ) → Bool × Gate → Run Gate
unfolding set_lock await_at_least get_clock_replay
ccgate_in_outermost mode tid lock_id (true, g) = ok g
ccgate_in_outermost recording tid lock_id (false, g) =
    set_lock lock_id g >>= λ g'. ok (record g' { current_tid = tid })
ccgate_in_outermost replaying tid lock_id (false, g) =
    get_clock_replay tid g >>= await_at_least lock_id >>= λ g'. ok (record g' { current_tid = tid })

unfoldable pub ccgate_in : Mode → (num_threads tid lock_id : ℕ) → Gate → Run Gate
unfolding ccgate_in_outermost filter_reentry_in filter_serial_region_inout
ccgate_in mode num_threads tid lock_id g =
    if filter_serial_region_inout num_threads
    then ok g
    else ccgate_in_outermost mode tid lock_id (filter_reentry_in tid g)

-- Recording, up to `omp_unset_lock`: the clock, the count, and the gate.
unfoldable pub ccgate_out_locked : (rw lock_id : ℕ) → Gate → ℕ × ℕ × Gate
unfolding set_concecutive_load_store test_concecutive_load_store
ccgate_out_locked rw lock_id g =
    let clock = g.current_clocks lock_id in
    let g₁ =
      set_concecutive_load_store clock rw lock_id
        (record g { current_clocks = update g.current_clocks lock_id (increased clock) }) in
    (clock, test_concecutive_load_store clock rw lock_id g₁, unset_lock lock_id g₁)

-- The count that is used: `retry` starts at 100, so that `!retry` is false and the loop around
-- `reomp_ccgate_is_next_store` never runs.
unfoldable pub used_count : (rw clock count lock_id : ℕ) → Gate → ℕ
unfolding is_next_store
used_count rw clock count lock_id g =
    if is_store rw && ltb 0 count
    then elim (is_next_store clock lock_id g) [ none ↦ 0 | some b ↦ if b then count else 0 ]
    else count

-- Recording, behind `omp_unset_lock`: other threads may have run in between.
unfoldable pub ccgate_out_ticket : (tid rw clock count lock_id : ℕ) → Gate → Gate
unfolding used_count record_ticket_number reset_concecutive_load_store
ccgate_out_ticket tid rw clock count lock_id g =
    reset_concecutive_load_store clock lock_id (
      record_ticket_number tid ((clock + int_mod - used_count rw clock count lock_id g) % int_mod)
        g)

-- Replaying.
unfoldable pub ccgate_out_replay : (lock_id : ℕ) → Gate → Gate
ccgate_out_replay lock_id g = record g {
  current_clocks = update g.current_clocks lock_id (increased (g.current_clocks lock_id));
}

unfoldable pub ccgate_out_outermost : Mode → (tid rw lock_id : ℕ) → Bool × Gate → Gate
unfolding ccgate_out_locked ccgate_out_ticket ccgate_out_replay
ccgate_out_outermost mode tid rw lock_id (true, g) = g
ccgate_out_outermost recording tid rw lock_id (false, g) =
    let (clock, count, g') = ccgate_out_locked rw lock_id (record g { current_tid = minus_one }) in
    ccgate_out_ticket tid rw clock count lock_id g'
ccgate_out_outermost replaying tid rw lock_id (false, g) =
    ccgate_out_replay lock_id (record g { current_tid = minus_one })

-- Without another thread in between. The type of the access is the low byte of `ptr`.
unfoldable pub ccgate_out : Mode → (num_threads ptr tid lock_id : ℕ) → Gate → Gate
unfolding ccgate_out_outermost filter_reentry_out filter_serial_region_inout
ccgate_out mode num_threads ptr tid lock_id g =
    if filter_serial_region_inout num_threads
    then g
    else ccgate_out_outermost mode tid (ptr % 256) lock_id (filter_reentry_out tid g)

-- A run of `c` accesses of type `rw` before `clock`, at most `n` of them, which is as long as it can be.
pub record IsRun (n i clock rw : ℕ) (previous : ℕ → ℕ) (c : ℕ) : Type 0 where
  pub bounded : c ≤ n
  pub same :
      (j : ℕ) → i ≤ j → j < i + c → previous ((clock + previous_size - j) % previous_size) ≡ rw
  pub longest : c < n → previous ((clock + previous_size - (i + c)) % previous_size) ≢ rw

consecutive_from-IsRun :
    (n i clock type : ℕ) (previous : ℕ → ℕ)
    → IsRun n i clock type previous (consecutive_from n i clock type previous)
unfolding consecutive_from
consecutive_from-IsRun zero i clock type previous = record {
  bounded = omega arith;
  same = λ j low high. absurd (omega arith);
  longest = λ h. absurd (omega arith);
}
consecutive_from-IsRun (suc n) i clock type previous =
    let rest = consecutive_from-IsRun n (i + 1) clock type previous in
    let c = consecutive_from n (i + 1) clock type previous in
    elim (Bool-cases (previous ((clock + previous_size - i) % previous_size) == type)) [
      | inl hit ↦ rw hit (record {
        bounded = omega (arith, rest.bounded);
        same = λ j low high. elim (Bool-cases (i == j)) [
          | inl this ↦
              ap (λ j. previous ((clock + previous_size - j) % previous_size))
                (sym ((==_iff i j).0 this))
              ∙ (==_iff _ type).0 hit
          | inr that ↦ rest.same j (ground arith) (omega arith)
        ];
        longest = λ h e. rest.longest (omega arith) (
            ap (λ k. previous ((clock + previous_size - k) % previous_size)) {y = i + suc c}
              (omega arith)
            ∙ e);
      })
      | inr miss ↦ rw miss (record {
        bounded = omega arith;
        same = λ j low high. absurd (omega arith);
        longest = λ h e. cc (
          miss,
          (==_iff _ type).1 (
              ap (λ k. previous ((clock + previous_size - k) % previous_size)) {x = i} {y = i + 0}
                (omega arith)
              ∙ e),
        );
      })
    ]

-- For clocks below `2 ^ 31 - 1024` and an access of type `type` that is a load or a store, plain or
-- atomic: the count is that of the
-- longest run of accesses of the same type, of at most ten, that ends right before `clock` in the
-- ring of the lock; for any other access it is 0.
pub test_concecutive_load_store_lem :
    (clock type lock_id : ℕ) (g : Gate)
    → clock < 2 ^ 31 - 1024
    → ((is_load type || is_store type) ≡ true
        → IsRun 10 1 clock type
            (g.previous lock_id)
            (test_concecutive_load_store clock type lock_id g))
      × ((is_load type || is_store type) ≡ false
          → test_concecutive_load_store clock type lock_id g ≡ 0)
unfolding test_concecutive_load_store
test_concecutive_load_store_lem clock type lock_id g small = (
  λ access. rw access (consecutive_from-IsRun window_size 1 clock type (g.previous lock_id)),
  λ other. rw other refl,
)
