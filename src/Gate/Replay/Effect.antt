-- ===== src/Gate/Replay/Effect.antt =====
-- src/reomp/reomp_gate_clock.cpp when replaying: what one call of the gate changes.
use re_mpi.Common.{
  update, ℕ, ◌^◌, ◌<◌, ◌≡◌, refl, ap, ◌∙◌, Bool-cases, true, false, inl, inr, ◌++◌, ◌==◌, ltb,
  if◌then◌else◌, take, drop, length, arith, ok, spin, abort,
}
use re_mpi.Common.Bytes.{Bytes, to_le, from_le}
use re_mpi.Gate.{
  minus_one, Gate, replaying, is_positive, increased, decreased, get_clock_replay, fread,
  filter_serial_region_inout, filter_reentry_in, filter_reentry_out,
}
use re_mpi.Gate.Ticket.{
  gate_in, gate_out, ticket_wait, leave, wait_outermost, leave_outermost, await_clock,
}
use re_mpi.Gate.Record.Effect.{entered, left}

abbrev pub passed : ℕ → Bytes → Gate → Gate
passed tid more g = record (entered tid g) { files = update g.files tid more; current_tid = tid }

abbrev pub released : (tid lock_id : ℕ) → Gate → Gate
released tid lock_id g = record (left tid g) {
  current_tid = minus_one;
  current_clocks = update g.current_clocks lock_id (increased (g.current_clocks lock_id));
}

from_le-to_le_four : (x : ℕ) → x < 2 ^ 32 → from_le (to_le 4 x) ≡ x
unfolding from_le to_le
from_le-to_le_four x h = omega arith

-- A ticket at the front of the thread's record file is read.
get_clock_replay-to_le :
    (tid c : ℕ) (more : Bytes) (g : Gate)
    → g.files tid ≡ to_le 4 c ++ more
    → c < 2 ^ 32
    → get_clock_replay tid g ≡ ok (c, record g { files = update g.files tid more })
unfolding get_clock_replay fread to_le
get_clock_replay-to_le tid c more g file small =
    let long : ltb (length (to_le 4 c ++ more)) 4 ≡ false = ground arith in
    ap
      (λ b.
        if ltb (length b) 4
        then abort
        else ok (from_le (take 4 b), record g { files = update g.files tid (drop 4 b) }))
      file
    ∙ rw long (
        ap (λ n. ok (n, record g { files = update g.files tid more })) (from_le-to_le_four c small))

module _ (num_threads : ℕ) (parallel : (num_threads == 1) ≡ false) (tid lock_id : ℕ)
    (g : Gate) where
  pub gate_in_nested :
      is_positive (g.nest_num tid) ≡ true
      → gate_in replaying num_threads tid lock_id g ≡ ok (entered tid g)
  unfolding gate_in ticket_wait wait_outermost filter_reentry_in
  gate_in_nested inside = rw (parallel, inside) refl

  -- The thread passes when the ticket is the lock's clock, and waits otherwise.
  pub gate_in_outermost :
      (c : ℕ) (more : Bytes)
      → is_positive (g.nest_num tid) ≡ false
      → g.files tid ≡ to_le 4 c ++ more
      → c < 2 ^ 32
      → gate_in replaying num_threads tid lock_id g
        ≡ (if c == g.current_clocks lock_id then ok (passed tid more g) else spin)
  unfolding gate_in ticket_wait wait_outermost filter_reentry_in await_clock
  gate_in_outermost c more outside file small = elim (Bool-cases (c == g.current_clocks lock_id)) [
    | inl now ↦
        rw (parallel, outside, get_clock_replay-to_le tid c more (entered tid g) file small, now)
          refl
    | inr later ↦
        rw (parallel, outside, get_clock_replay-to_le tid c more (entered tid g) file small, later)
          refl
  ]

  pub gate_out_nested :
      is_positive (decreased (g.nest_num tid)) ≡ true
      → gate_out replaying num_threads tid lock_id g ≡ left tid g
  unfolding gate_out leave leave_outermost filter_reentry_out filter_serial_region_inout
  gate_out_nested inside = rw (parallel, inside) refl

  pub gate_out_outermost :
      is_positive (decreased (g.nest_num tid)) ≡ false
      → gate_out replaying num_threads tid lock_id g ≡ released tid lock_id g
  unfolding gate_out leave leave_outermost filter_reentry_out filter_serial_region_inout
  gate_out_outermost outside = rw (parallel, outside) refl
