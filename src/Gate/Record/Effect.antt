-- ===== src/Gate/Record/Effect.antt =====
-- src/reomp/reomp_gate_clock.cpp when recording: what one call of the gate changes.
use re_mpi.Common.{
  update, ℕ, ◌≡◌, refl, sym, ◌∙◌, Bool, true, false, ◌++◌, ◌==◌, arith, ok, ◌>>=◌, ok-injective,
}
use re_mpi.Common.Bytes.{to_le}
use re_mpi.Gate.{
  minus_one, Gate, recording, is_positive, increased, decreased, record_ticket_number, fwrite,
  filter_serial_region_inout, filter_reentry_in, filter_reentry_out,
}
use re_mpi.Gate.Ticket.{
  gate_in, gate_out, ticket_wait, leave, wait_outermost, leave_outermost, set_lock,
}

abbrev pub entered : ℕ → Gate → Gate
entered tid g = record g { nest_num = update g.nest_num tid (increased (g.nest_num tid)) }

abbrev pub locked : (tid lock_id : ℕ) → Gate → Gate
locked tid lock_id g = record (entered tid g) {
  omp_locks = update g.omp_locks lock_id true;
  current_tid = tid;
}

abbrev pub left : ℕ → Gate → Gate
left tid g = record g { nest_num = update g.nest_num tid (decreased (g.nest_num tid)) }

abbrev pub recorded : (tid lock_id : ℕ) → Gate → Gate
recorded tid lock_id g = record (left tid g) {
  current_tid = minus_one;
  current_clocks = update g.current_clocks lock_id (increased (g.current_clocks lock_id));
  omp_locks = update g.omp_locks lock_id false;
  files = update g.files tid (g.files tid ++ to_le 4 (g.current_clocks lock_id));
}

module _ (num_threads : ℕ) (parallel : (num_threads == 1) ≡ false) (tid lock_id : ℕ)
    (g : Gate) where
  pub gate_in_nested :
      is_positive (g.nest_num tid) ≡ true
      → gate_in recording num_threads tid lock_id g ≡ ok (entered tid g)
  unfolding gate_in ticket_wait wait_outermost filter_reentry_in
  gate_in_nested inside = rw (parallel, inside) refl

  pub gate_in_outermost :
      {g' : Gate}
      → is_positive (g.nest_num tid) ≡ false
      → gate_in recording num_threads tid lock_id g ≡ ok g'
      → (g.omp_locks lock_id ≡ false) × (locked tid lock_id g ≡ g')
  unfolding gate_in ticket_wait wait_outermost filter_reentry_in set_lock
  gate_in_outermost {g'} outside e =
      let whole : (set_lock lock_id (entered tid g) >>= λ g'. ok (record g' { current_tid = tid }))
          ≡ ok g' =
        sym (rw (parallel, outside) refl) ∙ e in
      taken (g.omp_locks lock_id) refl whole
    where
      taken :
          (b : Bool)
          → g.omp_locks lock_id ≡ b
          → (set_lock lock_id (entered tid g) >>= λ g'. ok (record g' { current_tid = tid }))
            ≡ ok g'
          → (g.omp_locks lock_id ≡ false) × (locked tid lock_id g ≡ g')
      taken true is e = ground (arith, is, e)
      taken false is e = (is, ok-injective (sym (rw is refl) ∙ e))

  pub gate_out_nested :
      is_positive (decreased (g.nest_num tid)) ≡ true
      → gate_out recording num_threads tid lock_id g ≡ left tid g
  unfolding gate_out leave leave_outermost filter_reentry_out filter_serial_region_inout
  gate_out_nested inside = rw (parallel, inside) refl

  pub gate_out_outermost :
      is_positive (decreased (g.nest_num tid)) ≡ false
      → gate_out recording num_threads tid lock_id g ≡ recorded tid lock_id g
  unfolding gate_out leave leave_outermost filter_reentry_out filter_serial_region_inout
      record_ticket_number fwrite
  gate_out_outermost outside = rw (parallel, outside) refl
