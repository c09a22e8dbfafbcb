-- ===== src/Gate/Record/Tickets.antt =====
-- src/reomp/reomp_gate_clock.cpp when recording: one thread at a time, and the tickets it writes.
use re_mpi.Common.{
  update, ℕ, suc, ◌^◌, ◌<◌, ◌≡◌, refl, sym, ap, ◌∙◌, true, false, List, [], ◌∷◌, ◌==◌, inl, inr,
  arith, length, ok-injective, ◌⊎◌,
}
use mathlib.Core.Path.{subst}
use mathlib.Core.Option.{none-ne-some}
use re_mpi.Gate.{is_positive, decreased}
use re_mpi.Gate.Record.{Session, Step, enter, exit, Reach, start, next, count, tickets}
use re_mpi.Gate.Record.Effect.{
  gate_in_nested, gate_in_outermost, gate_out_nested, gate_out_outermost,
}
use re_mpi.Gate.Record.Moves.{IsRecorded, enter_inner, enter_first, exit_inner, exit_last}

module _ (num_threads : ℕ) (parallel : (num_threads == 1) ≡ false) where
  pub sections_cases : (ls : List ℕ) → (ls ≡ []) ⊎ (0 < length ls)
  sections_cases [] = inl refl
  sections_cases (l ∷ ls) = inr (omega arith)

  Step-IsRecorded :
      {s t : Session} (n : ℕ)
      → suc n < 2 ^ 31
      → Step num_threads s t
      → IsRecorded n s
      → IsRecorded (suc n) t
  Step-IsRecorded {s} n small (enter tid lock_id {g} done) v =
      elim (sections_cases (s.sections tid)) [
        | inl none_open ↦
            let outside : is_positive (s.gate.nest_num tid) ≡ false =
              ground (arith, v.nest tid, ap length none_open) in
            let (free, after) =
              gate_in_outermost num_threads parallel tid lock_id s.gate outside done in
            subst
              (λ g. IsRecorded (suc n) (record s {
                gate = g;
                sections = update s.sections tid (lock_id ∷ s.sections tid);
              }))
              after (enter_first n small s v tid lock_id none_open free)
        | inr inside ↦
            let positive : is_positive (s.gate.nest_num tid) ≡ true =
              ground (arith, v.nest tid, v.depth tid) in
            subst
              (λ g. IsRecorded (suc n) (record s {
                gate = g;
                sections = update s.sections tid (lock_id ∷ s.sections tid);
              }))
              (ok-injective
                (sym (gate_in_nested num_threads parallel tid lock_id s.gate positive) ∙ done))
              (enter_inner n small s v tid lock_id inside)
      ]
  Step-IsRecorded {s} n small (exit tid lock_id [] open_sections) v =
      let outside : is_positive (decreased (s.gate.nest_num tid)) ≡ false =
        ground (arith, v.nest tid, ap length open_sections) in
      subst
        (λ g. IsRecorded (suc n) (record {
          gate = g;
          sections = update s.sections tid [];
          history = (tid, lock_id) ∷ s.history;
        }))
        (sym (gate_out_outermost num_threads parallel tid lock_id s.gate outside))
        (exit_last n small s v tid lock_id open_sections)
  Step-IsRecorded {s} n small (exit tid lock_id (l ∷ outer) open_sections) v =
      let inside : is_positive (decreased (s.gate.nest_num tid)) ≡ true =
        ground (arith, v.nest tid, v.depth tid, ap length open_sections) in
      subst
        (λ g.
          IsRecorded (suc n) (record s { gate = g; sections = update s.sections tid (l ∷ outer) }))
        (sym (gate_out_nested num_threads parallel tid lock_id s.gate inside))
        (exit_inner n small s v tid lock_id (l ∷ outer) open_sections (omega arith))

  -- Two threads or more, in fewer than `2 ^ 31` calls of the gate while recording: a lock that a thread
  -- is inside is held, and no other thread is inside it; the clock of a lock is the number of its
  -- outermost sections left so far; and each thread's record file lists, for its own outermost
  -- sections in order, how many sections of the same lock had been left before.
  pub Reach-IsRecorded :
      {previous : ℕ → ℕ → ℕ} {n : ℕ} {s : Session}
      → Reach num_threads previous n s
      → n < 2 ^ 31
      → IsRecorded n s
  unfolding count tickets
  Reach-IsRecorded start short = record {
    nest = λ tid. refl;
    depth = λ tid. omega arith;
    short = omega arith;
    clocks = λ lock_id. refl;
    files = λ tid. refl;
    held = λ tid lock_id i. absurd (none-ne-some lock_id i);
    alone = λ tid other lock_id i j. absurd (none-ne-some lock_id i);
  }
  Reach-IsRecorded (next {n} {s} {t} r st) short =
      Step-IsRecorded n (omega arith) st (Reach-IsRecorded r (omega arith))
