-- ===== src/Gate/Record.antt =====
-- src/reomp/reomp_gate_clock.cpp when recording: threads enter and leave gated sections in any order.
pub mod Effect
pub mod Moves
pub mod Tickets
use re_mpi.Common.{
  update, ℕ, zero, suc, ◌+◌, ◌≡◌, Option, none, some, List, [], ◌∷◌, ◌++◌, ◌==◌, if◌then◌else◌, Run,
  ok,
}
use re_mpi.Common.Bytes.{Bytes, to_le}
use re_mpi.Gate.{Gate, recording, init}
use re_mpi.Gate.Ticket.{gate_in, gate_out}

-- The gate, each thread's open sections, innermost first, and the outermost sections that have been
-- left, as thread and lock, last one first.
pub record Session : Type 0 where
  pub gate : Gate
  pub sections : ℕ → List ℕ
  pub history : List (ℕ × ℕ)

abbrev pub left_outermost : List ℕ → ℕ × ℕ → List (ℕ × ℕ) → List (ℕ × ℕ)
left_outermost [] e h = e ∷ h
left_outermost (lock_id ∷ outer) e h = h

-- A thread leaves with the lock that it entered with.
pub data Step (num_threads : ℕ) (s : Session) : Session → Type 0 where
  enter :
      (tid lock_id : ℕ) {g : Gate}
      → gate_in recording num_threads tid lock_id s.gate ≡ ok g
      → Step num_threads s
          (record s { gate = g; sections = update s.sections tid (lock_id ∷ s.sections tid) })
  exit :
      (tid lock_id : ℕ) (outer : List ℕ)
      → s.sections tid ≡ lock_id ∷ outer
      → Step num_threads s (record {
        gate = gate_out recording num_threads tid lock_id s.gate;
        sections = update s.sections tid outer;
        history = left_outermost outer (tid, lock_id) s.history;
      })

-- States after so many steps, from empty record files.
pub data Reach (num_threads : ℕ) (previous : ℕ → ℕ → ℕ) : ℕ → Session → Type 0 where
  start :
      Reach num_threads previous 0
        (record { gate = init previous (λ _. []); sections = λ _. []; history = [] })
  next :
      {n : ℕ} {s t : Session}
      → Reach num_threads previous n s
      → Step num_threads s t
      → Reach num_threads previous (suc n) t

-- The lock of a thread's outermost section.
abbrev pub outermost : List ℕ → Option ℕ
outermost [] = none
outermost (lock_id ∷ []) = some lock_id
outermost (lock_id ∷ outer ∷ sections) = outermost (outer ∷ sections)

-- How often a lock's sections have been left.
unfoldable pub count : ℕ → List (ℕ × ℕ) → ℕ
count lock_id [] = 0
count lock_id ((tid, l) ∷ h) = if l == lock_id then suc (count lock_id h) else count lock_id h

-- A thread's tickets: for each of its sections, how many of that lock have been left before.
unfoldable pub tickets : ℕ → List (ℕ × ℕ) → Bytes
unfolding count
tickets tid [] = []
tickets tid ((t, l) ∷ h) = if t == tid then tickets tid h ++ to_le 4 (count l h) else tickets tid h
