-- ===== src/Gate/Replay.antt =====
-- src/reomp/reomp_gate_clock.cpp when replaying: threads enter and leave gated sections in any order that
-- the tickets of a record allow.
pub mod Marks
pub mod Effect
pub mod Moves
pub mod Order
pub mod Progress
use re_mpi.Common.{
  update, ℕ, zero, suc, ◌≡◌, Bool, Option, none, some, List, [], ◌∷◌, ◌++◌, map, ◌==◌, ◌&&◌,
  if◌then◌else◌, ok,
}
use re_mpi.Common.Bytes.{Bytes}
use re_mpi.Gate.{Gate, replaying, init}
use re_mpi.Gate.Ticket.{gate_in, gate_out}
use re_mpi.Gate.Record.{Session, left_outermost, count}

-- A thread's outermost sections in a history, last one first: the lock, and how many of its sections had
-- been left before.
unfoldable pub marks : ℕ → List (ℕ × ℕ) → List (ℕ × ℕ)
unfolding count
marks tid [] = []
marks tid ((t, l) ∷ h) = if t == tid then (l, count l h) ∷ marks tid h else marks tid h

abbrev pub locks : ℕ → List (ℕ × ℕ) → List ℕ
locks tid h = map (λ m. m.0) (marks tid h)

-- The thread that left the section number `c` of a lock, from 0 on.
unfoldable pub holder : (lock_id c : ℕ) → List (ℕ × ℕ) → Option ℕ
unfolding count
holder lock_id c [] = none
holder lock_id c ((t, l) ∷ h) =
    if (l == lock_id) && (count l h == c) then some t else holder lock_id c h

-- The thread's next outermost section in the recorded history is one of the lock; one inside another
-- section can be of any.
abbrev pub IsNext : (recorded history : List (ℕ × ℕ)) → (tid lock_id : ℕ) → List ℕ → Type 0
IsNext recorded history tid lock_id [] =
    (later : List ℕ) × (locks tid recorded ≡ later ++ (lock_id ∷ locks tid history))
IsNext recorded history tid lock_id (_ ∷ _) = Unit

-- A thread enters the sections that it entered when it was recorded, and leaves with the lock that it
-- entered with.
pub data Step (num_threads : ℕ) (recorded : List (ℕ × ℕ)) (s : Session) : Session → Type 0 where
  enter :
      (tid lock_id : ℕ) {g : Gate}
      → IsNext recorded s.history tid lock_id (s.sections tid)
      → gate_in replaying num_threads tid lock_id s.gate ≡ ok g
      → Step num_threads recorded s
          (record s { gate = g; sections = update s.sections tid (lock_id ∷ s.sections tid) })
  exit :
      (tid lock_id : ℕ) (outer : List ℕ)
      → s.sections tid ≡ lock_id ∷ outer
      → Step num_threads recorded s (record {
        gate = gate_out replaying num_threads tid lock_id s.gate;
        sections = update s.sections tid outer;
        history = left_outermost outer (tid, lock_id) s.history;
      })

-- States after so many steps, from the record files that a recording has left.
pub data Reach (num_threads : ℕ) (recorded : List (ℕ × ℕ)) (previous : ℕ → ℕ → ℕ)
    (files : ℕ → Bytes) : ℕ → Session → Type 0 where
  start :
      Reach num_threads recorded previous files 0
        (record { gate = init previous files; sections = λ _. []; history = [] })
  next :
      {n : ℕ} {s t : Session}
      → Reach num_threads recorded previous files n s
      → Step num_threads recorded s t
      → Reach num_threads recorded previous files (suc n) t
