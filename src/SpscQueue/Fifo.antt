-- ===== src/SpscQueue/Fifo.antt =====
-- What the clients of `rempi_spsc_queue` see of it: the values in order, and the two counters.
use re_mpi.Common.{ℕ, ◌+◌, ◌%◌, ◌^◌, Option, none, some, List, [], ◌∷◌, ◌++◌, length}

pub record Fifo (A : Type 0) : Type 0 where
  pub items : List A
  pub enqueue_count : ℕ
  pub dequeue_count : ℕ

abbrev pub size_mod : ℕ
size_mod = 2 ^ 64

module _ {A : Type 0} where
  abbrev pub no_items : Fifo A
  no_items = record { items = []; enqueue_count = 0; dequeue_count = 0 }

  abbrev pub enqueue : Fifo A → A → Fifo A
  enqueue q v = record q {
    items = q.items ++ v ∷ [];
    enqueue_count = (q.enqueue_count + 1) % size_mod;
  }

  abbrev pub shifted : Fifo A → List A → Option A × Fifo A
  shifted q [] = (none, q)
  shifted q (v ∷ vs) =
      (some v, record q { items = vs; dequeue_count = (q.dequeue_count + 1) % size_mod })

  abbrev pub dequeue : Fifo A → Option A × Fifo A
  dequeue q = shifted q q.items

  abbrev pub first : List A → Option A
  first [] = none
  first (v ∷ vs) = some v

  abbrev pub front : Fifo A → Option A
  front q = first q.items

  abbrev pub rough_size : Fifo A → ℕ
  rough_size q = length q.items
