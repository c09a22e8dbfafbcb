-- ===== src/SpscQueue/Nodes.antt =====
-- src/rempi/rempi_spsc_queue.h: the linked nodes behind the queue. An address is a number, and 0 is
-- the null pointer; `new` returns an address that no node has had. The fences order the two threads'
-- single accesses and have no counterpart: a call is one step.
use re_mpi.Common.{update, ℕ, ◌+◌, ◌-◌, ◌%◌, Option, none, some, ◌==◌, if◌then◌else◌}
use re_mpi.SpscQueue.Fifo.{size_mod}

pub record Queue (A : Type 0) : Type 0 where
  pub next : ℕ → ℕ
  pub value : ℕ → Option A
  pub unused : ℕ
  pub tail : ℕ
  pub head : ℕ
  pub first : ℕ
  pub tail_copy : ℕ
  pub enqueue_count : ℕ
  pub dequeue_count : ℕ

module _ {A : Type 0} where
  -- The constructor: one node, at address 1.
  abbrev pub new_queue : Queue A
  new_queue = record {
    next = λ _. 0;
    value = λ _. none;
    unused = 2;
    tail = 1;
    head = 1;
    first = 1;
    tail_copy = 1;
    enqueue_count = 0;
    dequeue_count = 0;
  }

  -- The oldest node, which the consumer has left behind.
  unfoldable pub reuse : Queue A → ℕ × Queue A
  reuse q = (q.first, record q { first = q.next q.first })

  unfoldable pub new_node : Queue A → ℕ × Queue A
  new_node q = (q.unused, record q { unused = q.unused + 1 })

  unfoldable pub alloc_node : Queue A → ℕ × Queue A
  unfolding reuse new_node
  alloc_node q =
      if q.first == q.tail_copy
      then (if q.first == q.tail then new_node else reuse) (record q { tail_copy = q.tail })
      else reuse q

  -- The rest of `enqueue` with the node `n`.
  unfoldable pub link : A → ℕ × Queue A → Queue A
  link v (n, q) = record q {
    next = update (update q.next n 0) q.head n;
    value = update q.value n (some v);
    enqueue_count = (q.enqueue_count + 1) % size_mod;
    head = n;
  }

  unfoldable pub enqueue : Queue A → A → Queue A
  unfolding link alloc_node
  enqueue q v = link v (alloc_node q)

  unfoldable pub dequeue : Queue A → Option A × Queue A
  dequeue q =
      let n = q.next q.tail in
      if n == 0
      then (none, q)
      else (q.value n, record q { tail = n; dequeue_count = (q.dequeue_count + 1) % size_mod })

  unfoldable pub front : Queue A → Option A
  front q = let n = q.next q.tail in if n == 0 then none else q.value n

  unfoldable pub rough_size : Queue A → ℕ
  rough_size q = (q.enqueue_count + size_mod - q.dequeue_count) % size_mod
