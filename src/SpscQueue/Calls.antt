-- ===== src/SpscQueue/Calls.antt =====
-- src/rempi/rempi_spsc_queue.h: every sequence of calls, on the nodes and on the list of values.
use re_mpi.Common.{
  ℕ, ◌+◌, ◌%◌, ◌<◌, ◌≤◌, ◌≡◌, refl, sym, ap, ◌∙◌, Option, none, List, [], ◌∷◌, ◌==◌, arith, true,
  false, inl, inr, length, length-append,
}
use mathlib.Core.Path.{ap₂}
use re_mpi.SpscQueue.Fifo
use re_mpi.SpscQueue.Fifo.{Fifo, no_items, shifted, first, size_mod}
use re_mpi.SpscQueue.Nodes
use re_mpi.SpscQueue.Nodes.{Queue, new_queue}
use re_mpi.SpscQueue.Refinement.{Refines, enqueue-Refines}
use re_mpi.SpscQueue.Consume.{Empty, Front, consume}

pub data Call (A : Type 0) : Type 0 where
  enqueue_call : A → Call A
  dequeue_call front_call size_call : Call A

pub data Answer (A : Type 0) : Type 0 where
  done : Answer A
  value : Option A → Answer A
  size : ℕ → Answer A

module _ {A : Type 0} where
  -- The answers to a sequence of calls.
  unfoldable pub run_nodes : List (Call A) → Queue A → List (Answer A)
  run_nodes [] q = []
  run_nodes (enqueue_call v ∷ calls) q = done ∷ run_nodes calls (Nodes.enqueue q v)
  run_nodes (dequeue_call ∷ calls) q = let (v, q') = Nodes.dequeue q in value v ∷ run_nodes calls q'
  run_nodes (front_call ∷ calls) q = value (Nodes.front q) ∷ run_nodes calls q
  run_nodes (size_call ∷ calls) q = size (Nodes.rough_size q) ∷ run_nodes calls q

  unfoldable pub run_fifo : List (Call A) → Fifo A → List (Answer A)
  run_fifo [] f = []
  run_fifo (enqueue_call v ∷ calls) f = done ∷ run_fifo calls (Fifo.enqueue f v)
  run_fifo (dequeue_call ∷ calls) f = let (v, f') = Fifo.dequeue f in value v ∷ run_fifo calls f'
  run_fifo (front_call ∷ calls) f = value (Fifo.front f) ∷ run_fifo calls f
  run_fifo (size_call ∷ calls) f = size (Fifo.rough_size f) ∷ run_fifo calls f

  -- A dequeue gives the same value on both sides, and leaves both sides related.
  record Dequeues (q : Queue A) (f : Fifo A) : Type 0 where
    same : (Nodes.dequeue q).0 ≡ (Fifo.dequeue f).0
    front : Nodes.front q ≡ Fifo.front f
    after : Refines (Nodes.dequeue q).1 (Fifo.dequeue f).1
    fewer : length (Fifo.dequeue f).1.items ≤ length f.items

  dequeue_nil : (q : Queue A) (f : Fifo A) → Refines q f → Empty q f.items → Dequeues q f
  unfolding Nodes.dequeue Nodes.front
  dequeue_nil q f r e =
      let at_end : (q.next q.tail == 0) ≡ true = ground (arith, e.end) in
      let left : Fifo.dequeue f ≡ (none, f) = ap (shifted f) e.none_left in
      record {
        same = rw (at_end, left) refl;
        front = rw at_end (sym (ap first e.none_left));
        after = rw (at_end, left) r;
        fewer = rw left (omega arith);
      }

  dequeue_cons : (q : Queue A) (f : Fifo A) → Refines q f → Front q f.items → Dequeues q f
  unfolding Nodes.dequeue Nodes.front
  dequeue_cons q f r h =
      let more : (q.next q.tail == 0) ≡ false = ground (arith, h.node) in
      let left : Fifo.dequeue f ≡ shifted f (h.value ∷ h.others) = ap (shifted f) h.shape in
      record {
        same = rw (more, left) h.stored;
        front = rw more (h.stored ∙ sym (ap first h.shape));
        after =
            rw (more, left)
              (record {
                segments = h.after;
                enqueued = r.enqueued;
                dequeued = ap (λ c. (c + 1) % size_mod) r.dequeued;
                balance = omega (arith, r.balance, ap length h.shape);
                word = omega arith;
              });
        fewer = rw left (omega (arith, ap length h.shape));
      }

  Refines-Dequeues : (q : Queue A) (f : Fifo A) → Refines q f → Dequeues q f
  Refines-Dequeues q f r = elim (consume q f.items r.segments) [
    | inl e ↦ dequeue_nil q f r e
    | inr h ↦ dequeue_cons q f r h
  ]

  rough_size-length :
      (q : Queue A) (f : Fifo A)
      → Refines q f
      → length f.items < size_mod
      → Nodes.rough_size q ≡ Fifo.rough_size f
  unfolding Nodes.rough_size
  rough_size-length q f r short = omega (arith, r.balance, r.enqueued, r.dequeued, r.word)

  run_Refines :
      (calls : List (Call A)) (q : Queue A) (f : Fifo A)
      → Refines q f
      → length f.items + length calls < size_mod
      → run_nodes calls q ≡ run_fifo calls f
  unfolding run_nodes run_fifo
  run_Refines [] q f r short = refl
  run_Refines (enqueue_call v ∷ calls) q f r short = ap (◌∷◌ done) (
      run_Refines calls (Nodes.enqueue q v) (Fifo.enqueue f v) (enqueue-Refines q f v r)
        (omega (arith, length-append f.items (v ∷ []))))
  run_Refines (dequeue_call ∷ calls) q f r short =
      let d = Refines-Dequeues q f r in
      ap₂ ◌∷◌ (ap value d.same)
        (run_Refines calls (Nodes.dequeue q).1 (Fifo.dequeue f).1 d.after (omega (arith, d.fewer)))
  run_Refines (front_call ∷ calls) q f r short =
      ap₂ ◌∷◌ (ap value (Refines-Dequeues q f r).front) (run_Refines calls q f r (omega arith))
  run_Refines (size_call ∷ calls) q f r short =
      ap₂ ◌∷◌ (ap size (rough_size-length q f r (omega arith)))
        (run_Refines calls q f r (omega arith))

  new-Refines : Refines {A = A} new_queue no_items
  new-Refines = record {
    segments = record {
      cache = [];
      mid = [];
      live = [];
      path_cache = refl;
      path_mid = refl;
      path_live = refl;
      last = refl;
      distinct = (tt, tt);
      known = ((omega arith, omega arith), tt);
      contents = refl;
    };
    enqueued = refl;
    dequeued = refl;
    balance = refl;
    word = omega arith;
  }

  -- For every sequence of fewer than `2 ^ 64` calls of `enqueue`, `dequeue`, `front` and `rough_size`
  -- on a new queue: the linked nodes, with their recycling, answer what the list of values answers,
  -- where the rough size is the exact length.
  pub run_nodes-run_fifo :
      (calls : List (Call A))
      → length calls < size_mod
      → run_nodes calls new_queue ≡ run_fifo calls no_items
  run_nodes-run_fifo calls short = run_Refines calls new_queue no_items new-Refines (omega arith)
