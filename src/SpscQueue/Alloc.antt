-- ===== src/SpscQueue/Alloc.antt =====
-- src/rempi/rempi_spsc_queue.h, `alloc_node`: the node it finds is none of the queue's.
use re_mpi.Common.{
  ℕ, ◌+◌, ◌<◌, ◌≡◌, ◌≢◌, refl, sym, List, [], ◌∷◌, ◌++◌, ◌==◌, ==_iff, arith, All, All-append_parts,
  append_assoc, Bool-cases, inl, inr,
}
use mathlib.Core.Path.{subst}
use re_mpi.SpscQueue.Nodes.{Queue, reuse, new_node, alloc_node}
use re_mpi.SpscQueue.Segments.{Chain, Distinct, IsAddress, Segments, Allocated, Distinct-back}

known-lt : (unused : ℕ) (ns : List ℕ) → All (IsAddress unused) ns → All (λ m. m ≢ unused) ns
known-lt unused [] h = tt
known-lt unused (n ∷ ns) h = (λ e. absurd (omega (arith, h.0.1, e)), known-lt unused ns h.1)

known_more :
    (unused : ℕ) (ns : List ℕ) → All (IsAddress unused) ns → All (IsAddress (unused + 1)) ns
known_more unused [] h = tt
known_more unused (n ∷ ns) h = ((h.0.0, omega (arith, h.0.1)), known_more unused ns h.1)

module _ {A : Type 0} where
  pub reuse-Allocated :
      (q : Queue A) (items : List A) (s : Segments q items)
      → q.first ≢ q.tail_copy
      → Allocated q.enqueue_count q.dequeue_count (reuse q) items
  unfolding reuse
  reuse-Allocated q items s more = from s.cache s.path_cache s.distinct s.known
    where
      from :
          (cache : List ℕ)
          → Chain q.next q.first cache q.tail_copy
          → Distinct ((cache ++ (s.mid ++ s.live)) ++ q.head ∷ [])
          → All (IsAddress q.unused) ((cache ++ (s.mid ++ s.live)) ++ q.head ∷ [])
          → Allocated q.enqueue_count q.dequeue_count
              (q.first, record q { first = q.next q.first })
              items
      from [] path distinct known = absurd (more path)
      from (n ∷ cache) (here, path) distinct known =
          let nodes = (cache ++ (s.mid ++ s.live)) ++ q.head ∷ [] in
          record {
            segments = record {
              cache = cache;
              mid = s.mid;
              live = s.live;
              path_cache = subst (λ x. Chain q.next (q.next x) cache q.tail_copy) (sym here) path;
              path_mid = s.path_mid;
              path_live = s.path_live;
              last = s.last;
              distinct = distinct.1;
              known = known.1;
              contents = s.contents;
            };
            apart = subst (λ x. All (λ m. m ≢ x) nodes) (sym here) distinct.0;
            address = subst (IsAddress q.unused) (sym here) known.0;
            enqueued = refl;
            dequeued = refl;
          }

  pub new_node-Allocated :
      (q : Queue A) (items : List A) (s : Segments q items)
      → 0 < q.unused
      → Allocated q.enqueue_count q.dequeue_count (new_node q) items
  unfolding new_node
  new_node-Allocated q items s some_used =
      let nodes = (s.cache ++ (s.mid ++ s.live)) ++ q.head ∷ [] in
      record {
        segments = record {
          cache = s.cache;
          mid = s.mid;
          live = s.live;
          path_cache = s.path_cache;
          path_mid = s.path_mid;
          path_live = s.path_live;
          last = s.last;
          distinct = s.distinct;
          known = known_more q.unused nodes s.known;
          contents = s.contents;
        };
        apart = known-lt q.unused nodes s.known;
        address = (some_used, omega arith);
        enqueued = refl;
        dequeued = refl;
      }

  -- Where the cache is empty, `tail_copy_` catches up with the tail.
  caught_up :
      (q : Queue A) (items : List A) (s : Segments q items)
      → q.first ≡ q.tail_copy
      → Segments (record q { tail_copy = q.tail }) items
  caught_up q items s empty =
      let assoc = append_assoc s.cache (s.mid ++ s.live) (q.head ∷ []) in
      record {
        cache = s.mid;
        mid = [];
        live = s.live;
        path_cache = subst (λ x. Chain q.next x s.mid q.tail) (sym empty) s.path_mid;
        path_mid = refl;
        path_live = s.path_live;
        last = s.last;
        distinct =
            Distinct-back s.cache ((s.mid ++ s.live) ++ q.head ∷ [])
              (subst Distinct assoc s.distinct);
        known =
            (All-append_parts (IsAddress q.unused) s.cache ((s.mid ++ s.live) ++ q.head ∷ [])
              (subst (All (IsAddress q.unused)) assoc s.known)).1;
        contents = s.contents;
      }

  some_used : (q : Queue A) (items : List A) → Segments q items → 0 < q.unused
  some_used q items s =
      let (others, head) =
        All-append_parts (IsAddress q.unused) (s.cache ++ (s.mid ++ s.live)) (q.head ∷ [])
          s.known in
      omega (arith, head.0.0, head.0.1)

  pub alloc_node-Allocated :
      (q : Queue A) (items : List A) (s : Segments q items)
      → Allocated q.enqueue_count q.dequeue_count (alloc_node q) items
  unfolding alloc_node
  alloc_node-Allocated q items s = elim (Bool-cases (q.first == q.tail_copy)) [
    | inl empty ↦
        let q₁ : Queue A = record q { tail_copy = q.tail } in
        let s₁ = caught_up q items s ((==_iff q.first q.tail_copy).0 empty) in
        elim (Bool-cases (q.first == q.tail)) [
          | inl all_live ↦
              rw (empty, all_live) (new_node-Allocated q₁ items s₁ (some_used q₁ items s₁))
          | inr more ↦
              rw (empty, more)
                (reuse-Allocated q₁ items s₁ (λ e. cc (e, more, (==_iff q.first q.tail).1 e)))
        ]
    | inr more ↦
        rw more (reuse-Allocated q items s (λ e. cc (e, more, (==_iff q.first q.tail_copy).1 e)))
  ]
