-- ===== src/SpscQueue/Refinement.antt =====
-- src/rempi/rempi_spsc_queue.h: the linked nodes do what a list of values does.
use re_mpi.Common.{
  update, update_self, ℕ, ◌+◌, ◌%◌, ◌<◌, ◌≡◌, ◌≢◌, refl, sym, ap, ◌∙◌, some, List, [], ◌∷◌, ◌++◌,
  map, arith, All, All-append, All-append_parts, append_assoc, map-append, drop, length,
  length-append,
}
use mathlib.Core.Path.{subst, ap₂}
use re_mpi.SpscQueue.Fifo
use re_mpi.SpscQueue.Fifo.{Fifo, no_items, shifted, first, size_mod}
use re_mpi.SpscQueue.Nodes
use re_mpi.SpscQueue.Nodes.{Queue, new_queue, alloc_node, link}
use re_mpi.SpscQueue.Segments.{
  Chain, Distinct, IsAddress, Segments, Allocated, Chain-update, Chain-snoc, Distinct-snoc,
  Distinct-last, map-update,
}
use re_mpi.SpscQueue.Alloc.{alloc_node-Allocated}

pub record Refines {A : Type 0} (q : Queue A) (f : Fifo A) : Type 0 where
  pub segments : Segments q f.items
  pub enqueued : q.enqueue_count ≡ f.enqueue_count
  pub dequeued : q.dequeue_count ≡ f.dequeue_count
  pub balance : f.enqueue_count ≡ (f.dequeue_count + length f.items) % size_mod
  pub word : f.dequeue_count < size_mod

drop_one-append :
    (ns : List ℕ) (n m : ℕ) → drop 1 ((ns ++ n ∷ []) ++ m ∷ []) ≡ drop 1 (ns ++ n ∷ []) ++ m ∷ []
drop_one-append [] n m = refl
drop_one-append (x ∷ ns) n m = refl

All-drop_one : (P : ℕ → Type 0) (ns : List ℕ) → All P ns → All P (drop 1 ns)
All-drop_one P [] h = tt
All-drop_one P (n ∷ ns) h = h.1

module _ {A : Type 0} where
  -- Linking the node `n` behind the head leaves a path through other nodes.
  Chain-link :
      (q : Queue A) (n b : ℕ) (ns : List ℕ) (c : ℕ)
      → All (λ m. m ≢ n) ns
      → All (λ m. m ≢ q.head) ns
      → Chain q.next b ns c
      → Chain (update (update q.next n 0) q.head n) b ns c
  Chain-link q n b ns c h k p =
      Chain-update (update q.next n 0) q.head n b ns c k (Chain-update q.next n 0 b ns c h p)

  link-Segments :
      (v : A) (n : ℕ) (q : Queue A) (items : List A) (e d : ℕ)
      → Allocated e d (n, q) items
      → Segments (link v (n, q)) (items ++ v ∷ [])
  unfolding link
  link-Segments v n q items e d a =
      let s = a.segments in
      let before = s.cache ++ (s.mid ++ s.live) in
      let nodes = before ++ q.head ∷ [] in
      let (before_n, head_n) = All-append_parts (λ m. m ≢ n) before (q.head ∷ []) a.apart in
      let before_head = Distinct-last before q.head s.distinct in
      let (cache_n, rest_n) = All-append_parts (λ m. m ≢ n) s.cache (s.mid ++ s.live) before_n in
      let (cache_head, rest_head) =
        All-append_parts (λ m. m ≢ q.head) s.cache (s.mid ++ s.live) before_head in
      let (mid_n, live_n) = All-append_parts (λ m. m ≢ n) s.mid s.live rest_n in
      let (mid_head, live_head) = All-append_parts (λ m. m ≢ q.head) s.mid s.live rest_head in
      let next₁ = update q.next n 0 in
      let regroup : s.cache ++ (s.mid ++ (s.live ++ q.head ∷ [])) ≡ nodes =
        ap (◌++◌ s.cache) (sym (append_assoc s.mid s.live (q.head ∷ [])))
        ∙ sym (append_assoc s.cache (s.mid ++ s.live) (q.head ∷ [])) in
      record {
        cache = s.cache;
        mid = s.mid;
        live = s.live ++ q.head ∷ [];
        path_cache = Chain-link q n q.first s.cache q.tail_copy cache_n cache_head s.path_cache;
        path_mid = Chain-link q n q.tail_copy s.mid q.tail mid_n mid_head s.path_mid;
        path_live =
            Chain-snoc (update next₁ q.head n) q.tail s.live q.head n
              (Chain-link q n q.tail s.live q.head live_n live_head s.path_live) (ground arith);
        last = ground (arith, head_n.0);
        distinct =
            subst (λ ns. Distinct (ns ++ n ∷ [])) (sym regroup)
              (Distinct-snoc nodes n s.distinct a.apart);
        known =
            subst (λ ns. All (IsAddress q.unused) (ns ++ n ∷ [])) (sym regroup)
              (All-append (IsAddress q.unused) nodes (n ∷ []) s.known (a.address, tt));
        contents =
            ap (map (update q.value n (some v))) (drop_one-append s.live q.head n)
            ∙ map-append (update q.value n (some v)) (drop 1 (s.live ++ q.head ∷ [])) (n ∷ [])
            ∙ ap₂ ◌++◌
                (map-update q.value n (some v) (drop 1 (s.live ++ q.head ∷ [])) (
                    All-drop_one (λ m. m ≢ n) (s.live ++ q.head ∷ [])
                      (All-append (λ m. m ≢ n) s.live (q.head ∷ []) live_n head_n))
                  ∙ s.contents)
                (ap (λ x. x ∷ []) (update_self q.value n (some v)))
            ∙ sym (map-append some items (v ∷ []));
      }

  pub enqueue-Refines :
      (q : Queue A) (f : Fifo A) (v : A)
      → Refines q f
      → Refines (Nodes.enqueue q v) (Fifo.enqueue f v)
  unfolding Nodes.enqueue link
  enqueue-Refines q f v r =
      let a = alloc_node-Allocated q f.items r.segments in
      let (n, q₁) = alloc_node q in
      record {
        segments = link-Segments v n q₁ f.items q.enqueue_count q.dequeue_count a;
        enqueued = ap (λ c. (c + 1) % size_mod) (a.enqueued ∙ r.enqueued);
        dequeued = a.dequeued ∙ r.dequeued;
        balance = omega (arith, r.balance, length-append f.items (v ∷ []));
        word = r.word;
      }
