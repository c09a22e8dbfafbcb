-- ===== src/SpscQueue/Consume.antt =====
-- src/rempi/rempi_spsc_queue.h, `dequeue` and `front`: the node behind the tail.
use re_mpi.Common.{
  ℕ, ◌+◌, ◌%◌, ◌<◌, ◌≡◌, refl, sym, ap, ◌∙◌, Option, some, List, [], ◌∷◌, ◌++◌, map, arith, All,
  All-append_parts, append_assoc, drop, ◌⊎◌, inl, inr, length,
}
use mathlib.Core.Path.{subst}
use re_mpi.SpscQueue.Fifo.{size_mod}
use re_mpi.SpscQueue.Nodes.{Queue}
use re_mpi.SpscQueue.Segments.{Chain, Distinct, IsAddress, Segments, Chain-snoc}

abbrev pub advanced : {A : Type 0} → Queue A → Queue A
advanced q = record q { tail = q.next q.tail; dequeue_count = (q.dequeue_count + 1) % size_mod }

-- What the consumer meets: no node behind the tail, or one with the first value.
pub record Empty {A : Type 0} (q : Queue A) (items : List A) : Type 0 where
  pub none_left : items ≡ []
  pub end : q.next q.tail ≡ 0

pub record Front {A : Type 0} (q : Queue A) (items : List A) : Type 0 where
  pub value : A
  pub others : List A
  pub shape : items ≡ value ∷ others
  pub node : 0 < q.next q.tail
  pub stored : q.value (q.next q.tail) ≡ some value
  pub after : Segments (advanced q) others

split_contents :
    {A : Type 0} (x : Option A) (xs : List (Option A)) (items : List A)
    → x ∷ xs ≡ map some items
    → (v : A) × (vs : List A) × (items ≡ v ∷ vs) × (x ≡ some v) × (xs ≡ map some vs)
split_contents x xs [] h = absurd (omega (arith, ap length h))
split_contents x xs (v ∷ vs) h = (v, vs, refl, cc, cc)

-- The nodes of a path that ends in `b` start with its start.
Chain-cons :
    (next : ℕ → ℕ) (a : ℕ) (ns : List ℕ) (b : ℕ)
    → Chain next a ns b
    → ns ++ b ∷ [] ≡ a ∷ drop 1 (ns ++ b ∷ [])
Chain-cons next a [] b p = ap (λ x. x ∷ []) (sym p)
Chain-cons next a (n ∷ ns) b p = ap (λ x. x ∷ ns ++ b ∷ []) (sym p.0)

reassociated :
    (cache mid rest last : List ℕ)
    → (cache ++ (mid ++ rest)) ++ last ≡ (cache ++ mid) ++ (rest ++ last)
reassociated cache mid rest last =
    ap (λ ns. ns ++ last) (sym (append_assoc cache mid rest))
    ∙ append_assoc (cache ++ mid) rest last

module _ {A : Type 0} (q : Queue A) where
  consume_live :
      (items : List A) (s : Segments q items) (live : List ℕ)
      → s.live ≡ live
      → Chain q.next q.tail live q.head
      → Empty q items ⊎ Front q items
  consume_live [] s [] shape path = inl (record { none_left = refl; end = ap q.next path ∙ s.last })
  consume_live (v ∷ vs) s [] shape path = absurd (
      omega (
        arith,
        ap (λ ns. length (map q.value (drop 1 (ns ++ q.head ∷ [])))) shape,
        ap length s.contents,
      ))
  consume_live items s (t ∷ rest) shape path =
      let here : Chain q.next (q.next q.tail) rest q.head =
        subst (λ x. Chain q.next (q.next x) rest q.head) (sym path.0) path.1 in
      let starts = Chain-cons q.next (q.next q.tail) rest q.head here in
      let (v, vs, whole, front, others) =
        split_contents (q.value (q.next q.tail)) (map q.value (drop 1 (rest ++ q.head ∷ []))) items
          (ap (map q.value) (sym starts)
            ∙ ap (λ ns. map q.value (drop 1 (ns ++ q.head ∷ []))) (sym shape)
            ∙ s.contents) in
      let regroup : (s.cache ++ (s.mid ++ s.live)) ++ q.head ∷ []
          ≡ (s.cache ++ ((s.mid ++ q.tail ∷ []) ++ rest)) ++ q.head ∷ [] =
        ap (λ ns. (s.cache ++ ns) ++ q.head ∷ [])
          (ap (◌++◌ s.mid) (shape ∙ ap (λ x. x ∷ rest) (sym path.0))
            ∙ sym (append_assoc s.mid (q.tail ∷ []) rest)) in
      let known = subst (All (IsAddress q.unused)) regroup s.known in
      let behind =
        (All-append_parts (IsAddress q.unused) (s.cache ++ (s.mid ++ q.tail ∷ []))
          (rest ++ q.head ∷ [])
          (subst (All (IsAddress q.unused))
            (reassociated s.cache (s.mid ++ q.tail ∷ []) rest (q.head ∷ [])) known)).1 in
      inr (record {
        value = v;
        others = vs;
        shape = whole;
        node = (subst (All (IsAddress q.unused)) starts behind).0.0;
        stored = front;
        after = record {
          cache = s.cache;
          mid = s.mid ++ q.tail ∷ [];
          live = rest;
          path_cache = s.path_cache;
          path_mid = Chain-snoc q.next q.tail_copy s.mid q.tail (q.next q.tail) s.path_mid refl;
          path_live = here;
          last = s.last;
          distinct = subst Distinct regroup s.distinct;
          known = known;
          contents = others;
        };
      })

  pub consume : (items : List A) → Segments q items → Empty q items ⊎ Front q items
  consume items s = consume_live items s s.live refl s.path_live
