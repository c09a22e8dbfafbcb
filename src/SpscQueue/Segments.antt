-- ===== src/SpscQueue/Segments.antt =====
-- src/rempi/rempi_spsc_queue.h: the nodes from `first_` to `head_`, and what each call does to them.
use re_mpi.Common.{
  update, ℕ, ◌<◌, ◌≡◌, ◌≢◌, refl, sym, some, List, [], ◌∷◌, ◌++◌, map, arith, All, All-append,
  All-append_parts, drop,
}
use mathlib.Core.Path.{subst, ap₂}
use re_mpi.SpscQueue.Nodes.{Queue}

-- From `a`, the nodes `ns` one after the other, and then `b`.
abbrev pub Chain : (ℕ → ℕ) → ℕ → List ℕ → ℕ → Type 0
Chain next a [] b = a ≡ b
Chain next a (n ∷ ns) b = (a ≡ n) × Chain next (next n) ns b

abbrev pub Distinct : List ℕ → Type 0
Distinct [] = Unit
Distinct (n ∷ ns) = All (λ m. m ≢ n) ns × Distinct ns

-- An address that a node has.
abbrev pub IsAddress : ℕ → ℕ → Type 0
IsAddress unused n = (0 < n) × (n < unused)

pub Chain-update :
    (next : ℕ → ℕ) (k v a : ℕ) (ns : List ℕ) (b : ℕ)
    → All (λ m. m ≢ k) ns
    → Chain next a ns b
    → Chain (update next k v) a ns b
Chain-update next k v a [] b h p = p
Chain-update next k v a (n ∷ ns) b h p =
    let same : update next k v n ≡ next n = ground (arith, h.0) in
    (
      p.0,
      subst (λ x. Chain (update next k v) x ns b) (sym same)
          (Chain-update next k v (next n) ns b h.1 p.1),
    )

pub Chain-snoc :
    (next : ℕ → ℕ) (a : ℕ) (ns : List ℕ) (b c : ℕ)
    → Chain next a ns b
    → next b ≡ c
    → Chain next a (ns ++ b ∷ []) c
Chain-snoc next a [] b c p h = (p, h)
Chain-snoc next a (n ∷ ns) b c p h = (p.0, Chain-snoc next (next n) ns b c p.1 h)

pub Distinct-snoc :
    (ns : List ℕ) (n : ℕ) → Distinct ns → All (λ m. m ≢ n) ns → Distinct (ns ++ n ∷ [])
Distinct-snoc [] n d h = (tt, tt)
Distinct-snoc (m ∷ ns) n d h =
    (All-append (λ x. x ≢ m) ns (n ∷ []) d.0 (λ e. h.0 (sym e), tt), Distinct-snoc ns n d.1 h.1)

pub Distinct-last : (ns : List ℕ) (n : ℕ) → Distinct (ns ++ n ∷ []) → All (λ m. m ≢ n) ns
Distinct-last [] n d = tt
Distinct-last (m ∷ ns) n d =
    let (others, last) = All-append_parts (λ x. x ≢ m) ns (n ∷ []) d.0 in
    (λ e. last.0 (sym e), Distinct-last ns n d.1)

pub Distinct-back : (ms ns : List ℕ) → Distinct (ms ++ ns) → Distinct ns
Distinct-back [] ns d = d
Distinct-back (m ∷ ms) ns d = Distinct-back ms ns d.1

pub map-update :
    {A : Type 0} (f : ℕ → A) (k : ℕ) (v : A) (ns : List ℕ)
    → All (λ m. m ≢ k) ns
    → map (update f k v) ns ≡ map f ns
map-update f k v [] h = refl
map-update f k v (n ∷ ns) h =
    let same : update f k v n ≡ f n = ground (arith, h.0) in ap₂ ◌∷◌ same (map-update f k v ns h.1)

-- The nodes of a queue that holds `items`: `cache` and `mid` are behind the consumer, `live` and the
-- head are not; the values stand in the nodes after the tail.
pub record Segments {A : Type 0} (q : Queue A) (items : List A) : Type 0 where
  pub cache : List ℕ
  pub mid : List ℕ
  pub live : List ℕ
  pub path_cache : Chain q.next q.first cache q.tail_copy
  pub path_mid : Chain q.next q.tail_copy mid q.tail
  pub path_live : Chain q.next q.tail live q.head
  pub last : q.next q.head ≡ 0
  pub distinct : Distinct ((cache ++ (mid ++ live)) ++ q.head ∷ [])
  pub known : All (IsAddress q.unused) ((cache ++ (mid ++ live)) ++ q.head ∷ [])
  pub contents : map q.value (drop 1 (live ++ q.head ∷ [])) ≡ map some items

-- A node that is not among those of the queue.
pub record Allocated {A : Type 0} (enqueued_before dequeued_before : ℕ) (r : ℕ × Queue A)
    (items : List A) : Type 0 where
  pub segments : Segments r.1 items
  pub apart :
      All (λ m. m ≢ r.0) ((segments.cache ++ (segments.mid ++ segments.live)) ++ r.1.head ∷ [])
  pub address : IsAddress r.1.unused r.0
  pub enqueued : r.1.enqueue_count ≡ enqueued_before
  pub dequeued : r.1.dequeue_count ≡ dequeued_before
