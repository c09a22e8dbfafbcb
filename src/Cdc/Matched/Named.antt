-- ===== src/Cdc/Matched/Named.antt =====
-- src/rempi/rempi_clock_delta_compression.cpp: the loop of `compress` where the clock orders are the
-- columns: its map has each of them.
use mathlib.Core.List.{Memᴰ}
use re_mpi.Common.{
  ℕ, suc, ◌+◌, ◌≤◌, ◌<◌, ◌≡◌, ◌⊎◌, inl, inr, refl, ◌∙◌, ap, some, List, [], ◌∷◌, length, ok, ◌>>=◌,
  arith,
}
use re_mpi.Common.Maps.{find, find-put}
use re_mpi.Common.Ranges.{count, count-Memᴰ, upto, get_elem?-upto, get_elem?-upto-some}
use re_mpi.ClockDelta.Compress.{unset, Search, match_at, compress_loop}
use re_mpi.ClockDelta.Compress.Orders.{IsIncreasing}
use re_mpi.ClockDelta.Compress.Orders.Turn.{IsSearch, compress_one-match_at, match_at-IsSearch}
use re_mpi.ClockDelta.Compress.Loop.{IsPlaced}

-- The observed messages of a chunk, by their clock orders: each number below `n` once.
pub record IsOrder (n : ℕ) (observed : List ℕ) : Type 0 where
  pub once : (c : ℕ) → count c observed ≡ count c (upto 0 n)
  pub size : length observed ≡ n

pub upto-IsIncreasing : (n : ℕ) → IsIncreasing (upto 0 n)
upto-IsIncreasing n i j a b lt h k =
    let x = get_elem?-upto-some 0 n i a h in
    let y = get_elem?-upto-some 0 n j b k in omega (arith, x.1, y.1)

-- Every message is in the column of its own clock order.
pub placed :
    (n : ℕ) (seen observed : List ℕ)
    → ((c : ℕ) → count c seen + count c observed ≤ 1)
    → ((c : ℕ) → 0 < count c observed → c < n)
    → IsPlaced (upto 0 n) seen observed observed
unfolding count
placed n seen [] once within = tt
placed n seen (l ∷ observed) once within = (
  get_elem?-upto 0 n l (within l (ground arith)) ∙ ap some {x = 0 + l} {y = l} (omega arith),
  λ m. let o = once l in ground (arith, count-Memᴰ l seen m),
  placed n (l ∷ seen) observed (λ c. let o = once c in ground arith)
      (λ c lt. within c (ground arith)),
)

-- The end of the loop, whose map has each column's clock order.
pub record Named (observed clocked : List ℕ) (row : ℕ) (s : Search) : Type 0 where
  pub final : Search
  pub returns : compress_loop unset clocked row observed s ≡ ok final
  pub names :
      (l : ℕ)
      → Memᴰ l observed ⊎ (find l s.map_clock_to_order ≡ some l)
      → find l final.map_clock_to_order ≡ some l

match_at-name :
    (row l k : ℕ) (s : Search)
    → (k ≡ l) ⊎ (find k s.map_clock_to_order ≡ some k)
    → find k (match_at row l l l s).map_clock_to_order ≡ some k
unfolding match_at
match_at-name row l k s h = elim h [
  | inl e ↦ ground (arith, find-put k l l s.map_clock_to_order)
  | inr e ↦ ground (arith, find-put k l l s.map_clock_to_order)
]

pub compress_loop-Named :
    (clocked : List ℕ) (row : ℕ) (seen observed : List ℕ) (s : Search)
    → IsIncreasing clocked
    → IsSearch clocked seen s
    → IsPlaced clocked seen observed observed
    → Named observed clocked row s
unfolding compress_loop
compress_loop-Named clocked row seen [] s inc k h = record {
  final = s;
  returns = refl;
  names = λ l e. elim e [ inl m ↦ elim m [ ] | inr there ↦ there ];
}
compress_loop-Named clocked row seen (l ∷ observed) s inc k h =
    let next = match_at row l l l s in
    let k' = match_at-IsSearch clocked seen s l l inc k h.0 h.1 row in
    let turn = compress_one-match_at clocked seen s l l inc k h.0 h.1 row in
    let rest = compress_loop-Named clocked (suc row) (l ∷ seen) observed next inc k' h.2 in
    record {
      final = rest.final;
      returns = ap (λ q. q >>= compress_loop unset clocked (suc row) observed) turn ∙ rest.returns;
      names = λ j e. elim e [
        | inl m ↦ elim m [
          | Memᴰ.head same ↦ rest.names j (inr (match_at-name row l j s (inl same)))
          | Memᴰ.tail later ↦ rest.names j (inl later)
        ]
        | inr there ↦ rest.names j (inr (match_at-name row l j s (inr there)))
      ];
    }
