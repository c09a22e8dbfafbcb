-- ===== src/ClockDelta/Shortest.antt =====
-- src/rempi/rempi_clock_delta_compression.cpp: `add_node` connects a node to a longest chain there is.
pub mod Kept
pub mod Step
pub mod Optimal
pub mod Diff
use re_mpi.Common.{
  ℕ, zero, suc, ◌+◌, ◌-◌, ◌<◌, ◌≤◌, ◌≡◌, refl, sym, ◌∙◌, ap, Bool, true, false, Bool-cases, ◌&&◌,
  Option, none, some, List, [], ◌∷◌, ◌++◌, ◌==◌, ltb, if◌then◌else◌, All, length, get_elem?, arith,
  inl, inr,
}
use re_mpi.ClockDelta.{
  Node, Chain, find_shortest_node, Best, update_best, search_leaves, new_node, erase_at, erase_leaf,
  is_swept, sweep_non_candidate_leaf, no_best, add_node,
}
use re_mpi.ClockDelta.Paths.{IsPath, best_of, added}

abbrev pub larger : ℕ → ℕ → ℕ
larger a b = if ltb a b then b else a

-- The number of nodes of the chain that a search from one leaf finds, and of the longest one from any.
abbrev pub chain_length : Option (ℕ × Chain) → ℕ
chain_length none = 0
chain_length (some (d, c)) = length c

unfoldable pub longest_in : (row column : ℕ) → Chain → ℕ
longest_in row column leaf = chain_length (find_shortest_node row column leaf)

unfoldable pub longest : (row column : ℕ) → List Chain → ℕ
unfolding longest_in
longest row column [] = 0
longest row column (leaf ∷ leaves) = larger (longest_in row column leaf) (longest row column leaves)

pub longest_in-le-length : (row column : ℕ) (c : Chain) → longest_in row column c ≤ length c
unfolding longest_in find_shortest_node
longest_in-le-length row column [] = omega arith
longest_in-le-length row column (n ∷ c) = elim (Bool-cases (ltb n.row row && ltb n.column column)) [
  | inl e ↦ rw e (omega arith)
  | inr e ↦ rw e (omega (arith, longest_in-le-length row column c))
]

-- A best parent's distance fits its length; without a parent it is what every other is below.
record Exact (row column : ℕ) (best : Best) : Type 0 where
  filled : 0 < length best.parent → best.distance + length best.parent ≡ row + column
  empty : length best.parent ≡ 0 → best.distance ≡ row + column + 1

abbrev FoundExact : (row column : ℕ) → Option (ℕ × Chain) → Type 0
FoundExact row column none = Unit
FoundExact row column (some (d, c)) = (0 < length c) × (d + length c ≡ row + column)

find_shortest_node-FoundExact :
    (row column : ℕ) (c : Chain)
    → IsPath c
    → FoundExact row column (find_shortest_node row column c)
unfolding find_shortest_node
find_shortest_node-FoundExact row column [] h = tt
find_shortest_node-FoundExact row column (n ∷ c) h =
    elim (Bool-cases (ltb n.row row && ltb n.column column)) [
      | inl e ↦ rw e (omega arith, ground arith)
      | inr e ↦ rw e (find_shortest_node-FoundExact row column c h.2)
    ]

-- One leaf: the parent is as long as the longer of the two.
record Updated (row column : ℕ) (f : Option (ℕ × Chain)) (best after : Best) : Type 0 where
  exact : Exact row column after
  longer : length after.parent ≡ larger (length best.parent) (chain_length f)

update_best-Updated :
    (row column place : ℕ) (leaf : Chain) (f : Option (ℕ × Chain)) (best : Best)
    → FoundExact row column f
    → Exact row column best
    → Updated row column f best (update_best place leaf f best)
unfolding update_best
update_best-Updated row column place leaf none best h k = record {
  exact = k;
  longer = ground arith;
}
update_best-Updated row column place leaf (some (d, c)) best h k =
    elim (Bool-cases (ltb d best.distance)) [
      | inl e ↦ rw e (record {
        exact = record { filled = λ z. h.1; empty = λ z. absurd (omega arith) };
        longer = ground (arith, k.filled, k.empty);
      })
      | inr e ↦ rw e (record { exact = k; longer = ground (arith, k.filled, k.empty) })
    ]

search_leaves-longest :
    (row column place : ℕ) (leaves : List Chain) (best : Best)
    → All IsPath leaves
    → Exact row column best
    → length (search_leaves row column place leaves best).parent
      ≡ larger (length best.parent) (longest row column leaves)
unfolding search_leaves longest longest_in
search_leaves-longest row column place [] best h k = ground arith
search_leaves-longest row column place (leaf ∷ leaves) best h k =
    let f = find_shortest_node row column leaf in
    let u =
      update_best-Updated row column place leaf f best
        (find_shortest_node-FoundExact row column leaf h.0) k in
    let rest =
      search_leaves-longest row column (suc place) leaves (update_best place leaf f best) h.1
        u.exact in
    ground (arith, rest, u.longer)

-- The search finds a longest chain.
pub best_of-longest :
    (row column : ℕ) (leaves : List Chain)
    → All IsPath leaves
    → length (best_of row column leaves).parent ≡ longest row column leaves
unfolding no_best
best_of-longest row column leaves h =
    let e =
      search_leaves-longest row column 0 leaves (no_best row column) h
        (record { filled = λ z. absurd (omega arith); empty = λ z. refl }) in
    ground (arith, e)
