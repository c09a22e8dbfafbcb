-- ===== src/ClockDelta/Paths.antt =====
-- src/rempi/rempi_clock_delta_compression.cpp: the chains of nodes go right and down, and count their
-- distances.
use re_mpi.Common.{
  ℕ, suc, ◌+◌, ◌<◌, ◌≡◌, refl, Bool-cases, ◌&&◌, Option, none, some, List, [], ◌∷◌, ltb, All,
  length, arith, inl, inr,
}
use re_mpi.ClockDelta.{
  Node, Chain, find_shortest_node, Best, update_best, search_leaves, new_node, no_best,
}

-- A node under its parent, or under the root.
abbrev pub IsUnder : Node → Chain → Type 0
IsUnder n [] = (n.row_distance ≡ n.row) × (n.column_distance ≡ n.column)
IsUnder n (m ∷ parents) =
    (n.row_distance + m.row + 1 ≡ n.row) × (n.column_distance + m.column + 1 ≡ n.column)

-- A chain of `k` nodes that goes right and down. Its first node has the distance `row + column + 2 - k`.
abbrev pub IsPath : Chain → Type 0
IsPath [] = Unit
IsPath (n ∷ parents) =
    IsUnder n parents
    × (n.shortest_distance + length parents ≡ n.row + n.column + 1)
    × IsPath parents

-- A chain whose first node, if it has one, is above and to the left.
abbrev pub IsBefore : (row column : ℕ) → Chain → Type 0
IsBefore row column [] = Unit
IsBefore row column (n ∷ parents) = (n.row < row) × (n.column < column)

-- What a search has found: the root, or a path to connect to, with the distance.
pub record IsBest (row column : ℕ) (best : Best) : Type 0 where
  pub path : IsPath best.parent
  pub before : IsBefore row column best.parent
  pub distance : 0 < length best.parent → best.distance + length best.parent ≡ row + column

abbrev FoundOk : (row column : ℕ) → Option (ℕ × Chain) → Type 0
FoundOk row column none = Unit
FoundOk row column (some (d, c)) =
    IsPath c × IsBefore row column c × (0 < length c) × (d + length c ≡ row + column)

find_shortest_node-FoundOk :
    (row column : ℕ) (c : Chain) → IsPath c → FoundOk row column (find_shortest_node row column c)
unfolding find_shortest_node
find_shortest_node-FoundOk row column [] h = tt
find_shortest_node-FoundOk row column (n ∷ parents) h =
    elim (Bool-cases (ltb n.row row && ltb n.column column)) [
      | inl e ↦ rw e (h, (ground arith, ground arith), omega arith, ground arith)
      | inr e ↦ rw e (find_shortest_node-FoundOk row column parents h.2)
    ]

update_best-IsBest :
    (row column place : ℕ) (leaf : Chain) (f : Option (ℕ × Chain)) (best : Best)
    → FoundOk row column f
    → IsBest row column best
    → IsBest row column (update_best place leaf f best)
unfolding update_best
update_best-IsBest row column place leaf none best h k = k
update_best-IsBest row column place leaf (some (d, c)) best h k =
    elim (Bool-cases (ltb d best.distance)) [
      | inl e ↦ rw e (record { path = h.0; before = h.1; distance = λ z. h.3 })
      | inr e ↦ rw e k
    ]

search_leaves-IsBest :
    (row column place : ℕ) (leaves : List Chain) (best : Best)
    → All IsPath leaves
    → IsBest row column best
    → IsBest row column (search_leaves row column place leaves best)
unfolding search_leaves
search_leaves-IsBest row column place [] best h k = k
search_leaves-IsBest row column place (leaf ∷ leaves) best h k =
    search_leaves-IsBest row column (suc place) leaves
      (update_best place leaf (find_shortest_node row column leaf) best) h.1
      (update_best-IsBest row column place leaf (find_shortest_node row column leaf) best
        (find_shortest_node-FoundOk row column leaf h.0) k)

new_node-IsPath :
    (row column distance : ℕ) (c : Chain)
    → IsPath c
    → IsBefore row column c
    → (0 < length c → distance + length c ≡ row + column)
    → IsPath (new_node row column distance c ∷ c)
unfolding new_node
new_node-IsPath row column distance [] h b d = ((refl, refl), omega arith, tt)
new_node-IsPath row column distance (m ∷ parents) h b d =
    let e = d (omega arith) in ((omega arith, omega arith), omega arith, h)

-- The chain of a node that is added, and the leaves.
abbrev pub best_of : (row column : ℕ) → List Chain → Best
best_of row column leaves = search_leaves row column 0 leaves (no_best row column)

abbrev pub added : (row column : ℕ) → List Chain → Chain
added row column leaves =
    let best = best_of row column leaves in
    new_node row column best.distance best.parent ∷ best.parent

pub best_of-IsBest :
    (row column : ℕ) (leaves : List Chain)
    → All IsPath leaves
    → IsBest row column (best_of row column leaves)
unfolding no_best
best_of-IsBest row column leaves h =
    search_leaves-IsBest row column 0 leaves (no_best row column) h
      (record { path = tt; before = tt; distance = λ z. absurd (omega arith) })

pub added-IsPath :
    (row column : ℕ) (leaves : List Chain) → All IsPath leaves → IsPath (added row column leaves)
added-IsPath row column leaves h =
    let k = best_of-IsBest row column leaves h in
    let best = best_of row column leaves in
    new_node-IsPath row column best.distance best.parent k.path k.before k.distance
