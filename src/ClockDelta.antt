-- ===== src/ClockDelta.antt =====
-- src/rempi/rempi_clock_delta_compression.cpp: `shortest_edit_distance_path_search`. Received messages
-- are nodes of a grid, with their place in the observed order as row and in the clock order as column;
-- a path of nodes that goes right and down keeps its messages in place.
pub mod Paths
pub mod Leaves
pub mod Restore
pub mod Shortest
pub mod Compress
pub mod Binary
use re_mpi.Common.{
  ℕ, zero, suc, ◌+◌, ◌-◌, Bool, true, false, ◌&&◌, Option, none, some, List, [], ◌∷◌, ◌++◌, ◌==◌,
  ltb, leb, if◌then◌else◌, length, drop,
}

-- `clock_node` without its pointer to the parent. Its members are ints, as are the distances below:
-- nothing overflows as long as rows and columns are below `2 ^ 30`.
pub record Node : Type 0 where
  pub row : ℕ
  pub column : ℕ
  pub row_distance : ℕ
  pub column_distance : ℕ
  pub shortest_distance : ℕ

-- A node, its parent, the parent's parent and so on: a node does not change once it is in the list of
-- leaves, so that the chain of its parents is a value. NULL is the empty chain.
abbrev pub Chain : Type 0
Chain = List Node

-- The distance to the first node, from a leaf up to the root, that a new node can connect to, and that
-- node with its parents.
unfoldable pub find_shortest_node : (row column : ℕ) → Chain → Option (ℕ × Chain)
find_shortest_node row column [] = none
find_shortest_node row column (n ∷ parents) =
    if ltb n.row row && ltb n.column column
    then some (n.shortest_distance + (row - (n.row + 1)) + (column - (n.column + 1)), n ∷ parents)
    else find_shortest_node row column parents

-- `current_shortest_parent`, `current_shortest_distance`, and the place of the leaf to erase.
pub record Best : Type 0 where
  pub parent : Chain
  pub distance : ℕ
  pub need_erase : Option ℕ

-- What the search from one leaf finds. The node found is the leaf itself when it has as many parents.
unfoldable pub update_best : (place : ℕ) (leaf : Chain) → Option (ℕ × Chain) → Best → Best
update_best place leaf none best = best
update_best place leaf (some (distance, node)) best =
    if ltb distance best.distance
    then record {
      parent = node;
      distance = distance;
      need_erase = if length leaf == length node then some place else none;
    }
    else best

-- The loop over the leaves, from the `place`-th on.
unfoldable pub search_leaves : (row column place : ℕ) → List Chain → Best → Best
unfolding find_shortest_node update_best
search_leaves row column place [] best = best
search_leaves row column place (leaf ∷ leaves) best =
    search_leaves row column (suc place) leaves
      (update_best place leaf (find_shortest_node row column leaf) best)

-- The new node: under the root, or under the node found.
unfoldable pub new_node : (row column distance : ℕ) → Chain → Node
new_node row column distance [] = record {
  row = row;
  column = column;
  row_distance = row;
  column_distance = column;
  shortest_distance = row + column + 1;
}
new_node row column distance (parent ∷ parents) = record {
  row = row;
  column = column;
  row_distance = row - (parent.row + 1);
  column_distance = column - (parent.column + 1);
  shortest_distance = distance + 1;
}

unfoldable pub erase_at : ℕ → List Chain → List Chain
erase_at i [] = []
erase_at zero (l ∷ ls) = ls
erase_at (suc i) (l ∷ ls) = l ∷ erase_at i ls

unfoldable pub erase_leaf : Option ℕ → List Chain → List Chain
unfolding erase_at
erase_leaf none leaves = leaves
erase_leaf (some i) leaves = erase_at i leaves

unfoldable pub is_swept : (start : ℕ) → Chain → Bool
is_swept start [] = false
is_swept start (n ∷ parents) = ltb n.column start

unfoldable pub sweep_non_candidate_leaf : (start : ℕ) → List Chain → List Chain
unfolding is_swept
sweep_non_candidate_leaf start [] = []
sweep_non_candidate_leaf start (leaf ∷ leaves) =
    if is_swept start leaf
    then sweep_non_candidate_leaf start leaves
    else leaf ∷ sweep_non_candidate_leaf start leaves

unfoldable pub no_best : (row column : ℕ) → Best
no_best row column = record { parent = []; distance = row + column + 1; need_erase = none }

-- The leaves with the new node behind them.
unfoldable pub connect : (row column : ℕ) → Best → List Chain → List Chain
unfolding new_node erase_leaf
connect row column best leaves =
    erase_leaf best.need_erase leaves
    ++ ((new_node row column best.distance best.parent ∷ best.parent) ∷ [])

unfoldable pub add_node : (row column start : ℕ) → List Chain → List Chain
unfolding search_leaves no_best connect sweep_non_candidate_leaf
add_node row column start leaves =
    let connected =
      connect row column (search_leaves row column 0 leaves (no_best row column)) leaves in
    if column == start then sweep_non_candidate_leaf start connected else connected

-- An entry of the diff: EDIT_IGNORE and EDIT_REMOVE with a column, EDIT_ADD with a row.
pub data Edit : Type 0 where
  edit_ignore : (column : ℕ) → Edit
  edit_remove : (column : ℕ) → Edit
  edit_add : (row : ℕ) → Edit

-- The `n` columns, or rows, before a node, the nearest first.
unfoldable pub removes : (n column : ℕ) → List Edit
removes zero column = []
removes (suc n) column = edit_remove (column - 1) ∷ removes n (column - 1)

unfoldable pub adds : (n row : ℕ) → List Edit
adds zero row = []
adds (suc n) row = edit_add (row - 1) ∷ adds n (row - 1)

unfoldable pub chain_diff : Chain → List Edit
unfolding removes adds
chain_diff [] = []
chain_diff (n ∷ parents) =
    edit_ignore n.column
    ∷ (removes n.column_distance n.column ++ (adds n.row_distance n.row ++ chain_diff parents))

-- `leaf_list.back()`, NULL where there is none (the list is never empty after `add_node`).
unfoldable pub last_leaf : List Chain → Chain
last_leaf [] = []
last_leaf (leaf ∷ []) = leaf
last_leaf (_ ∷ leaf ∷ leaves) = last_leaf (leaf ∷ leaves)

-- The entry of the bottom-right node is not needed.
unfoldable pub convert_to_diff_reversed : List Chain → List Edit
unfolding last_leaf chain_diff
convert_to_diff_reversed leaves = drop 1 (chain_diff (last_leaf leaves))

-- The bottom-right node itself is not counted.
unfoldable pub reported_distance : Chain → ℕ
reported_distance [] = 0
reported_distance (n ∷ parents) = n.shortest_distance - 1

unfoldable pub get_shortest_distance : List Chain → ℕ
unfolding last_leaf reported_distance
get_shortest_distance leaves = reported_distance (last_leaf leaves)
