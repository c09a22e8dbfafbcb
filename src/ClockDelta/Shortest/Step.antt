-- ===== src/ClockDelta/Shortest/Step.antt =====
-- src/rempi/rempi_clock_delta_compression.cpp: after `add_node`, a later node finds chains that are
-- as long as before.
use mathlib.Core.Path.{subst}
use re_mpi.Common.{
  ℕ, suc, ◌<◌, ◌≤◌, ◌≡◌, sym, ◌∙◌, ap, Bool-cases, List, [], ◌∷◌, ◌++◌, ◌==◌, ==_iff, if◌then◌else◌,
  All, arith, inl, inr,
}
use re_mpi.ClockDelta.{Node, Chain, Best, new_node, erase_leaf, sweep_non_candidate_leaf, add_node}
use re_mpi.ClockDelta.Paths.{IsPath, best_of}
use re_mpi.ClockDelta.Leaves.{add_node-Leaves, new_node_place, erase_leaf-All}
use re_mpi.ClockDelta.Shortest.{larger, longest_in, longest, best_of-longest}
use re_mpi.ClockDelta.Shortest.Kept.{
  best_of-Erases, longest-erase_leaf, longest-append, IsBelow, longest-IsBelow, longest-sweep,
  IsAbove, swept-le, new-longest_in, new-longest_in_all,
}

-- How a node `(row, column)` changes what a later node `(row', column')` can find.
pub record Improves (row column row' column' : ℕ) (leaves after : List Chain) : Type 0 where
  pub kept : longest row' column' leaves ≤ longest row' column' after
  pub longer : column < column' → suc (longest row column leaves) ≤ longest row' column' after

-- The same, of the leaves in their parts: `rest` is what is left after the parent is erased, `others`
-- what is left after sweeping, and the last leaf is the new node's.
module _ (row column start row' column' : ℕ) (leaves : List Chain) (paths : All IsPath leaves)
    (below : row < row') (above : All (IsAbove row) leaves) where
  abbrev best : Best
  best = best_of row column leaves

  abbrev node : Node
  node = new_node row column best.distance best.parent

  abbrev rest : List Chain
  rest = erase_leaf best.need_erase leaves

  rest-le :
      longest row' column' leaves
      ≤ larger (longest row' column' rest) (longest_in row' column' best.parent)
  rest-le =
      longest-erase_leaf row' column' best.need_erase leaves best.parent
        (best_of-Erases row column leaves)

  place : (node.row ≡ row) × (node.column ≡ column)
  place = new_node_place row column best.distance best.parent

  new-le : longest_in row' column' best.parent ≤ longest_in row' column' (node ∷ best.parent)
  new-le = new-longest_in row' column' node best.parent

  new-longer :
      column < column'
      → longest_in row' column' (node ∷ best.parent) ≡ suc (longest row column leaves)
  new-longer right =
      new-longest_in_all row' column' node best.parent (omega (arith, place.0))
        (omega (arith, place.1))
      ∙ ap suc (best_of-longest row column leaves paths)

  Improves-rest :
      (others : List Chain)
      → longest row' column' rest
        ≤ larger (longest row' column' others) (longest_in row' column' (node ∷ best.parent))
      → Improves row column row' column' leaves (others ++ ((node ∷ best.parent) ∷ []))
  Improves-rest others h =
      let e = longest-append row' column' others (node ∷ best.parent) in
      record {
        kept = ground (arith, e, h, rest-le, new-le);
        longer = λ right. ground (arith, e, new-longer right);
      }

  rest-swept :
      column < column'
      → longest row' column' rest
        ≤ larger
            (longest row' column' (sweep_non_candidate_leaf column rest))
            (longest_in row' column' (node ∷ best.parent))
  rest-swept right =
      let k = longest row column leaves in
      let swept = longest-sweep row' column' column k rest (
        swept-le row column row' column' k rest
          (erase_leaf-All (IsAbove row) best.need_erase leaves above)
          (erase_leaf-All (IsBelow row column k) best.need_erase leaves
            (longest-IsBelow row column leaves))) in
      ground (arith, swept, new-longer right)

  -- A later node finds chains at least as long as before, and the new node's where it is to the right
  -- of it.
  pub add_node-Improves :
      (column ≡ start → start < column')
      → Improves row column row' column' leaves (add_node row column start leaves)
  add_node-Improves right =
      let l = add_node-Leaves row column start leaves in
      subst (Improves row column row' column' leaves) (sym l.split)
        (elim (Bool-cases (column == start)) [
          | inl e ↦
              let same = (==_iff column start).0 e in
              subst
                (λ others.
                  Improves row column row' column' leaves (others ++ ((node ∷ best.parent) ∷ [])))
                (sym (
                  l.kept
                  ∙ ap (λ b. if b then sweep_non_candidate_leaf start rest else rest) e
                  ∙ ap (λ c. sweep_non_candidate_leaf c rest) (sym same)))
                (Improves-rest (sweep_non_candidate_leaf column rest)
                  (rest-swept (omega (arith, right same, same))))
          | inr e ↦
              subst
                (λ others.
                  Improves row column row' column' leaves (others ++ ((node ∷ best.parent) ∷ [])))
                (sym (l.kept ∙ ap (λ b. if b then sweep_non_candidate_leaf start rest else rest) e))
                (Improves-rest rest (ground arith))
        ])
