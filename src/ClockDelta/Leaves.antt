-- ===== src/ClockDelta/Leaves.antt =====
-- src/rempi/rempi_clock_delta_compression.cpp: what a new node leaves of the
-- leaves.
use re_mpi.Common.{
  ℕ, zero, suc, ◌≡◌, refl, ◌∙◌, ap, true, false, Bool-cases, ◌&&◌, Option, none, some, List, [],
  ◌∷◌, ◌++◌, ◌==◌, ltb, if◌then◌else◌, All, All-append, arith, inl, inr,
}
use re_mpi.ClockDelta.{
  Node, Chain, find_shortest_node, Best, update_best, search_leaves, new_node, erase_at, erase_leaf,
  is_swept, sweep_non_candidate_leaf, no_best, connect, add_node, last_leaf,
}
use re_mpi.ClockDelta.Paths.{IsPath, best_of, added, added-IsPath}

module _ {ℓ} (P : Chain → Type ℓ) where
  erase_at-All : (i : ℕ) (ls : List Chain) → All P ls → All P (erase_at i ls)
  unfolding erase_at
  erase_at-All i [] h = tt
  erase_at-All zero (l ∷ ls) h = h.1
  erase_at-All (suc i) (l ∷ ls) h = (h.0, erase_at-All i ls h.1)

  pub erase_leaf-All : (o : Option ℕ) (ls : List Chain) → All P ls → All P (erase_leaf o ls)
  unfolding erase_leaf
  erase_leaf-All none ls h = h
  erase_leaf-All (some i) ls h = erase_at-All i ls h

  pub sweep-All :
      (start : ℕ) (ls : List Chain) → All P ls → All P (sweep_non_candidate_leaf start ls)
  unfolding sweep_non_candidate_leaf
  sweep-All start [] h = tt
  sweep-All start (l ∷ ls) h = elim (Bool-cases (is_swept start l)) [
    | inl e ↦ rw e (sweep-All start ls h.1)
    | inr e ↦ rw e (h.0, sweep-All start ls h.1)
  ]

  pub add_node-All :
      (row column start : ℕ) (leaves : List Chain)
      → All P leaves
      → P (added row column leaves)
      → All P (add_node row column start leaves)
  unfolding add_node connect
  add_node-All row column start leaves h k =
      let best = best_of row column leaves in
      let others = erase_leaf best.need_erase leaves in
      let connected =
        All-append P others (added row column leaves ∷ []) (erase_leaf-All best.need_erase leaves h)
          (k, tt) in
      elim (Bool-cases (column == start)) [
        | inl e ↦ rw e (sweep-All start (others ++ (added row column leaves ∷ [])) connected)
        | inr e ↦ rw e connected
      ]

pub add_node-IsPath :
    (row column start : ℕ) (leaves : List Chain)
    → All IsPath leaves
    → All IsPath (add_node row column start leaves)
add_node-IsPath row column start leaves h =
    add_node-All IsPath row column start leaves h (added-IsPath row column leaves h)

-- Every node of a chain found among the leaves is a node of a leaf.
module _ {ℓ} (Q : Node → Type ℓ) where
  abbrev FoundAll : Option (ℕ × Chain) → Type ℓ
  FoundAll none = Unit
  FoundAll (some (d, c)) = All Q c

  find_shortest_node-All :
      (row column : ℕ) (c : Chain) → All Q c → FoundAll (find_shortest_node row column c)
  unfolding find_shortest_node
  find_shortest_node-All row column [] h = tt
  find_shortest_node-All row column (n ∷ parents) h =
      elim (Bool-cases (ltb n.row row && ltb n.column column)) [
        | inl e ↦ rw e h
        | inr e ↦ rw e (find_shortest_node-All row column parents h.1)
      ]

  update_best-All :
      (place : ℕ) (leaf : Chain) (f : Option (ℕ × Chain)) (best : Best)
      → FoundAll f
      → All Q best.parent
      → All Q (update_best place leaf f best).parent
  unfolding update_best
  update_best-All place leaf none best h k = k
  update_best-All place leaf (some (d, c)) best h k = elim (Bool-cases (ltb d best.distance)) [
    | inl e ↦ rw e h
    | inr e ↦ rw e k
  ]

  search_leaves-All :
      (row column place : ℕ) (leaves : List Chain) (best : Best)
      → All (All Q) leaves
      → All Q best.parent
      → All Q (search_leaves row column place leaves best).parent
  unfolding search_leaves
  search_leaves-All row column place [] best h k = k
  search_leaves-All row column place (leaf ∷ leaves) best h k =
      search_leaves-All row column (suc place) leaves
        (update_best place leaf (find_shortest_node row column leaf) best) h.1
        (update_best-All place leaf (find_shortest_node row column leaf) best
          (find_shortest_node-All row column leaf h.0) k)

  pub best_of-All :
      (row column : ℕ) (leaves : List Chain)
      → All (All Q) leaves
      → All Q (best_of row column leaves).parent
  unfolding no_best
  best_of-All row column leaves h = search_leaves-All row column 0 leaves (no_best row column) h tt

last_leaf-append : (ls : List Chain) (l : Chain) → last_leaf (ls ++ (l ∷ [])) ≡ l
unfolding last_leaf
last_leaf-append [] l = refl
last_leaf-append (a ∷ []) l = refl
last_leaf-append (a ∷ b ∷ ls) l = last_leaf-append (b ∷ ls) l

sweep-append :
    (start : ℕ) (ls : List Chain) (l : Chain)
    → is_swept start l ≡ false
    → sweep_non_candidate_leaf start (ls ++ (l ∷ []))
      ≡ sweep_non_candidate_leaf start ls ++ (l ∷ [])
unfolding sweep_non_candidate_leaf
sweep-append start [] l h = rw h refl
sweep-append start (a ∷ ls) l h = elim (Bool-cases (is_swept start a)) [
  | inl e ↦ rw e (sweep-append start ls l h)
  | inr e ↦ rw e (ap (◌∷◌ a) (sweep-append start ls l h))
]

-- The new node's column is where it says.
pub new_node_place :
    (row column distance : ℕ) (c : Chain)
    → ((new_node row column distance c).row ≡ row)
      × ((new_node row column distance c).column ≡ column)
unfolding new_node
new_node_place row column distance [] = (refl, refl)
new_node_place row column distance (m ∷ c) = (refl, refl)

not-swept :
    (start column : ℕ) (n : Node) (c : Chain)
    → n.column ≡ column
    → (column == start) ≡ true
    → is_swept start (n ∷ c) ≡ false
unfolding is_swept
not-swept start column n c h e = ground arith

-- What a node leaves of the leaves: those before it, and itself last.
pub record Leaves (row column start : ℕ) (leaves after : List Chain) : Type 0 where
  pub others : List Chain
  pub split : after ≡ others ++ (added row column leaves ∷ [])
  pub kept : others ≡ (
      if column == start
      then sweep_non_candidate_leaf start (erase_leaf (best_of row column leaves).need_erase leaves)
      else erase_leaf (best_of row column leaves).need_erase leaves)

pub add_node-Leaves :
    (row column start : ℕ) (leaves : List Chain)
    → Leaves row column start leaves (add_node row column start leaves)
unfolding add_node connect
add_node-Leaves row column start leaves =
    let best = best_of row column leaves in
    let rest = erase_leaf best.need_erase leaves in
    elim (Bool-cases (column == start)) [
      | inl e ↦ record {
        others = sweep_non_candidate_leaf start rest;
        split = rw e (
            sweep-append start rest (added row column leaves) (
              not-swept start column (new_node row column best.distance best.parent) best.parent
                (new_node_place row column best.distance best.parent).1 e));
        kept = rw e refl;
      }
      | inr e ↦ record { others = rest; split = rw e refl; kept = rw e refl }
    ]

pub last_leaf-add_node :
    (row column start : ℕ) (leaves : List Chain)
    → last_leaf (add_node row column start leaves) ≡ added row column leaves
last_leaf-add_node row column start leaves =
    let l = add_node-Leaves row column start leaves in
    ap last_leaf l.split ∙ last_leaf-append l.others (added row column leaves)
