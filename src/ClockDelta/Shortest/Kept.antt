-- ===== src/ClockDelta/Shortest/Kept.antt =====
-- src/rempi/rempi_clock_delta_compression.cpp: the leaves that `add_node` erases and sweeps are no loss
-- to the nodes to come.
use mathlib.Core.Option.{some-injective, none-ne-some}
use re_mpi.Common.{
  ℕ, zero, suc, ◌+◌, ◌<◌, ◌≤◌, ◌≡◌, refl, sym, ◌∙◌, ap, true, Bool-cases, ◌&&◌, Option, none, some,
  List, [], ◌∷◌, ◌++◌, ◌==◌, ltb, All, length, get_elem?, arith, inl, inr,
}
use re_mpi.ClockDelta.{
  Node, Chain, find_shortest_node, Best, update_best, search_leaves, erase_at, erase_leaf, is_swept,
  sweep_non_candidate_leaf, no_best,
}
use re_mpi.ClockDelta.Paths.{best_of}
use re_mpi.ClockDelta.Shortest.{larger, chain_length, longest_in, longest, longest_in-le-length}

-- A chain found with as many nodes as the leaf is the leaf.
abbrev FoundWhole : Chain → Option (ℕ × Chain) → Type 0
FoundWhole leaf none = Unit
FoundWhole leaf (some (d, c)) = (length leaf == length c) ≡ true → leaf ≡ c

absurd_length : {a b k : ℕ} → (suc a == b) ≡ true → k ≤ a → k ≡ b → ⊥
absurd_length h le e = ground arith

found-shorter :
    (row column : ℕ) (n : Node) (c : Chain) (f : Option (ℕ × Chain))
    → longest_in row column c ≡ chain_length f
    → FoundWhole (n ∷ c) f
found-shorter row column n c none h = tt
found-shorter row column n c (some (d, e)) h =
    λ same. absurd (absurd_length same (longest_in-le-length row column c) h)

find_shortest_node-FoundWhole :
    (row column : ℕ) (c : Chain) → FoundWhole c (find_shortest_node row column c)
unfolding find_shortest_node longest_in
find_shortest_node-FoundWhole row column [] = tt
find_shortest_node-FoundWhole row column (n ∷ c) =
    elim (Bool-cases (ltb n.row row && ltb n.column column)) [
      | inl e ↦ rw e (λ h. refl)
      | inr e ↦ rw e (found-shorter row column n c (find_shortest_node row column c) refl)
    ]

-- The leaf to erase is the parent.
abbrev pub Erases : List Chain → Best → Type 0
Erases leaves best = (i : ℕ) → best.need_erase ≡ some i → get_elem? leaves i ≡ some best.parent

update_best-Erases :
    (leaves : List Chain) (place : ℕ) (leaf : Chain) (f : Option (ℕ × Chain)) (best : Best)
    → get_elem? leaves place ≡ some leaf
    → FoundWhole leaf f
    → Erases leaves best
    → Erases leaves (update_best place leaf f best)
unfolding update_best
update_best-Erases leaves place leaf none best here h k = k
update_best-Erases leaves place leaf (some (d, c)) best here h k =
    elim (Bool-cases (ltb d best.distance)) [
      | inl e ↦ rw e (elim (Bool-cases (length leaf == length c)) [
        | inl whole ↦ rw whole (λ i z.
            ap (get_elem? leaves) (sym (some-injective place i z)) ∙ here ∙ ap some (h whole))
        | inr part ↦ rw part (λ i z. absurd (none-ne-some i z))
      ])
      | inr e ↦ rw e k
    ]

search_leaves-Erases :
    (all : List Chain) (row column place : ℕ) (leaves : List Chain) (best : Best)
    → ((i : ℕ) → get_elem? leaves i ≡ get_elem? all (place + i))
    → Erases all best
    → Erases all (search_leaves row column place leaves best)
unfolding search_leaves
search_leaves-Erases all row column place [] best at k = k
search_leaves-Erases all row column place (leaf ∷ leaves) best at k =
    search_leaves-Erases all row column (suc place) leaves
      (update_best place leaf (find_shortest_node row column leaf) best)
      (λ i. at (suc i) ∙ ap (get_elem? all) (omega arith))
      (update_best-Erases all place leaf (find_shortest_node row column leaf) best
        (ap (get_elem? all) {x = place} {y = place + 0} (omega arith) ∙ sym (at 0))
        (find_shortest_node-FoundWhole row column leaf) k)

pub best_of-Erases :
    (row column : ℕ) (leaves : List Chain) → Erases leaves (best_of row column leaves)
unfolding no_best
best_of-Erases row column leaves =
    search_leaves-Erases leaves row column 0 leaves (no_best row column)
      (λ i. ap (get_elem? leaves) {x = i} {y = 0 + i} (omega arith))
      (λ i z. absurd (none-ne-some i z))

module _ (row column : ℕ) where
  longest-erase_at :
      (i : ℕ) (ls : List Chain) (p : Chain)
      → get_elem? ls i ≡ some p
      → longest row column ls
        ≤ larger (longest row column (erase_at i ls)) (longest_in row column p)
  unfolding longest erase_at
  longest-erase_at i [] p h = omega arith
  longest-erase_at zero (l ∷ ls) p h =
      let same = ap (longest_in row column) (some-injective l p h) in ground (arith, same)
  longest-erase_at (suc i) (l ∷ ls) p h = ground (arith, longest-erase_at i ls p h)

  pub longest-erase_leaf :
      (o : Option ℕ) (ls : List Chain) (p : Chain)
      → ((i : ℕ) → o ≡ some i → get_elem? ls i ≡ some p)
      → longest row column ls
        ≤ larger (longest row column (erase_leaf o ls)) (longest_in row column p)
  unfolding erase_leaf
  longest-erase_leaf none ls p h = ground arith
  longest-erase_leaf (some i) ls p h = longest-erase_at i ls p (h i refl)

  pub longest-append :
      (ls : List Chain) (l : Chain)
      → longest row column (ls ++ (l ∷ []))
        ≡ larger (longest row column ls) (longest_in row column l)
  unfolding longest
  longest-append [] l = ground arith
  longest-append (a ∷ ls) l = ground (arith, longest-append ls l)

  abbrev pub IsBelow : ℕ → Chain → Type 0
  IsBelow k l = longest_in row column l ≤ k

  IsBelow-trans : (j k : ℕ) (ls : List Chain) → j ≤ k → All (IsBelow j) ls → All (IsBelow k) ls
  IsBelow-trans j k [] le h = tt
  IsBelow-trans j k (l ∷ ls) le h = (omega (arith, h.0), IsBelow-trans j k ls le h.1)

  pub longest-IsBelow : (ls : List Chain) → All (IsBelow (longest row column ls)) ls
  unfolding longest
  longest-IsBelow [] = tt
  longest-IsBelow (l ∷ ls) = (
    ground arith,
    IsBelow-trans (longest row column ls) (larger (longest_in row column l) (longest row column ls))
        ls (ground arith) (longest-IsBelow ls),
  )

  -- Swept leaves reach no further than `k`.
  pub longest-sweep :
      (start k : ℕ) (ls : List Chain)
      → All (λ l. is_swept start l ≡ true → longest_in row column l ≤ k) ls
      → longest row column ls ≤ larger (longest row column (sweep_non_candidate_leaf start ls)) k
  unfolding longest sweep_non_candidate_leaf
  longest-sweep start k [] h = omega arith
  longest-sweep start k (l ∷ ls) h = elim (Bool-cases (is_swept start l)) [
    | inl e ↦ rw e (ground (arith, longest-sweep start k ls h.1, h.0 e))
    | inr e ↦ rw e (ground (arith, longest-sweep start k ls h.1))
  ]

-- Leaves whose nodes are above a row.
abbrev pub IsAbove : ℕ → Chain → Type 0
IsAbove row [] = Unit
IsAbove row (n ∷ c) = n.row < row

-- A swept leaf could have been the new node's parent.
swept-longest_in :
    (row column : ℕ) (l : Chain)
    → IsAbove row l
    → is_swept column l ≡ true
    → longest_in row column l ≡ length l
unfolding is_swept longest_in find_shortest_node
swept-longest_in row column [] h e = cc
swept-longest_in row column (n ∷ c) h e =
    let before : (ltb n.row row && ltb n.column column) ≡ true = ground arith in rw before refl

pub swept-le :
    (row column row' column' k : ℕ) (ls : List Chain)
    → All (IsAbove row) ls
    → All (λ l. longest_in row column l ≤ k) ls
    → All (λ l. is_swept column l ≡ true → longest_in row' column' l ≤ k) ls
swept-le row column row' column' k [] h b = tt
swept-le row column row' column' k (l ∷ ls) h b = (
  λ e. omega (arith, longest_in-le-length row' column' l, swept-longest_in row column l h.0 e, b.0),
  swept-le row column row' column' k ls h.1 b.1,
)

-- What the new chain offers to a later node.
pub new-longest_in :
    (row' column' : ℕ) (n : Node) (c : Chain)
    → longest_in row' column' c ≤ longest_in row' column' (n ∷ c)
unfolding longest_in find_shortest_node
new-longest_in row' column' n c = elim (Bool-cases (ltb n.row row' && ltb n.column column')) [
  | inl e ↦ rw e (omega (arith, longest_in-le-length row' column' c))
  | inr e ↦ rw e (omega arith)
]

pub new-longest_in_all :
    (row' column' : ℕ) (n : Node) (c : Chain)
    → n.row < row'
    → n.column < column'
    → longest_in row' column' (n ∷ c) ≡ suc (length c)
unfolding longest_in find_shortest_node
new-longest_in_all row' column' n c h k =
    let before : (ltb n.row row' && ltb n.column column') ≡ true = ground arith in rw before refl
