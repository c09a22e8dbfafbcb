-- ===== src/ClockDelta/Restore.antt =====
-- src/rempi/rempi_clock_delta_compression.cpp: the diff turns the clock order into the observed order.
use re_mpi.Common.{
  ◌<◌, ◌^◌, ℕ, zero, suc, ◌+◌, ◌-◌, ◌≡◌, refl, sym, ◌∙◌, ap, List, [], ◌∷◌, ◌++◌, All, drop, map,
  arith,
}
use mathlib.Core.Path.{ap₂}
use re_mpi.ClockDelta.{
  Node, Chain, new_node, add_node, Edit, edit_ignore, edit_remove, edit_add, removes, adds,
  chain_diff, convert_to_diff_reversed,
}
use re_mpi.ClockDelta.Paths.{IsPath, IsUnder, best_of, added, added-IsPath}
use re_mpi.ClockDelta.Leaves.{
  new_node_place, add_node-IsPath, add_node-All, best_of-All, last_leaf-add_node,
}

-- `n - 1`, ..., 0.
unfoldable pub down : ℕ → List ℕ
down zero = []
down (suc n) = n ∷ down n

-- The columns that a diff goes over: it keeps them or removes them.
unfoldable pub columns : List Edit → List ℕ
columns [] = []
columns (edit_ignore c ∷ es) = c ∷ columns es
columns (edit_remove c ∷ es) = c ∷ columns es
columns (edit_add r ∷ es) = columns es

-- What a diff makes of the messages in clock order: it keeps some, and adds observed messages.
unfoldable pub apply {ℓ} : {A : Type ℓ} (clocked observed : ℕ → A) → List Edit → List A
apply clocked observed [] = []
apply clocked observed (edit_ignore c ∷ es) = clocked c ∷ apply clocked observed es
apply clocked observed (edit_remove c ∷ es) = apply clocked observed es
apply clocked observed (edit_add r ∷ es) = observed r ∷ apply clocked observed es

columns-adds : (n row : ℕ) (es : List Edit) → columns (adds n row ++ es) ≡ columns es
unfolding columns adds
columns-adds zero row es = refl
columns-adds (suc n) row es = columns-adds n (row - 1) es

columns-removes :
    (n m : ℕ) (es : List Edit)
    → columns es ≡ down m
    → columns (removes n (n + m) ++ es) ≡ down (n + m)
unfolding columns removes down
columns-removes zero m es h = h ∙ ap down (omega arith)
columns-removes (suc n) m es h =
    ap (λ k. k ∷ columns (removes n k ++ es)) {x = suc n + m - 1} {y = n + m} (omega arith)
    ∙ ap (◌∷◌ (n + m)) (columns-removes n m es h)
    ∙ ap down {x = suc (n + m)} {y = suc n + m} (omega arith)

-- Where the rows and columns behind a node's own begin.
abbrev pub row_end : Chain → ℕ
row_end [] = 0
row_end (m ∷ parents) = suc m.row

abbrev pub column_end : Chain → ℕ
column_end [] = 0
column_end (m ∷ parents) = suc m.column

pub ends :
    (n : Node) (parents : Chain)
    → IsUnder n parents
    → (n.row_distance + row_end parents ≡ n.row)
      × (n.column_distance + column_end parents ≡ n.column)
ends n [] h = (omega arith, omega arith)
ends n (m ∷ parents) h = (omega arith, omega arith)

-- What a node's diff has behind the node's own entry.
abbrev pub own_diff : Node → Chain → List Edit
own_diff n parents =
    removes n.column_distance n.column ++ (adds n.row_distance n.row ++ chain_diff parents)

columns-own_diff :
    (n : Node) (parents : Chain)
    → IsUnder n parents
    → columns (chain_diff parents) ≡ down (column_end parents)
    → columns (own_diff n parents) ≡ down n.column
columns-own_diff n parents h k =
    let e = (ends n parents h).1 in
    let tail = adds n.row_distance n.row ++ chain_diff parents in
    ap (λ m. columns (removes n.column_distance m ++ tail)) (sym e)
    ∙ columns-removes n.column_distance (column_end parents) tail
        (columns-adds n.row_distance n.row (chain_diff parents) ∙ k)
    ∙ ap down e

columns-chain_diff : (c : Chain) → IsPath c → columns (chain_diff c) ≡ down (column_end c)
unfolding columns chain_diff down
columns-chain_diff [] h = refl
columns-chain_diff (n ∷ parents) h =
    ap (◌∷◌ n.column) (columns-own_diff n parents h.0 (columns-chain_diff parents h.2))

module _ {ℓ} {A : Type ℓ} (clocked observed : ℕ → A) where
  apply-removes :
      (n column : ℕ) (es : List Edit)
      → apply clocked observed (removes n column ++ es) ≡ apply clocked observed es
  unfolding apply removes
  apply-removes zero column es = refl
  apply-removes (suc n) column es = apply-removes n (column - 1) es

  apply-adds :
      (n m : ℕ) (es : List Edit)
      → apply clocked observed es ≡ map observed (down m)
      → apply clocked observed (adds n (n + m) ++ es) ≡ map observed (down (n + m))
  unfolding apply adds down
  apply-adds zero m es h = h ∙ ap (λ k. map observed (down k)) {x = m} {y = zero + m} (omega arith)
  apply-adds (suc n) m es h =
      ap (λ k. observed k ∷ apply clocked observed (adds n k ++ es)) {x = suc n + m - 1} {y = n + m}
        (omega arith)
      ∙ ap (◌∷◌ (observed (n + m))) (apply-adds n m es h)
      ∙ ap (λ k. map observed (down k)) {x = suc (n + m)} {y = suc n + m} (omega arith)

  -- A node's message is the same in both orders.
  abbrev pub IsMatch : Node → Type ℓ
  IsMatch n = clocked n.column ≡ observed n.row

  apply-own_diff :
      (n : Node) (parents : Chain)
      → IsUnder n parents
      → apply clocked observed (chain_diff parents) ≡ map observed (down (row_end parents))
      → apply clocked observed (own_diff n parents) ≡ map observed (down n.row)
  apply-own_diff n parents h k =
      let e = (ends n parents h).0 in
      let rest = chain_diff parents in
      apply-removes n.column_distance n.column (adds n.row_distance n.row ++ rest)
      ∙ ap (λ m. apply clocked observed (adds n.row_distance m ++ rest)) (sym e)
      ∙ apply-adds n.row_distance (row_end parents) rest k
      ∙ ap (λ m. map observed (down m)) e

  apply-chain_diff :
      (c : Chain)
      → IsPath c
      → All IsMatch c
      → apply clocked observed (chain_diff c) ≡ map observed (down (row_end c))
  unfolding apply chain_diff down
  apply-chain_diff [] h k = refl
  apply-chain_diff (n ∷ parents) h k =
      ap₂ ◌∷◌ k.0 (apply-own_diff n parents h.0 (apply-chain_diff parents h.2 k.1))

-- A message: its row, its column, and the first column without a match when it is added.
pub record Step : Type 0 where
  pub row : ℕ
  pub column : ℕ
  pub start : ℕ

unfoldable pub add_steps : List Step → List Chain → List Chain
unfolding add_node
add_steps [] leaves = leaves
add_steps (s ∷ steps) leaves = add_steps steps (add_node s.row s.column s.start leaves)

module _ {ℓ} {A : Type ℓ} (clocked observed : ℕ → A) where
  abbrev pub HasMatch : Step → Type ℓ
  HasMatch s = clocked s.column ≡ observed s.row

  add_node-IsMatch :
      (s : Step) (leaves : List Chain)
      → HasMatch s
      → All (All (IsMatch clocked observed)) leaves
      → All (All (IsMatch clocked observed)) (add_node s.row s.column s.start leaves)
  add_node-IsMatch s leaves m h =
      let best = best_of s.row s.column leaves in
      let place = new_node_place s.row s.column best.distance best.parent in
      add_node-All (All (IsMatch clocked observed)) s.row s.column s.start leaves h (
        ap clocked place.1 ∙ m ∙ ap observed (sym place.0),
        best_of-All (IsMatch clocked observed) s.row s.column leaves h,
      )

  add_steps-IsMatch :
      (steps : List Step) (leaves : List Chain)
      → All HasMatch steps
      → All (All (IsMatch clocked observed)) leaves
      → All (All (IsMatch clocked observed)) (add_steps steps leaves)
  unfolding add_steps
  add_steps-IsMatch [] leaves m h = h
  add_steps-IsMatch (s ∷ steps) leaves m h =
      add_steps-IsMatch steps (add_node s.row s.column s.start leaves) m.1
        (add_node-IsMatch s leaves m.0 h)

  -- A diff, from its end to its start, that goes over `width` columns and gives `rows` messages.
  pub record IsDiff (rows width : ℕ) (diff : List Edit) : Type ℓ where
    pub goes_over : columns diff ≡ down width
    pub gives : apply clocked observed diff ≡ map observed (down rows)

  chain_diff-IsDiff :
      (n : Node) (c : Chain)
      → IsPath (n ∷ c)
      → All (IsMatch clocked observed) c
      → IsDiff n.row n.column (drop 1 (chain_diff (n ∷ c)))
  unfolding chain_diff
  chain_diff-IsDiff n c h m = record {
    goes_over = columns-own_diff n c h.0 (columns-chain_diff c h.2);
    gives = apply-own_diff clocked observed n c h.0 (apply-chain_diff clocked observed c h.2 m);
  }

add_steps-IsPath :
    (steps : List Step) (leaves : List Chain)
    → All IsPath leaves
    → All IsPath (add_steps steps leaves)
unfolding add_steps
add_steps-IsPath [] leaves h = h
add_steps-IsPath (s ∷ steps) leaves h =
    add_steps-IsPath steps (add_node s.row s.column s.start leaves)
      (add_node-IsPath s.row s.column s.start leaves h)

pub restoring-IsDiff {ℓ} :
    {A : Type ℓ} (clocked observed : ℕ → A) (steps : List Step) (rows width start : ℕ)
    → All (HasMatch clocked observed) steps
    → IsDiff clocked observed rows width
        (convert_to_diff_reversed (add_node rows width start (add_steps steps [])))
unfolding convert_to_diff_reversed
restoring-IsDiff clocked observed steps rows width start h =
    let leaves = add_steps steps [] in
    let best = best_of rows width leaves in
    let n = new_node rows width best.distance best.parent in
    let place = new_node_place rows width best.distance best.parent in
    let paths = add_steps-IsPath steps [] tt in
    let d =
      chain_diff-IsDiff clocked observed n best.parent (added-IsPath rows width leaves paths) (
        best_of-All (IsMatch clocked observed) rows width leaves
          (add_steps-IsMatch clocked observed steps [] h tt)) in
    let same : convert_to_diff_reversed (add_node rows width start leaves)
        ≡ drop 1 (chain_diff (added rows width leaves)) =
      ap (λ c. drop 1 (chain_diff c)) (last_leaf-add_node rows width start leaves) in
    record {
      goes_over = ap columns same ∙ d.goes_over ∙ ap down place.1;
      gives = ap (apply clocked observed) same ∙ d.gives ∙ ap (λ k. map observed (down k)) place.0;
    }

-- A node below `2 ^ 30` in both directions, so that no distance overflows.
abbrev pub IsNear : Step → Type 0
IsNear t = (t.row < 2 ^ 30) × (t.column < 2 ^ 30)

-- Whatever nodes are added, in which order and with which first columns, each for a message that stands
-- in its row of the observed order and in its column of the clock order, and then the bottom-right node
-- behind `rows` rows and `width` columns, all in fewer than `2 ^ 30` rows and columns. The diff, which
-- runs backwards, keeps or removes each of the `width` columns once and in order, and what it keeps and
-- adds are the `rows` observed messages in order.
pub convert_to_diff-IsDiff {ℓ} :
    {A : Type ℓ} (clocked observed : ℕ → A) (steps : List Step) (rows width start : ℕ)
    → All IsNear steps
    → rows < 2 ^ 30
    → width < 2 ^ 30
    → All (HasMatch clocked observed) steps
    → IsDiff clocked observed rows width
        (convert_to_diff_reversed (add_node rows width start (add_steps steps [])))
convert_to_diff-IsDiff clocked observed steps rows width start near few narrow h =
    restoring-IsDiff clocked observed steps rows width start h
