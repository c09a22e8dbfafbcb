-- ===== src/ClockDelta/Shortest/Optimal.antt =====
-- src/rempi/rempi_clock_delta_compression.cpp: the diff is a shortest one.
use mathlib.Core.List.{Memᴰ}
use mathlib.Core.Path.{subst}
use re_mpi.Common.{
  ℕ, suc, ◌<◌, ◌≤◌, ◌≡◌, refl, sym, ap, List, [], ◌∷◌, ◌++◌, All, All-Mem, length, arith,
}
use re_mpi.ClockDelta.{Chain, add_node}
use re_mpi.ClockDelta.Paths.{IsPath, best_of}
use re_mpi.ClockDelta.Leaves.{add_node-IsPath, add_node-All, new_node_place}
use re_mpi.ClockDelta.Restore.{Step, add_steps}
use re_mpi.ClockDelta.Shortest.{longest}
use re_mpi.ClockDelta.Shortest.Kept.{IsAbove}
use re_mpi.ClockDelta.Shortest.Step.{Improves, add_node-Improves}

-- Nodes are added row by row, and once the first column without a match is matched, later nodes are to
-- the right of it.
abbrev pub IsOrdered : List Step → Type 0
IsOrdered [] = Unit
IsOrdered (s ∷ steps) =
    All (λ t. (s.row < t.row) × (s.column ≡ s.start → s.start < t.column)) steps × IsOrdered steps

-- Messages that keep their places relative to each other, the last one first.
abbrev pub IsBehind : Step → List Step → Type 0
IsBehind t [] = Unit
IsBehind t (s ∷ q) = (s.row < t.row) × (s.column < t.column)

abbrev pub IsRising : List Step → Type 0
IsRising [] = Unit
IsRising (s ∷ q) = IsBehind s q × IsRising q

-- Messages among those that have been added.
abbrev pub AreIn : List Step → List Step → Type 0
AreIn seen = All (λ s. Memᴰ s seen)

pub record Covers (leaves : List Chain) (seen future : List Step) : Type 0 where
  pub paths : All IsPath leaves
  pub above : (t : Step) → Memᴰ t future → All (IsAbove t.row) leaves
  pub before : (p t : Step) → Memᴰ p seen → Memᴰ t future → p.row < t.row
  pub covers :
      (q : List Step)
      → IsRising q
      → AreIn seen q
      → (t : Step) → Memᴰ t future
      → IsBehind t q
      → length q ≤ longest t.row t.column leaves

rising-rows :
    (row : ℕ) (x : Step) (q : List Step)
    → x.row ≤ row
    → IsBehind x q
    → IsRising q
    → All (λ p. p.row < row) q
rising-rows row x [] le h k = tt
rising-rows row x (p ∷ q) le h k = (omega arith, rising-rows row p q (omega arith) k.0 k.1)

not-same : (p s : Step) → p.row < s.row → ¬ (p ≡ s)
not-same p s h e = let same = ap (λ (t : Step). t.row) e in omega arith

tail_of {ℓ} : {A : Type ℓ} {a b : A} {xs : List A} → ¬ (a ≡ b) → Memᴰ a (b ∷ xs) → Memᴰ a xs
tail_of other (Memᴰ.head e) = absurd (other e)
tail_of other (Memᴰ.tail m) = m

AreIn-tail :
    (s : Step) (seen q : List Step) → All (λ p. p.row < s.row) q → AreIn (s ∷ seen) q → AreIn seen q
AreIn-tail s seen [] h k = tt
AreIn-tail s seen (p ∷ q) h k = (tail_of (not-same p s h.0) k.0, AreIn-tail s seen q h.1 k.1)

add_node-IsAbove :
    (s : Step) (row : ℕ) (leaves : List Chain)
    → s.row < row
    → All (IsAbove row) leaves
    → All (IsAbove row) (add_node s.row s.column s.start leaves)
add_node-IsAbove s row leaves below h =
    let best = best_of s.row s.column leaves in
    let place = new_node_place s.row s.column best.distance best.parent in
    add_node-All (IsAbove row) s.row s.column s.start leaves h (omega (arith, place.0))

module _ (leaves : List Chain) (seen : List Step) (s : Step) (future : List Step)
    (k : Covers leaves seen (s ∷ future))
    (ordered : All (λ t. (s.row < t.row) × (s.column ≡ s.start → s.start < t.column)) future) where
  order : (t : Step) → Memᴰ t future → (s.row < t.row) × (s.column ≡ s.start → s.start < t.column)
  order t m = All-Mem (λ t. (s.row < t.row) × (s.column ≡ s.start → s.start < t.column)) m ordered

  abbrev after : List Chain
  after = add_node s.row s.column s.start leaves

  improves : (t : Step) → Memᴰ t future → Improves s.row s.column t.row t.column leaves after
  improves t m =
      add_node-Improves s.row s.column s.start t.row t.column leaves k.paths (order t m).0
        (k.above s (Memᴰ.head refl)) (order t m).1

  -- A chain that ends in the new node goes on from one that the new node has found.
  covers-new :
      (q : List Step)
      → IsBehind s q
      → IsRising q
      → AreIn (s ∷ seen) q
      → (t : Step) → Memᴰ t future
      → s.column < t.column
      → suc (length q) ≤ longest t.row t.column after
  covers-new q behind rising known t m right =
      let old = AreIn-tail s seen q (rising-rows s.row s q (omega arith) behind rising) known in
      let found = k.covers q rising old s (Memᴰ.head refl) behind in
      omega (arith, found, (improves t m).longer right)

  -- Any other chain has been added before.
  covers-old :
      (x : Step) (q : List Step)
      → Memᴰ x seen
      → IsBehind x q
      → IsRising q
      → AreIn (s ∷ seen) q
      → (t : Step) → Memᴰ t future
      → IsBehind t (x ∷ q)
      → suc (length q) ≤ longest t.row t.column after
  covers-old x q mx behind rising known t m right =
      let low = k.before x s mx (Memᴰ.head refl) in
      let old =
        AreIn-tail s seen q (rising-rows s.row x q (omega (arith, low)) behind rising) known in
      let found = k.covers (x ∷ q) (behind, rising) (mx, old) t (Memᴰ.tail m) right in
      omega (arith, found, (improves t m).kept)

  covers-head :
      (x : Step) (q : List Step)
      → Memᴰ x (s ∷ seen)
      → IsBehind x q
      → IsRising q
      → AreIn (s ∷ seen) q
      → (t : Step) → Memᴰ t future
      → IsBehind t (x ∷ q)
      → suc (length q) ≤ longest t.row t.column after
  covers-head x q (Memᴰ.head e) behind rising known t m right =
      covers-new q (subst (λ y. IsBehind y q) e behind) rising known t m
        (subst (λ (y : Step). y.column < t.column) e right.1)
  covers-head x q (Memᴰ.tail mx) behind rising known t m right =
      covers-old x q mx behind rising known t m right

  covers-chain :
      (q : List Step)
      → IsRising q
      → AreIn (s ∷ seen) q
      → (t : Step) → Memᴰ t future
      → IsBehind t q
      → length q ≤ longest t.row t.column after
  covers-chain [] rising known t m right = omega arith
  covers-chain (x ∷ q) rising known t m right =
      covers-head x q known.0 rising.0 rising.1 known.1 t m right

  before-step : (p t : Step) → Memᴰ p (s ∷ seen) → Memᴰ t future → p.row < t.row
  before-step p t (Memᴰ.head e) m = subst (λ (y : Step). y.row < t.row) (sym e) (order t m).0
  before-step p t (Memᴰ.tail mp) m = k.before p t mp (Memᴰ.tail m)

  Covers-step : Covers after (s ∷ seen) future
  Covers-step = record {
    paths = add_node-IsPath s.row s.column s.start leaves k.paths;
    above = λ t m. add_node-IsAbove s t.row leaves (order t m).0 (k.above t (Memᴰ.tail m));
    before = before-step;
    covers = covers-chain;
  }

-- The nodes that `add_steps` adds, the last one first.
abbrev pub reversed_onto : List Step → List Step → List Step
reversed_onto [] seen = seen
reversed_onto (s ∷ steps) seen = reversed_onto steps (s ∷ seen)

pub Covers-steps :
    (steps future : List Step) (leaves : List Chain) (seen : List Step)
    → Covers leaves seen (steps ++ future)
    → IsOrdered (steps ++ future)
    → Covers (add_steps steps leaves) (reversed_onto steps seen) future
unfolding add_steps
Covers-steps [] future leaves seen k h = k
Covers-steps (s ∷ steps) future leaves seen k h =
    Covers-steps steps future (add_node s.row s.column s.start leaves) (s ∷ seen)
      (Covers-step leaves seen s (steps ++ future) k h.0) h.1
