-- ===== src/ClockDelta/Compress/Loop.antt =====
-- src/rempi/rempi_clock_delta_compression.cpp: the nodes that the loop of `compress` adds.
use mathlib.Core.List.{Memᴰ}
use mathlib.Core.Option.{none-ne-some}
use re_mpi.Common.{
  ℕ, zero, suc, ◌+◌, ◌<◌, ◌≤◌, ◌≡◌, refl, ◌∙◌, ap, some, List, [], ◌∷◌, ◌++◌, All, All-append,
  length, get_elem?, dec_lt, Run, ok, ◌>>=◌, arith,
}
use re_mpi.ClockDelta.Restore.{Step, add_steps, HasMatch}
use re_mpi.ClockDelta.Shortest.Optimal.{IsOrdered}
use re_mpi.ClockDelta.Compress.{unset, Search, match_at, compress_loop}
use re_mpi.ClockDelta.Compress.Orders.{IsIncreasing}
use re_mpi.ClockDelta.Compress.Orders.Turn.{
  IsSearch, start-le, compress_one-match_at, match_at-IsSearch,
}

-- Each observed event stands in a column of the clock order, in one that none before it has.
abbrev pub IsPlaced : (clocked seen observed columns : List ℕ) → Type 0
IsPlaced clocked seen [] [] = Unit
IsPlaced clocked seen (l ∷ observed) (c ∷ columns) =
    (get_elem? clocked c ≡ some l) × (¬ Memᴰ c seen) × IsPlaced clocked (c ∷ seen) observed columns
IsPlaced clocked seen _ _ = ⊥

-- A node that stands behind rows and in none of the columns seen.
abbrev pub IsLater : (row : ℕ) (seen : List ℕ) → Step → Type 0
IsLater row seen t = (row ≤ t.row) × (¬ Memᴰ t.column seen)

-- The loop, from a row on.
pub record Ran (clocked : List ℕ) (row : ℕ) (seen observed : List ℕ) (all : List ℕ) (s : Search)
    (r : Run Search) : Type 0 where
  pub final : Search
  pub returns : r ≡ ok final
  pub steps : List Step
  pub leaves : final.leaves ≡ add_steps steps s.leaves
  pub later : All (IsLater row seen) steps
  pub matched : All (HasMatch (get_elem? clocked) (get_elem? all)) steps
  pub within : All (λ t. (t.row < row + length observed) × (t.column < length clocked)) steps
  pub complete :
      (r l : ℕ)
      → get_elem? observed r ≡ some l
      → (t : Step) × Memᴰ t steps × (t.row ≡ row + r) × (get_elem? clocked t.column ≡ some l)
  pub ordered :
      (last : Step)
      → row + length observed ≤ last.row
      → length clocked ≤ last.column
      → IsOrdered (steps ++ (last ∷ []))

get_elem?-lt : (c l : ℕ) (xs : List ℕ) → get_elem? xs c ≡ some l → c < length xs
get_elem?-lt c l [] h = cc
get_elem?-lt zero l (x ∷ xs) h = omega arith
get_elem?-lt (suc c) l (x ∷ xs) h = omega (arith, get_elem?-lt c l xs h)

IsLater-tail :
    (row c : ℕ) (seen : List ℕ) (steps : List Step)
    → All (IsLater (suc row) (c ∷ seen)) steps
    → All (IsLater row seen) steps
IsLater-tail row c seen [] h = tt
IsLater-tail row c seen (t ∷ steps) h =
    ((omega arith, λ m. h.0.1 (Memᴰ.tail m)), IsLater-tail row c seen steps h.1)

-- Later nodes are to the right of the first column without a match, once the node in it is added.
ordered-later :
    (clocked seen : List ℕ) (s : Search) (row c : ℕ) (steps : List Step)
    → IsSearch clocked seen s
    → All (IsLater (suc row) (c ∷ seen)) steps
    → All (λ t. (row < t.row) × (c ≡ s.start_column → s.start_column < t.column)) steps
ordered-later clocked seen s row c [] k h = tt
ordered-later clocked seen s row c (t ∷ steps) k h =
    let le = start-le clocked seen s t.column k (λ m. h.0.1 (Memᴰ.tail m)) in
    (
      (
        omega arith,
        λ e. elim (dec_lt s.start_column t.column) [
          | yes lt ↦ lt
          | no ge ↦ absurd (h.0.1 (Memᴰ.head (omega (arith, le))))
        ],
      ),
      ordered-later clocked seen s row c steps k h.1,
    )

within-suc :
    (row n width : ℕ) (steps : List Step)
    → All (λ t. (t.row < suc row + n) × (t.column < width)) steps
    → All (λ t. (t.row < row + suc n) × (t.column < width)) steps
within-suc row n width [] h = tt
within-suc row n width (t ∷ steps) h = ((omega arith, h.0.1), within-suc row n width steps h.1)

-- There is a node for each observed event.
abbrev pub HasNode : (clocked : List ℕ) (row : ℕ) (observed : List ℕ) → List Step → Type 0
HasNode clocked row observed steps =
    (r l : ℕ)
    → get_elem? observed r ≡ some l
    → (t : Step) × Memᴰ t steps × (t.row ≡ row + r) × (get_elem? clocked t.column ≡ some l)

complete-cons :
    (clocked : List ℕ) (row l : ℕ) (observed : List ℕ) (t : Step) (steps : List Step)
    → get_elem? clocked t.column ≡ some l
    → t.row ≡ row
    → HasNode clocked (suc row) observed steps
    → HasNode clocked row (l ∷ observed) (t ∷ steps)
complete-cons clocked row l observed t steps here at rest zero l' e =
    (t, Memᴰ.head refl, omega arith, here ∙ e)
complete-cons clocked row l observed t steps here at rest (suc r) l' e =
    let (u, m, same, there) = rest r l' e in (u, Memᴰ.tail m, omega arith, there)

pub compress_loop-Ran :
    (clocked : List ℕ) (row : ℕ) (seen observed columns all : List ℕ) (s : Search)
    → IsIncreasing clocked
    → IsSearch clocked seen s
    → IsPlaced clocked seen observed columns
    → ((i : ℕ) → get_elem? observed i ≡ get_elem? all (row + i))
    → Ran clocked row seen observed all s (compress_loop unset clocked row observed s)
unfolding compress_loop add_steps match_at
compress_loop-Ran clocked row seen [] [] all s inc k h at = record {
  final = s;
  returns = refl;
  steps = [];
  leaves = refl;
  later = tt;
  matched = tt;
  within = tt;
  complete = λ r l e. absurd (none-ne-some l e);
  ordered = λ last low right. (tt, tt);
}
compress_loop-Ran clocked row seen [] (c ∷ columns) all s inc k h at = absurd h
compress_loop-Ran clocked row seen (l ∷ observed) [] all s inc k h at = absurd h
compress_loop-Ran clocked row seen (l ∷ observed) (c ∷ columns) all s inc k h at =
    let next = match_at row l c c s in
    let k' = match_at-IsSearch clocked seen s c l inc k h.0 h.1 row in
    let turn = compress_one-match_at clocked seen s c l inc k h.0 h.1 row in
    let rest =
      compress_loop-Ran clocked (suc row) (c ∷ seen) observed columns all next inc k' h.2
        (λ i. at (suc i) ∙ ap (get_elem? all) (omega arith)) in
    let step : Step = record { row = row; column = c; start = s.start_column } in
    record {
      final = rest.final;
      returns = ap (λ q. q >>= compress_loop unset clocked (suc row) observed) turn ∙ rest.returns;
      steps = step ∷ rest.steps;
      leaves = rest.leaves;
      later = ((omega arith, h.1), IsLater-tail row c seen rest.steps rest.later);
      matched =
          (h.0 ∙ at 0 ∙ ap (get_elem? all) {x = row + 0} {y = row} (omega arith), rest.matched);
      within = (
        (omega arith, get_elem?-lt c l clocked h.0),
        within-suc row (length observed) (length clocked) rest.steps rest.within,
      );
      complete = complete-cons clocked row l observed step rest.steps h.0 refl rest.complete;
      ordered = λ last low right. (
        All-append (λ t. (row < t.row) × (c ≡ s.start_column → s.start_column < t.column))
            rest.steps (last ∷ []) (ordered-later clocked seen s row c rest.steps k rest.later)
            ((omega arith, λ e. omega (arith, get_elem?-lt c l clocked h.0)), tt),
        rest.ordered last (omega arith) right,
      );
    }
