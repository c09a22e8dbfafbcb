-- ===== src/ClockDelta/Compress/Diff.antt =====
-- src/rempi/rempi_clock_delta_compression.cpp: the diff of `compress`, from the two orders.
use mathlib.Core.Path.{subst}
use re_mpi.Common.{
  ℕ, zero, suc, ◌+◌, ◌*◌, ◌^◌, ◌<◌, ◌≤◌, ◌≡◌, refl, ◌∙◌, ap, some, List, [], ◌∷◌, All, All-Mem,
  length, get_elem?, replicate, false, true, dec_lt, ok, ◌>>=◌, arith,
}
use re_mpi.ClockDelta.{Edit, add_node, convert_to_diff_reversed}
use re_mpi.ClockDelta.Restore.{Step, add_steps, IsDiff, restoring-IsDiff}
use re_mpi.ClockDelta.Shortest.Optimal.{IsRising, AreIn, IsBehind}
use re_mpi.ClockDelta.Shortest.Diff.{keeps, edits, diff-IsShortest}
use re_mpi.ClockDelta.Compress.{unset, initial, compress_to_diff}
use re_mpi.ClockDelta.Compress.Orders.{IsIncreasing}
use re_mpi.ClockDelta.Compress.Orders.Turn.{IsSearch}
use re_mpi.ClockDelta.Compress.Loop.{IsPlaced, HasNode, compress_loop-Ran}

no-bits : (n c : ℕ) → get_elem? (replicate n false) c ≡ some true → ⊥
no-bits zero c h = cc
no-bits (suc n) zero h = cc
no-bits (suc n) (suc c) h = no-bits n c h

pub initial-IsSearch : (clocked : List ℕ) → IsSearch clocked [] (initial clocked)
unfolding initial
initial-IsSearch clocked = record {
  starts = refl;
  passed = λ c lt. absurd (omega arith);
  marked = λ c h. absurd (no-bits (length clocked) c h);
  last = refl;
}

-- A row and a column with the same event.
abbrev pub IsCommon : (clocked observed : List ℕ) → Step → Type 0
IsCommon clocked observed t =
    (l : ℕ) × (get_elem? observed t.row ≡ some l) × (get_elem? clocked t.column ≡ some l)

-- Two lists of nodes in the same places.
abbrev Pairs : List Step → List Step → Type 0
Pairs [] [] = Unit
Pairs (t ∷ q) (u ∷ p) = (u.row ≡ t.row) × (u.column ≡ t.column) × Pairs q p
Pairs _ _ = ⊥

record Realised (steps q : List Step) : Type 0 where
  nodes : List Step
  pairs : Pairs q nodes
  known : AreIn steps nodes

same-column :
    (clocked : List ℕ) (c d l : ℕ)
    → IsIncreasing clocked
    → get_elem? clocked c ≡ some l
    → get_elem? clocked d ≡ some l
    → c ≡ d
same-column clocked c d l inc h k = elim (dec_lt c d) [
  | yes lt ↦ absurd (let less = inc c d l l lt h k in omega arith)
  | no ge ↦ elim (dec_lt d c) [
    | yes lt ↦ absurd (let less = inc d c l l lt k h in omega arith)
    | no le ↦ omega arith
  ]
]

realise :
    (clocked observed : List ℕ) (steps q : List Step)
    → IsIncreasing clocked
    → HasNode clocked 0 observed steps
    → All (IsCommon clocked observed) q
    → Realised steps q
realise clocked observed steps [] inc has h = record { nodes = []; pairs = tt; known = tt }
realise clocked observed steps (t ∷ q) inc has h =
    let (l, there, here) = h.0 in
    let (u, m, row, at) = has t.row l there in
    let rest = realise clocked observed steps q inc has h.1 in
    record {
      nodes = u ∷ rest.nodes;
      pairs = (omega arith, same-column clocked u.column t.column l inc at here, rest.pairs);
      known = (m, rest.known);
    }

Pairs-IsBehind :
    (t u : Step) (q p : List Step)
    → u.row ≡ t.row
    → u.column ≡ t.column
    → Pairs q p
    → IsBehind t q
    → IsBehind u p
Pairs-IsBehind t u [] [] r c h k = tt
Pairs-IsBehind t u [] (y ∷ p) r c h k = absurd h
Pairs-IsBehind t u (x ∷ q) [] r c h k = absurd h
Pairs-IsBehind t u (x ∷ q) (y ∷ p) r c h k = (omega arith, omega arith)

Pairs-IsRising : (q p : List Step) → Pairs q p → IsRising q → IsRising p
Pairs-IsRising [] [] h k = tt
Pairs-IsRising [] (y ∷ p) h k = absurd h
Pairs-IsRising (x ∷ q) [] h k = absurd h
Pairs-IsRising (x ∷ q) (y ∷ p) h k =
    (Pairs-IsBehind x y q p h.0 h.1 h.2 k.0, Pairs-IsRising q p h.2 k.1)

Pairs-length : (q p : List Step) → Pairs q p → length q ≡ length p
Pairs-length [] [] h = refl
Pairs-length [] (y ∷ p) h = absurd h
Pairs-length (x ∷ q) [] h = absurd h
Pairs-length (x ∷ q) (y ∷ p) h = ap suc (Pairs-length q p h.2)

AreIn-IsBehind :
    (last : Step) (steps q : List Step)
    → All (λ t. (t.row < last.row) × (t.column < last.column)) steps
    → AreIn steps q
    → IsBehind last q
AreIn-IsBehind last steps [] h k = tt
AreIn-IsBehind last steps (x ∷ q) h k =
    All-Mem (λ t. (t.row < last.row) × (t.column < last.column)) k.0 h

-- The diff of two orders of the same events.
pub record Compressed (clocked observed : List ℕ) : Type 0 where
  pub diff : List Edit
  pub returns : compress_to_diff unset clocked observed ≡ ok diff
  pub restores :
      IsDiff (get_elem? clocked) (get_elem? observed) (length clocked) (length clocked) diff
  pub entries : edits diff + 2 * keeps diff ≡ length clocked + length clocked
  pub most :
      (q : List Step) → IsRising q → All (IsCommon clocked observed) q → length q ≤ keeps diff

pub orders-Compressed :
    (clocked observed columns : List ℕ)
    → IsIncreasing clocked
    → IsPlaced clocked [] observed columns
    → length observed ≡ length clocked
    → Compressed clocked observed
unfolding compress_to_diff initial
orders-Compressed clocked observed columns inc placed same =
    let n = length clocked in
    let w =
      compress_loop-Ran clocked 0 [] observed columns observed (initial clocked) inc
        (initial-IsSearch clocked) placed
        (λ i. ap (get_elem? observed) {x = i} {y = 0 + i} (omega arith)) in
    let last : Step = record { row = n; column = n; start = w.final.start_column } in
    let leaves_eq = ap (add_node n n w.final.start_column) w.leaves in
    let best = diff-IsShortest w.steps last (w.ordered last (omega arith) (omega arith)) in
    record {
      diff = convert_to_diff_reversed (add_node n n w.final.start_column (add_steps w.steps []));
      returns =
          ap (λ q. q >>= λ s. ok (convert_to_diff_reversed (add_node n n s.start_column s.leaves)))
            w.returns
          ∙ ap (λ ls. ok (convert_to_diff_reversed ls)) leaves_eq;
      restores =
          restoring-IsDiff (get_elem? clocked) (get_elem? observed) w.steps n n w.final.start_column
            w.matched;
      entries = best.entries;
      most = λ q rising common.
          let p = realise clocked observed w.steps q inc w.complete common in
          let shortest = best.most p.nodes (Pairs-IsRising q p.nodes p.pairs rising) p.known (
            AreIn-IsBehind last w.steps p.nodes
              (subst (λ k. All (λ (t : Step). (t.row < k) × (t.column < n)) w.steps)
                {x = 0 + length observed} {y = n} (omega (arith, same)) w.within)
              p.known) in
          omega (arith, Pairs-length q p.nodes p.pairs, shortest);
    }

-- For fewer than `2 ^ 30` events with increasing clocks and as many observed events, each of which
-- stands in one column of its own, when the bit that is read behind the matched bits lies in their
-- storage and is unset: the searches of `compress` find every event, none runs over the end, and
-- the diff turns the clock order into the observed order. It keeps as many events as can be kept:
-- events that are in the same order in both are not more. Its other entries are twice those that it
-- does not keep.
pub compress_to_diff-Compressed :
    (clocked observed columns : List ℕ)
    → length clocked < 2 ^ 30
    → IsIncreasing clocked
    → IsPlaced clocked [] observed columns
    → length observed ≡ length clocked
    → Compressed clocked observed
compress_to_diff-Compressed clocked observed columns few inc placed same =
    orders-Compressed clocked observed columns inc placed same
