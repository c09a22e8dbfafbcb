-- ===== src/ClockDelta/Shortest/Diff.antt =====
-- src/rempi/rempi_clock_delta_compression.cpp: no diff keeps more messages in place, and none has fewer
-- entries.
use mathlib.Core.List.{Memᴰ}
use re_mpi.Common.{
  All, ℕ, zero, suc, ◌+◌, ◌-◌, ◌*◌, ◌≤◌, ◌≡◌, refl, ◌∙◌, ap, List, [], ◌∷◌, ◌++◌, length, drop,
  arith,
}
use re_mpi.ClockDelta.{
  Node, Chain, new_node, add_node, last_leaf, Edit, edit_ignore, edit_remove, edit_add, removes,
  adds, chain_diff, convert_to_diff_reversed, get_shortest_distance, reported_distance,
}
use re_mpi.ClockDelta.Paths.{IsPath, best_of, added-IsPath}
use re_mpi.ClockDelta.Leaves.{new_node_place, last_leaf-add_node}
use re_mpi.ClockDelta.Restore.{IsNear, Step, add_steps, own_diff, row_end, column_end, ends}
use re_mpi.ClockDelta.Shortest.{longest, best_of-longest}
use re_mpi.ClockDelta.Shortest.Optimal.{
  IsOrdered, IsBehind, IsRising, AreIn, Covers, Covers-steps, reversed_onto,
}

-- The messages that a diff keeps, and its other entries.
unfoldable pub keeps : List Edit → ℕ
keeps [] = 0
keeps (edit_ignore c ∷ es) = suc (keeps es)
keeps (edit_remove c ∷ es) = keeps es
keeps (edit_add r ∷ es) = keeps es

unfoldable pub edits : List Edit → ℕ
edits [] = 0
edits (edit_ignore c ∷ es) = edits es
edits (edit_remove c ∷ es) = suc (edits es)
edits (edit_add r ∷ es) = suc (edits es)

edits-removes : (n c : ℕ) (es : List Edit) → edits (removes n c ++ es) ≡ n + edits es
unfolding edits removes
edits-removes zero c es = omega arith
edits-removes (suc n) c es = omega (arith, edits-removes n (c - 1) es)

edits-adds : (n r : ℕ) (es : List Edit) → edits (adds n r ++ es) ≡ n + edits es
unfolding edits adds
edits-adds zero r es = omega arith
edits-adds (suc n) r es = omega (arith, edits-adds n (r - 1) es)

keeps-removes : (n c : ℕ) (es : List Edit) → keeps (removes n c ++ es) ≡ keeps es
unfolding keeps removes
keeps-removes zero c es = refl
keeps-removes (suc n) c es = keeps-removes n (c - 1) es

keeps-adds : (n r : ℕ) (es : List Edit) → keeps (adds n r ++ es) ≡ keeps es
unfolding keeps adds
keeps-adds zero r es = refl
keeps-adds (suc n) r es = keeps-adds n (r - 1) es

edits-own_diff :
    (n : Node) (c : Chain)
    → edits (own_diff n c) ≡ n.column_distance + (n.row_distance + edits (chain_diff c))
edits-own_diff n c =
    let rest = adds n.row_distance n.row ++ chain_diff c in
    edits-removes n.column_distance n.column rest
    ∙ ap (λ k. n.column_distance + k) (edits-adds n.row_distance n.row (chain_diff c))

keeps-own_diff : (n : Node) (c : Chain) → keeps (own_diff n c) ≡ keeps (chain_diff c)
keeps-own_diff n c =
    keeps-removes n.column_distance n.column (adds n.row_distance n.row ++ chain_diff c)
    ∙ keeps-adds n.row_distance n.row (chain_diff c)

keeps-chain_diff : (c : Chain) → keeps (chain_diff c) ≡ length c
unfolding keeps chain_diff
keeps-chain_diff [] = refl
keeps-chain_diff (n ∷ c) = ap suc (keeps-own_diff n c ∙ keeps-chain_diff c)

edits-chain_diff :
    (c : Chain) → IsPath c → edits (chain_diff c) + 2 * length c ≡ row_end c + column_end c
unfolding edits chain_diff
edits-chain_diff [] h = refl
edits-chain_diff (n ∷ c) h =
    let (r, k) = ends n c h.0 in omega (arith, edits-own_diff n c, edits-chain_diff c h.2, r, k)

-- A path has no more nodes than rows.
length-le-row : (n : Node) (c : Chain) → IsPath (n ∷ c) → length c ≤ n.row
length-le-row n [] h = omega arith
length-le-row n (m ∷ c) h = omega (arith, length-le-row m c h.2)

seen-reversed :
    (steps seen : List Step) {s : Step} → Memᴰ s seen → Memᴰ s (reversed_onto steps seen)
seen-reversed [] seen m = m
seen-reversed (t ∷ steps) seen m = seen-reversed steps (t ∷ seen) (Memᴰ.tail m)

Mem-reversed :
    (s : Step) (steps seen : List Step) → Memᴰ s steps → Memᴰ s (reversed_onto steps seen)
Mem-reversed s [] seen m = elim m [ ]
Mem-reversed s (t ∷ steps) seen (Memᴰ.head e) = seen-reversed steps (t ∷ seen) (Memᴰ.head e)
Mem-reversed s (t ∷ steps) seen (Memᴰ.tail m) = Mem-reversed s steps (t ∷ seen) m

AreIn-reversed : (steps q : List Step) → AreIn steps q → AreIn (reversed_onto steps []) q
AreIn-reversed steps [] h = tt
AreIn-reversed steps (s ∷ q) h = (Mem-reversed s steps [] h.0, AreIn-reversed steps q h.1)

-- A diff between the observed order and the clock order, of `rows` and `width` messages, and the
-- distance that the search reports.
pub record IsShortest (steps : List Step) (last : Step) (leaves : List Chain) : Type 0 where
  pub entries :
      edits (convert_to_diff_reversed leaves) + 2 * keeps (convert_to_diff_reversed leaves)
      ≡ last.row + last.column
  pub distance :
      get_shortest_distance leaves + keeps (convert_to_diff_reversed leaves)
      ≡ last.row + last.column
  pub most :
      (q : List Step)
      → IsRising q
      → AreIn steps q
      → IsBehind last q
      → length q ≤ keeps (convert_to_diff_reversed leaves)

-- What the search reports of a leaf.
get_shortest_distance-last :
    (leaves : List Chain) (n : Node) (c : Chain)
    → last_leaf leaves ≡ n ∷ c
    → get_shortest_distance leaves ≡ n.shortest_distance - 1
unfolding get_shortest_distance reported_distance
get_shortest_distance-last leaves n c e = ap reported_distance e

none_added :
    (steps q : List Step)
    → IsRising q
    → AreIn [] q
    → (t : Step) → Memᴰ t steps
    → IsBehind t q
    → length q ≤ longest t.row t.column []
none_added steps [] rising known t m behind = omega arith
none_added steps (s ∷ q) rising known t m behind = elim known.0 [ ]

Covers-none : (steps : List Step) → Covers [] [] steps
unfolding longest
Covers-none steps = record {
  paths = tt;
  above = λ t m. tt;
  before = λ p t mp m. elim mp [ ];
  covers = none_added steps;
}

pub diff-IsShortest :
    (steps : List Step) (last : Step)
    → IsOrdered (steps ++ (last ∷ []))
    → IsShortest steps last (add_node last.row last.column last.start (add_steps steps []))
unfolding convert_to_diff_reversed chain_diff
diff-IsShortest steps last h =
    let leaves = add_steps steps [] in
    let k = Covers-steps steps (last ∷ []) [] [] (Covers-none (steps ++ (last ∷ []))) h in
    let best = best_of last.row last.column leaves in
    let n = new_node last.row last.column best.distance best.parent in
    let place = new_node_place last.row last.column best.distance best.parent in
    let path = added-IsPath last.row last.column leaves k.paths in
    let same = last_leaf-add_node last.row last.column last.start leaves in
    let reported =
      get_shortest_distance-last (add_node last.row last.column last.start leaves) n best.parent
        same in
    let diff_same = ap (λ c. drop 1 (chain_diff c)) same in
    let kept = ap keeps diff_same ∙ keeps-own_diff n best.parent ∙ keeps-chain_diff best.parent in
    let edited = ap edits diff_same ∙ edits-own_diff n best.parent in
    let (r, c) = ends n best.parent path.0 in
    record {
      entries = omega (arith, kept, edited, edits-chain_diff best.parent path.2, r, c, place);
      distance = omega (arith, kept, reported, path.1, place, length-le-row n best.parent path);
      most = λ q rising known behind. omega (
        arith,
        kept,
        best_of-longest last.row last.column leaves k.paths,
        k.covers q rising (AreIn-reversed steps q known) last (Memᴰ.head refl) behind,
      );
    }

-- For nodes in fewer than `2 ^ 30` rows and columns that are added row by row, each to the right of the
-- first column without a match once that is matched, and then the bottom-right node. The diff keeps as
-- many messages as can be kept: no messages that go right and down are more. It has two entries less for
-- each message that it keeps, so that no diff has fewer, and the reported distance is what the diff says.
pub add_node-IsShortest :
    (steps : List Step) (last : Step)
    → All IsNear (steps ++ (last ∷ []))
    → IsOrdered (steps ++ (last ∷ []))
    → IsShortest steps last (add_node last.row last.column last.start (add_steps steps []))
add_node-IsShortest steps last near h = diff-IsShortest steps last h
