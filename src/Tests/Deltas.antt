-- ===== src/Tests/Deltas.antt =====
-- src/rempi/rempi_clock_delta_compression.cpp: three messages, two of which are swapped.
use mathlib.Core.List.{Memᴰ}
use re_mpi.Common.{ℕ, ◌≡◌, ◌≢◌, refl, List, [], ◌∷◌, ok, get_elem?, arith}
use re_mpi.Common.Maps.{find, put}
use re_mpi.ClockDelta.{
  find_shortest_node, update_best, search_leaves, new_node, erase_at, erase_leaf, is_swept,
  sweep_non_candidate_leaf, no_best, connect, add_node, edit_ignore, edit_remove, edit_add, removes,
  adds, chain_diff, last_leaf, convert_to_diff_reversed,
}
use re_mpi.ClockDelta.Restore.{Step, add_steps, IsDiff, convert_to_diff-IsDiff}
use re_mpi.ClockDelta.Shortest.Diff.{IsShortest, add_node-IsShortest}
use re_mpi.ClockDelta.Compress.{
  unset, next_start_search_it, find_matched_clock_column, leading, match_at, search_from,
  compress_one, compress_loop, initial, compress_to_diff,
}
use re_mpi.ClockDelta.Compress.Orders.{IsIncreasing}
use re_mpi.ClockDelta.Compress.Diff.{Compressed, compress_to_diff-Compressed}

abbrev clocked : List ℕ
clocked = 2 ∷ 5 ∷ 7 ∷ []

abbrev observed : List ℕ
observed = 5 ∷ 2 ∷ 7 ∷ []

clocked-IsIncreasing : IsIncreasing clocked
clocked-IsIncreasing = λ i j a b lt h k. ground arith

compress_to_diff_run :
    compress_to_diff unset clocked observed
    ≡ ok (edit_ignore 2 ∷ edit_add 1 ∷ edit_ignore 1 ∷ edit_remove 0 ∷ [])
unfolding find_shortest_node update_best search_leaves new_node erase_at erase_leaf is_swept
    sweep_non_candidate_leaf no_best connect add_node removes adds chain_diff last_leaf
    convert_to_diff_reversed next_start_search_it find_matched_clock_column leading match_at
    search_from compress_one compress_loop initial compress_to_diff find put
compress_to_diff_run = refl

none_seen : {c : ℕ} → ¬ Memᴰ c []
none_seen m = elim m [ ]

other_seen : {c d : ℕ} {seen : List ℕ} → c ≢ d → ¬ Memᴰ c seen → ¬ Memᴰ c (d ∷ seen)
other_seen differ new (Memᴰ.head e) = differ e
other_seen differ new (Memᴰ.tail m) = new m

compress_to_diff-Compressed_example : Compressed clocked observed
compress_to_diff-Compressed_example =
    compress_to_diff-Compressed clocked observed (1 ∷ 0 ∷ 2 ∷ []) (omega arith) clocked-IsIncreasing
      (
        refl,
        none_seen,
        (
          refl,
          other_seen (omega arith) none_seen,
          (refl, other_seen (omega arith) (other_seen (omega arith) none_seen), tt),
        ),
      )
      refl

abbrev steps : List Step
steps =
    record { row = 0; column = 1; start = 0 }
    ∷ record { row = 1; column = 0; start = 0 }
    ∷ record { row = 2; column = 2; start = 2 }
    ∷ []

abbrev last : Step
last = record { row = 3; column = 3; start = 3 }

add_node-IsShortest_example :
    IsShortest steps last (add_node last.row last.column last.start (add_steps steps []))
add_node-IsShortest_example = add_node-IsShortest steps last (omega arith) (
  (
    (omega arith, λ e. omega arith),
    ((omega arith, λ e. omega arith), ((omega arith, λ e. omega arith), tt)),
  ),
  (
    ((omega arith, λ e. omega arith), ((omega arith, λ e. omega arith), tt)),
    (((omega arith, λ e. omega arith), tt), (tt, tt)),
  ),
)

convert_to_diff-IsDiff_example :
    IsDiff
      (get_elem? clocked)
      (get_elem? observed)
      3
      3
      (convert_to_diff_reversed (add_node 3 3 3 (add_steps steps [])))
convert_to_diff-IsDiff_example =
    convert_to_diff-IsDiff (get_elem? clocked) (get_elem? observed) steps 3 3 3 (omega arith)
      (omega arith) (omega arith) (refl, (refl, (refl, tt)))
