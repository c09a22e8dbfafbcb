-- ===== src/ClockDelta/Binary.antt =====
-- src/rempi/rempi_clock_delta_compression.cpp: `convert_to_diff_binary`, and `compress` from the two
-- orders to the bytes. An entry's id is the clock order of its message, also where it is added.
pub mod Script
use mathlib.Core.List.{reverse}
use re_mpi.Common.{
  ℕ, zero, suc, ◌+◌, ◌-◌, ◌%◌, ◌^◌, Bool, true, false, not, Option, none, some, List, [], ◌∷◌, ◌++◌,
  map, if◌then◌else◌, length, drop, Run, ok, ◌>>=◌,
}
use re_mpi.Common.Bytes.{Bytes, int_bytes}
use re_mpi.Common.Maps.{Map, find, put, erase}
use re_mpi.Compression.LinearPrediction.{compress_by_linear_prediction}
use re_mpi.ClockDelta.{Edit, edit_ignore, edit_remove, edit_add, add_node, convert_to_diff_reversed}
use re_mpi.ClockDelta.Compress.{compress_loop, initial, change_to_seq_order_id}

abbrev pub is_pending : Option ℕ → Bool
is_pending none = false
is_pending (some place) = true

-- Whether the inner loop counts an entry.
unfoldable pub is_counted : Map ℕ → Edit → Bool
unfolding find
is_counted pending (edit_ignore id) = true
is_counted pending (edit_remove id) = is_pending (find id pending)
is_counted pending (edit_add id) = not (is_pending (find id pending))

unfoldable pub count_delta : Map ℕ → List Edit → ℕ
unfolding is_counted
count_delta pending [] = 0
count_delta pending (e ∷ es) =
    if is_counted pending e then suc (count_delta pending es) else count_delta pending es

-- `delta`, or `-delta` for EDIT_REMOVE, as an int.
unfoldable pub signed : (remove : Bool) → ℕ → ℕ
signed false delta = delta % 2 ^ 32
signed true delta = (2 ^ 32 - delta % 2 ^ 32) % 2 ^ 32

-- The body of the loop, behind the entries that it has passed: where the id is not pending, its place
-- is memorized, and where it is, the id and its delta are pushed to the two vectors.
unfoldable pub pair_up :
    (passed : List Edit) (id : ℕ) (remove : Bool) → Map ℕ → Option ℕ → Map ℕ × List (ℕ × ℕ)
unfolding put erase count_delta signed
pair_up passed id remove pending none = (put id (length passed) pending, [])
pair_up passed id remove pending (some place) =
    (erase id pending, (id, signed remove (count_delta pending (drop (suc place) passed))) ∷ [])

unfoldable pub visit : (passed : List Edit) → Map ℕ → Edit → Map ℕ × List (ℕ × ℕ)
unfolding pair_up find
visit passed pending (edit_ignore id) = (pending, [])
visit passed pending (edit_remove id) = pair_up passed id true pending (find id pending)
visit passed pending (edit_add id) = pair_up passed id false pending (find id pending)

-- What the loop pushes to `clock_delta_data_id` and `clock_delta_data_delta`.
unfoldable pub clock_deltas : (passed : List Edit) → Map ℕ → List Edit → List (ℕ × ℕ)
unfolding visit
clock_deltas passed pending [] = []
clock_deltas passed pending (e ∷ es) =
    let (pending', pushed) = visit passed pending e in
    pushed ++ clock_deltas (passed ++ (e ∷ [])) pending' es

-- One vector of ints.
unfoldable pub vector_bytes : (linear_prediction : Bool) → List ℕ → Bytes
unfolding compress_by_linear_prediction int_bytes
vector_bytes true vec = int_bytes (compress_by_linear_prediction (2 ^ 32) vec)
vector_bytes false vec = int_bytes vec

abbrev pub ids : List (ℕ × ℕ) → List ℕ
ids = map (λ m. m.0)

abbrev pub deltas : List (ℕ × ℕ) → List ℕ
deltas = map (λ m. m.1)

unfoldable pub convert_to_diff_binary : (linear_prediction : Bool) (diff : List Edit) → Bytes
unfolding clock_deltas vector_bytes
convert_to_diff_binary linear_prediction diff =
    let moves = clock_deltas [] [] (reverse diff) in
    vector_bytes linear_prediction (ids moves) ++ vector_bytes linear_prediction (deltas moves)

-- `compress`: its bytes, whose number is `compressed_bytes`.
unfoldable pub compress :
    (bit_behind linear_prediction : Bool) (msg_ids_clocked msg_ids_observed : List ℕ) → Run Bytes
unfolding compress_loop initial add_node convert_to_diff_reversed change_to_seq_order_id
    convert_to_diff_binary
compress bit_behind linear_prediction clocked observed =
    compress_loop bit_behind clocked 0 observed (initial clocked) >>= λ s.
    change_to_seq_order_id observed s.map_clock_to_order (
      convert_to_diff_reversed (add_node (length clocked) (length clocked) s.start_column s.leaves))
    >>= λ diff. ok (convert_to_diff_binary linear_prediction diff)
