-- ===== src/ClockDelta/Compress.antt =====
-- src/rempi/rempi_clock_delta_compression.cpp: `compress` up to the diff. An event is its
-- `clock_order`; the map `msg_ids_clocked` is the list of its events in the order of its keys, and an
-- iterator of it is a position.
pub mod Orders
pub mod Loop
pub mod Diff
use re_mpi.Common.{
  ℕ, zero, suc, ◌+◌, Bool, true, false, ◌&&◌, Option, none, some, List, [], ◌∷◌, ◌==◌, ltb,
  if◌then◌else◌, length, get_elem?, set, drop, replicate, Run, ok, abort, ◌>>=◌,
}
use re_mpi.Common.Maps.{Map, find, put}
use re_mpi.ClockDelta.{
  Chain, add_node, Edit, edit_ignore, edit_remove, edit_add, convert_to_diff_reversed,
}

-- The variables of the loop. `search_column` is none where the code has -1.
pub record Search : Type 0 where
  pub search_it : ℕ
  pub start_it : ℕ
  pub search_column : Option ℕ
  pub start_column : ℕ
  pub matched_bits : List Bool
  pub leaves : List Chain
  pub map_clock_to_order : Map ℕ

-- An iterator and its column.
unfoldable pub next_start_search_it :
    (up_clock left_clock search_it start_it : ℕ) → Option ℕ → (start_column : ℕ) → ℕ × ℕ
next_start_search_it up_clock left_clock search_it start_it none start_column =
    (start_it, start_column)
next_start_search_it up_clock left_clock search_it start_it (some column) start_column =
    if ltb left_clock up_clock then (start_it, start_column) else (search_it + 1, column + 1)

-- How many events are passed until one matches.
unfoldable pub find_matched_clock_column : (left_clock : ℕ) → List ℕ → Run ℕ
find_matched_clock_column left_clock [] = abort
find_matched_clock_column left_clock (up ∷ ups) =
    if left_clock == up
    then ok 0
    else find_matched_clock_column left_clock ups >>= λ count. ok (suc count)

-- How far the loop of `update_start_it` goes in the vector.
unfoldable pub leading : List Bool → ℕ
leading [] = 0
leading (false ∷ bits) = 0
leading (true ∷ bits) = suc (leading bits)

-- The rest of a turn, with the matched column.
unfoldable pub match_at : (row left_clock column search_it : ℕ) → Search → Search
unfolding add_node leading put
match_at row left_clock column search_it s =
    let bits = set s.matched_bits column true in
    let passed = leading (drop s.start_column bits) in
    record {
      search_it = search_it;
      start_it = s.start_it + passed;
      search_column = some column;
      start_column = s.start_column + passed;
      matched_bits = bits;
      leaves = add_node row column s.start_column s.leaves;
      map_clock_to_order = put left_clock column s.map_clock_to_order;
    }

-- The bit that `update_start_it` reads behind the vector when it has passed all of it. Nothing sets
-- that bit: it is a parameter, `bit_behind`, unset where the bit lies in the storage of the vector and
-- is 0. Otherwise the read is undefined, or it takes the iterator behind the end of the map.
abbrev pub unset : Bool
unset = false

unfoldable pub read_behind : (bit_behind : Bool) → Search → Run Search
read_behind bit_behind s =
    if bit_behind && s.start_column == length s.matched_bits then abort else ok s

-- The search from an iterator and its column on.
unfoldable pub search_from :
    (bit_behind : Bool) (clocked : List ℕ) (row left_clock : ℕ) → ℕ × ℕ → Search → Run Search
unfolding find_matched_clock_column match_at read_behind
search_from bit_behind clocked row left_clock from s =
    find_matched_clock_column left_clock (drop from.0 clocked) >>= λ count.
    read_behind bit_behind (match_at row left_clock (from.1 + count) (from.0 + count) s)

-- `msg_ids_clocked_search_it->second` behind the end is undefined.
unfoldable pub compress_one :
    (bit_behind : Bool) (clocked : List ℕ) (row left_clock : ℕ) → Option ℕ → Search → Run Search
unfolding next_start_search_it search_from
compress_one bit_behind clocked row left_clock none s = abort
compress_one bit_behind clocked row left_clock (some up_clock) s =
    search_from bit_behind clocked row left_clock
      (next_start_search_it up_clock left_clock s.search_it s.start_it s.search_column
        s.start_column)
      s

unfoldable pub compress_loop :
    (bit_behind : Bool) (clocked : List ℕ) (row : ℕ) (observed : List ℕ) → Search → Run Search
unfolding compress_one
compress_loop bit_behind clocked row [] s = ok s
compress_loop bit_behind clocked row (left ∷ observed) s =
    compress_one bit_behind clocked row left (get_elem? clocked s.search_it) s
    >>= compress_loop bit_behind clocked (suc row) observed

unfoldable pub initial : (clocked : List ℕ) → Search
initial clocked = record {
  search_it = 0;
  start_it = 0;
  search_column = none;
  start_column = 0;
  matched_bits = replicate (length clocked) false;
  leaves = [];
  map_clock_to_order = [];
}

-- `compress` up to `convert_to_diff_reversed`.
unfoldable pub compress_to_diff : (bit_behind : Bool) (clocked observed : List ℕ) → Run (List Edit)
unfolding compress_loop initial convert_to_diff_reversed add_node
compress_to_diff bit_behind clocked observed =
    compress_loop bit_behind clocked 0 observed (initial clocked) >>= λ s.
    ok (
      convert_to_diff_reversed (add_node (length clocked) (length clocked) s.start_column s.leaves))

-- `change_to_seq_order_id`: `operator []` of a map gives 0 for a key that it does not have.
unfoldable pub order_of : Option ℕ → ℕ
order_of none = 0
order_of (some order) = order

unfoldable pub seq_order_id : (observed : List ℕ) → Map ℕ → Edit → Run Edit
unfolding find order_of
seq_order_id observed orders (edit_add row) = elim (get_elem? observed row) [
  | none ↦ abort
  | some clock_order ↦ ok (edit_add (order_of (find clock_order orders)))
]
seq_order_id observed orders edit = ok edit

unfoldable pub change_to_seq_order_id : (observed : List ℕ) → Map ℕ → List Edit → Run (List Edit)
unfolding seq_order_id
change_to_seq_order_id observed orders [] = ok []
change_to_seq_order_id observed orders (e ∷ es) = seq_order_id observed orders e >>= λ f.
    change_to_seq_order_id observed orders es >>= λ fs. ok (f ∷ fs)
