-- ===== src/Cdc/Indices.antt =====
-- src/rempi/rempi_encoder_cdc.cpp: `cdc_prepare_decode_indices`, and the ints that `decode` gives it.
pub mod Moved
pub mod Render
pub mod Round
pub mod Visit
pub mod Loop
use re_mpi.Common.{
  ℕ, zero, suc, ◌+◌, ◌-◌, ◌%◌, ◌^◌, ◌<◌, Bool, true, false, Option, none, some, List, [], ◌∷◌, ◌++◌,
  map, ◌==◌, ltb, leb, if◌then◌else◌, length, set, replicate, Run, ok, abort, ◌>>=◌,
}

-- A node of `permutated_indices_list`: one of the first loop, at which the iterators of
-- `permutated_indices_it_map` are, or one that `insert` has made.
pub data Cell : Type 0 where
  original : ℕ → Cell
  inserted : ℕ → Cell

unfoldable pub value : Cell → ℕ
value (original v) = v
value (inserted v) = v

unfoldable pub is_at : (id : ℕ) → Cell → Bool
is_at id (original v) = v == id
is_at id (inserted v) = false

-- A list with an iterator in it: the nodes before it, the nearest first, and the others.
abbrev pub At : Type 0
At = List Cell × List Cell

-- `erase` at the iterator of an id. The iterator of a node that is erased already is not valid.
unfoldable pub erase_id : (id : ℕ) (before : List Cell) → List Cell → Run At
unfolding is_at
erase_id id before [] = abort
erase_id id before (c ∷ cs) = if is_at id c then ok (before, cs) else erase_id id (c ∷ before) cs

-- `advance` by a number, and back. It must stay in the list.
unfoldable pub forward : ℕ → At → Run At
forward zero at = ok at
forward (suc n) (before, []) = abort
forward (suc n) (before, c ∷ cs) = forward n (c ∷ before, cs)

unfoldable pub backward : ℕ → At → Run At
backward zero at = ok at
backward (suc n) ([], cs) = abort
backward (suc n) (c ∷ before, cs) = backward n (before, c ∷ cs)

-- `advance` by an int.
unfoldable pub advance : (delay : ℕ) → At → Run At
unfolding forward backward
advance delay at = if ltb delay (2 ^ 31) then forward delay at else backward (2 ^ 32 - delay) at

unfoldable pub rewind : List Cell → List Cell → List Cell
rewind [] cs = cs
rewind (c ∷ before) cs = rewind before (c ∷ cs)

-- One round of the loop over the ids and the delays.
unfoldable pub permutate : (id delay : ℕ) → List Cell → Run (List Cell)
unfolding erase_id advance rewind
permutate id delay cells =
    erase_id id [] cells >>= advance delay >>= λ at. ok (rewind at.0 (inserted id ∷ at.1))

-- The loop, over two vectors of the same length.
unfoldable pub permutate_all : List (ℕ × ℕ) → List Cell → Run (List Cell)
unfolding permutate
permutate_all [] cells = ok cells
permutate_all ((id, delay) ∷ moves) cells = permutate id delay cells >>= permutate_all moves

unfoldable pub sequential : (first count : ℕ) → List Cell
sequential first zero = []
sequential first (suc count) = original first ∷ sequential (suc first) count

-- The loop that memorizes the iterators: `advance` by the difference of two ids, from the begin.
unfoldable pub memorize : (count : ℕ) → List ℕ → Run (Unit {0})
memorize count [] = ok tt
memorize count (id ∷ ids) = if leb count id then abort else memorize count ids

-- The last loop: each value's place in the list.
unfoldable pub indices : (sequence : ℕ) → List Cell → List ℕ → List ℕ
unfolding value
indices sequence [] vec = vec
indices sequence (c ∷ cs) vec = indices (suc sequence) cs (set vec (value c) sequence)

-- `(int)matched_events_id_vec[i]`
abbrev pub to_int : ℕ → ℕ
to_int x = x % 2 ^ 32

-- The two vectors have the same length, which `decode` has checked.
unfoldable pub zip : List ℕ → List ℕ → List (ℕ × ℕ)
zip [] ys = []
zip (x ∷ xs) [] = []
zip (x ∷ xs) (y ∷ ys) = (x, y) ∷ zip xs ys

unfoldable pub cdc_prepare_decode_indices :
    (matched_event_count : ℕ) (matched_events_id_vec matched_events_delay_vec : List ℕ)
    → Run (List ℕ)
unfolding memorize permutate_all sequential indices zip
cdc_prepare_decode_indices count id_vec delay_vec = memorize count (map to_int id_vec) >>= λ _.
    permutate_all (zip (map to_int id_vec) (map to_int delay_vec)) (sequential 0 count) >>= λ cells.
    ok (indices 0 cells (replicate count 0))
