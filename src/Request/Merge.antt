-- ===== src/Request/Merge.antt =====
-- src/rempi/rempi_request_mg.cpp: the table of matching sets that a record ends with.
pub mod Together
pub mod Footer
use re_mpi.Common.{
  ℕ, Option, none, some, List, [], ◌∷◌, ◌==◌, not, if◌then◌else◌, map, Run, ok, abort, ◌>>=◌,
}
use re_mpi.Common.Maps.{Map, find, put}
use re_mpi.Request.{Config, Requests, msgs_or_new}
use re_mpi.Request.Info.{encode_rep}

-- The loop of `change_matching_set_id`: it assigns to keys that are there, each to its own.
unfoldable pub change_ids : (old_id new_id : ℕ) → Map ℕ → Map ℕ
change_ids old_id new_id [] = []
change_ids old_id new_id ((m, id) ∷ ms) =
    (m, (if old_id == id then new_id else id)) ∷ change_ids old_id new_id ms

unfoldable pub change_matching_set_id : Config → (old_id new_id : ℕ) → Map ℕ → Run (Map ℕ)
unfolding change_ids
change_matching_set_id c old_id new_id ms =
    if not (c.encode == encode_rep) then abort else ok (change_ids old_id new_id ms)

-- One turn of `assign_matching_set_id_to_msg_id`, with the set that the message has.
unfoldable pub assign_msg : Config → (msg matching_set_id : ℕ) → Option ℕ → Map ℕ → Run (Map ℕ)
unfolding change_matching_set_id put
assign_msg c msg matching_set_id none ms = ok (put msg matching_set_id ms)
assign_msg c msg matching_set_id (some old) ms =
    (if old == matching_set_id then ok ms else change_matching_set_id c old matching_set_id ms)
    >>= λ t. ok (put msg matching_set_id t)

unfoldable pub assign_msgs : Config → (matching_set_id : ℕ) → List ℕ → Map ℕ → Run (Map ℕ)
unfolding assign_msg find
assign_msgs c matching_set_id [] ms = ok ms
assign_msgs c matching_set_id (m ∷ rest) ms =
    assign_msg c m matching_set_id (find m ms) ms >>= assign_msgs c matching_set_id rest

-- `assign_matching_set_id_to_msg_id` for each call of the table.
unfoldable pub assign_calls : Config → Map (List ℕ) → Map ℕ → Map ℕ → Run (Map ℕ)
unfolding assign_msgs msgs_or_new find
assign_calls c msgs_of_call [] ms = ok ms
assign_calls c msgs_of_call ((call_id, set_id) ∷ calls) ms =
    assign_msgs c set_id (msgs_or_new (find call_id msgs_of_call)) ms
    >>= assign_calls c msgs_of_call calls

-- `rempi_reqmg_get_matching_set_id_map`: the two arrays are the entries' two halves.
unfoldable pub get_matching_set_id_map : Config → Requests → Run (Map ℕ)
unfolding assign_calls
get_matching_set_id_map c s = assign_calls c s.msgs_of_call s.set_of_call s.set_of_msg

-- `rempi_reqmg_set_matching_set_id_map`, from two arrays of the same length.
unfoldable pub set_ids : (msg_ids matching_set_ids : List ℕ) → Map ℕ → Map ℕ
unfolding put
set_ids (m ∷ ms) (i ∷ is) t = set_ids ms is (put m i t)
set_ids _ _ t = t

unfoldable pub set_matching_set_id_map : (msg_ids matching_set_ids : List ℕ) → Requests → Requests
unfolding set_ids
set_matching_set_id_map msg_ids matching_set_ids s = record s {
  set_of_msg = set_ids msg_ids matching_set_ids s.set_of_msg;
}
