-- ===== src/Request/Assign.antt =====
-- src/rempi/rempi_request_mg.cpp: matching sets. Receives that one matching function may test have one
-- id, so that their messages are replayed together.
use re_mpi.Common.{
  ℕ, Bool, true, false, Option, none, some, List, [], ◌∷◌, ◌==◌, ◌&&◌, not, Run, ok, abort, ◌>>=◌,
  if◌then◌else◌,
}
use re_mpi.Common.Maps.{find, put}
use re_mpi.Request.{Config, Requests, RecvArgs, SendArgs, unknown, get_msg_id}

unfoldable pub has {ℓ} : {V : Type ℓ} → Option V → Bool
has none = false
has (some v) = true

-- `rempi_reqmg_get_matching_id`, of what the table has for the request: what was registered.
unfoldable pub get_matching_id : Option RecvArgs → Run RecvArgs
get_matching_id none = abort
get_matching_id (some a) = ok a

-- One turn of `rempi_reqmg_assign_matching_set_id_to_recv`.
unfoldable pub assign_to_args : (matching_set_id request : ℕ) → RecvArgs → Requests → Requests
unfolding put
assign_to_args matching_set_id request a s =
    if a.matching_set_id == unknown
    then record s {
      recv_args = put request (record a { matching_set_id = matching_set_id }) s.recv_args;
      set_of_call = put a.mpi_call_id matching_set_id s.set_of_call;
    }
    else s

unfoldable pub assign_to_one :
    Config → (matching_set_id request : ℕ) → Option RecvArgs → Requests → Run Requests
unfolding assign_to_args has find
assign_to_one c matching_set_id request none s =
    if not (request == c.null_request) && not (has (find request s.send_args)) then abort else ok s
assign_to_one c matching_set_id request (some a) s = ok (assign_to_args matching_set_id request a s)

unfoldable pub assign_matching_set_id_to_recv :
    Config → (matching_set_id : ℕ) → List ℕ → Requests → Run Requests
unfolding assign_to_one find
assign_matching_set_id_to_recv c matching_set_id [] s = ok s
assign_matching_set_id_to_recv c matching_set_id (r ∷ rs) s =
    assign_to_one c matching_set_id r (find r s.recv_args) s
    >>= assign_matching_set_id_to_recv c matching_set_id rs

-- One turn of `rempi_reqmg_get_matching_set_id_from_recv`: `id` is what the turns before have found.
unfoldable pub from_args : (id : ℕ) → RecvArgs → Run ℕ
from_args id a =
    if a.matching_set_id == unknown
    then ok id
    else if not (id == unknown) && not (id == a.matching_set_id)
    then abort
    else ok a.matching_set_id

unfoldable pub from_one : Option RecvArgs → Option SendArgs → (id : ℕ) → Run ℕ
unfolding from_args
from_one none none id = abort
from_one none (some a) id = ok id
from_one (some a) _ id = from_args id a

unfoldable pub get_matching_set_id_from_recv : List ℕ → (id : ℕ) → Requests → Run ℕ
unfolding from_one find
get_matching_set_id_from_recv [] id s = ok id
get_matching_set_id_from_recv (r ∷ rs) id s =
    from_one (find r s.recv_args) (find r s.send_args) id >>= λ found.
    get_matching_set_id_from_recv rs found s

-- The branch of a call that has no set yet, with the id that its receives have.
unfoldable pub assign_new :
    Config → (mpi_mf_call_id : ℕ) → List ℕ → (found : ℕ) → Requests → Run (ℕ × Requests)
unfolding assign_matching_set_id_to_recv put
assign_new c mpi_mf_call_id rs found s =
    if found == unknown
    then (assign_matching_set_id_to_recv c mpi_mf_call_id rs
          (record s { set_of_call = put mpi_mf_call_id mpi_mf_call_id s.set_of_call })
        >>= λ t. ok (mpi_mf_call_id, t))
    else ok (found, record s { set_of_call = put mpi_mf_call_id found s.set_of_call })

unfoldable pub assign_for :
    Config → (mpi_mf_call_id : ℕ) → Option ℕ → List ℕ → Requests → Run (ℕ × Requests)
unfolding assign_matching_set_id_to_recv assign_new get_matching_set_id_from_recv
assign_for c mpi_mf_call_id (some id) rs s =
    assign_matching_set_id_to_recv c id rs s >>= λ t. ok (id, t)
assign_for c mpi_mf_call_id none rs s =
    get_matching_set_id_from_recv rs unknown s >>= λ found. assign_new c mpi_mf_call_id rs found s

-- `rempi_reqmg_assign_matching_set_id`.
unfoldable pub assign_matching_set_id :
    Config → (mpi_mf_call_id : ℕ) → List ℕ → Requests → Run (ℕ × Requests)
unfolding assign_for find
assign_matching_set_id c mpi_mf_call_id rs s =
    assign_for c mpi_mf_call_id (find mpi_mf_call_id s.set_of_call) rs s

-- One turn of `map_comm_and_tag_to_matching_set_id`, with what is known of the message.
unfoldable pub map_one : (msg matching_set_id : ℕ) → Option ℕ → Requests → Run Requests
unfolding put
map_one msg matching_set_id none s =
    ok (record s { set_of_msg = put msg matching_set_id s.set_of_msg })
map_one msg matching_set_id (some id) s = if id == matching_set_id then ok s else abort

unfoldable pub map_args : (matching_set_id : ℕ) → RecvArgs → Requests → Run Requests
unfolding get_msg_id map_one find
map_args matching_set_id a s =
    get_msg_id a.comm a.tag s >>= λ e. map_one e.0 matching_set_id (find e.0 e.1.set_of_msg) e.1

unfoldable pub map_request : (request matching_set_id : ℕ) → Requests → Run Requests
unfolding get_matching_id map_args find
map_request request matching_set_id s =
    get_matching_id (find request s.recv_args) >>= λ a. map_args matching_set_id a s

unfoldable pub map_comm_and_tag_to_matching_set_id : List ℕ → ℕ → Requests → Run Requests
unfolding map_request
map_comm_and_tag_to_matching_set_id [] matching_set_id s = ok s
map_comm_and_tag_to_matching_set_id (r ∷ rs) matching_set_id s =
    map_request r matching_set_id s >>= map_comm_and_tag_to_matching_set_id rs matching_set_id
