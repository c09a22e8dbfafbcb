-- ===== src/Request/Select.antt =====
-- src/rempi/rempi_request_mg.cpp: the id of the matching set of a call, when recording and replaying.
pub mod Consistent
pub mod Agreed
pub mod Mapped
pub mod Refused
use re_mpi.Common.{
  ℕ, Bool, true, false, Option, none, some, List, [], ◌∷◌, ◌==◌, ◌&&◌, not, Run, ok, abort, ◌>>=◌,
  if◌then◌else◌,
}
use re_mpi.Common.Maps.{Map, find, put}
use re_mpi.Request.{
  Config, Requests, RecvArgs, unknown, call_unknown, get_msg_id, add_comm_and_tag_to_mpi_call_id,
  mode_record, mode_replay,
}
use re_mpi.Request.Assign.{
  assign_matching_set_id_to_recv, assign_matching_set_id, map_comm_and_tag_to_matching_set_id,
}

pub data CallType : Type 0 where
  send : CallType
  recv : CallType
  mf : CallType

-- What the calls return through pointers: the id of the set and of the call. They come in with what the
-- caller's variables hold.
pub record Ids : Type 0 where
  pub matching_set_id : ℕ
  pub mpi_call_id : ℕ

-- `get_matching_set_id_from`: whether every message asked for has a set, the id, and the state, in which
-- communicators may have got their ids.
pub record From : Type 0 where
  pub exists : Bool
  pub matching_set_id : ℕ
  pub state : Requests

-- A turn of its loop: a message without a set ends the loop.
pub data Turn : Type 0 where
  missing : Requests → Turn
  found : (is_set : Bool) (matching_set_id : ℕ) → Requests → Turn

unfoldable pub from_set : (is_set : Bool) (id : ℕ) → Option ℕ → Requests → Run Turn
from_set is_set id none s = ok (missing s)
from_set is_set id (some tmp) s = if is_set && not (tmp == id) then abort else ok (found true tmp s)

unfoldable pub from_request : (is_set : Bool) (id : ℕ) → Option RecvArgs → Requests → Run Turn
unfolding from_set find get_msg_id
from_request is_set id none s = ok (found is_set id s)
from_request is_set id (some a) s =
    get_msg_id a.comm a.tag s >>= λ e. from_set is_set id (find e.0 e.1.set_of_msg) e.1

unfoldable pub after_turn : (id : ℕ) → Turn → (Bool → ℕ → Requests → Run From) → Run From
after_turn id (missing s) next = ok (record { exists = false; matching_set_id = id; state = s })
after_turn id (found b i s) next = next b i s

unfoldable pub from_requests : List ℕ → (is_set : Bool) (id : ℕ) → Requests → Run From
unfolding from_request after_turn find
from_requests [] is_set id s = ok (record { exists = true; matching_set_id = id; state = s })
from_requests (r ∷ rs) is_set id s =
    from_request is_set id (find r s.recv_args) s >>= λ turn. after_turn id turn (from_requests rs)

unfoldable pub from_message : (id : ℕ) → Option ℕ → Requests → From
from_message id none s = record { exists = false; matching_set_id = id; state = s }
from_message id (some found_id) s = record { exists = true; matching_set_id = found_id; state = s }

-- `id` is what the caller's variable holds.
unfoldable pub get_matching_set_id_from :
    CallType → (tag comm id : ℕ) → List ℕ → Requests → Run From
unfolding from_requests from_message get_msg_id find
get_matching_set_id_from recv tag comm id rs s =
    get_msg_id comm tag s >>= λ e. ok (from_message id (find e.0 e.1.set_of_msg) e.1)
get_matching_set_id_from mf tag comm id rs s = from_requests rs false id s
get_matching_set_id_from send tag comm id rs s =
    ok (record { exists = true; matching_set_id = unknown; state = s })

-- `rempi_reqmg_get_matching_set_id_3` and `_1`. `call_id` is what `get_mpi_call_id` takes from the stack
-- of the application's call.
unfoldable pub known_or_not : CallType → (comm tag call_id : ℕ) → Requests → Run Requests
unfolding add_comm_and_tag_to_mpi_call_id
known_or_not recv comm tag call_id s = add_comm_and_tag_to_mpi_call_id call_id comm tag s
known_or_not _ comm tag call_id s = ok s

unfoldable pub map_and_return : (call_id : ℕ) → List ℕ → ℕ × Requests → Run (Ids × Requests)
unfolding map_comm_and_tag_to_matching_set_id
map_and_return call_id rs e = map_comm_and_tag_to_matching_set_id rs e.0 e.1 >>= λ t.
    ok (record { matching_set_id = e.0; mpi_call_id = call_id }, t)

unfoldable pub new_or_known :
    Config → (call_id : ℕ) → List ℕ → (exists : Bool) → From → Run (Ids × Requests)
unfolding assign_matching_set_id map_and_return
new_or_known c call_id rs true from =
    ok (record { matching_set_id = from.matching_set_id; mpi_call_id = call_id }, from.state)
new_or_known c call_id rs false from =
    assign_matching_set_id c call_id rs from.state >>= map_and_return call_id rs

unfoldable pub map_new : Config → (call_id : ℕ) → List ℕ → From → Run (Ids × Requests)
unfolding new_or_known
map_new c call_id rs from = new_or_known c call_id rs from.exists from

unfoldable pub record_3 :
    Config
    → CallType
    → (tag comm call_id : ℕ) → List ℕ
    → Ids
    → Option ℕ
    → Requests
    → Run (Ids × Requests)
unfolding assign_matching_set_id_to_recv get_matching_set_id_from map_new
record_3 c type tag comm call_id rs ids (some id) s =
    assign_matching_set_id_to_recv c id rs s >>= λ t.
    ok (record { matching_set_id = id; mpi_call_id = call_id }, t)
record_3 c mf tag comm call_id rs ids none s =
    get_matching_set_id_from mf tag comm ids.matching_set_id rs s >>= map_new c call_id rs
record_3 c _ tag comm call_id rs ids none s =
    ok (record { matching_set_id = unknown; mpi_call_id = call_id }, s)

unfoldable pub found_or_abort : From → Run (Ids × Requests)
found_or_abort from =
    if from.exists
    then ok
        (record { matching_set_id = from.matching_set_id; mpi_call_id = call_unknown }, from.state)
    else abort

unfoldable pub get_matching_set_id_3 :
    Config → CallType → (tag comm call_id : ℕ) → List ℕ → Ids → Requests → Run (Ids × Requests)
unfolding known_or_not record_3 found_or_abort get_matching_set_id_from find
get_matching_set_id_3 c type tag comm call_id rs ids s =
    if c.mode == mode_record
    then (known_or_not type comm tag call_id s >>= λ t.
        record_3 c type tag comm call_id rs ids (find call_id t.set_of_call) t)
    else if c.mode == mode_replay
    then get_matching_set_id_from type tag comm ids.matching_set_id rs s >>= found_or_abort
    else abort

unfoldable pub assign_1 :
    Config → CallType → (call_id : ℕ) → List ℕ → Option ℕ → Requests → Run (Ids × Requests)
unfolding assign_matching_set_id_to_recv assign_matching_set_id
assign_1 c type call_id rs (some id) s =
    (if c.mode == mode_record then assign_matching_set_id_to_recv c id rs s else ok s) >>= λ t.
    ok (record { matching_set_id = id; mpi_call_id = call_id }, t)
assign_1 c mf call_id rs none s = assign_matching_set_id c call_id rs s >>= λ e.
    ok (record { matching_set_id = e.0; mpi_call_id = call_id }, e.1)
assign_1 c _ call_id rs none s = ok (record { matching_set_id = unknown; mpi_call_id = call_id }, s)

unfoldable pub get_matching_set_id_1 :
    Config → CallType → (call_id : ℕ) → List ℕ → Requests → Run (Ids × Requests)
unfolding assign_1 find
get_matching_set_id_1 c type call_id rs s =
    assign_1 c type call_id rs (find call_id s.set_of_call) s

unfoldable pub get_matching_set_id_2 : CallType → Ids → Requests → Run (Ids × Requests)
get_matching_set_id_2 send ids s = abort
get_matching_set_id_2 recv ids s = ok (ids, s)
get_matching_set_id_2 mf ids s = ok (ids, s)

-- `rempi_reqmg_assign_and_get_matching_set_id`.
unfoldable pub assign_and_get_matching_set_id :
    Config → CallType → (tag comm call_id : ℕ) → List ℕ → Ids → Requests → Run (Ids × Requests)
unfolding get_matching_set_id_3 get_matching_set_id_1 get_matching_set_id_2
assign_and_get_matching_set_id c type tag comm call_id rs ids s =
    if c.is_test_id == 1
    then get_matching_set_id_3 c type tag comm call_id rs ids s
    else if c.is_test_id == 2
    then get_matching_set_id_1 c type call_id rs s
    else if c.is_test_id == 3
    then get_matching_set_id_2 type ids s
    else ok (record ids { matching_set_id = 0 }, s)
