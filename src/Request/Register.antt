-- ===== src/Request/Register.antt =====
-- src/rempi/rempi_request_mg.cpp: requests that are registered, asked for and deregistered.
pub mod RoundTrip
use re_mpi.Common.{
  ℕ, Bool, Option, none, some, List, [], ◌∷◌, ◌==◌, if◌then◌else◌, Run, ok, abort, ◌>>=◌,
}
use re_mpi.Common.Maps.{Map, find, put, erase}
use re_mpi.Request.{
  Config, Requests, RecvArgs, SendArgs, unknown, get_msg_id, add_comm_and_tag_to_mpi_call_id,
}
use re_mpi.Request.Select.{CallType, send, recv, mf, Ids, assign_and_get_matching_set_id}

-- REMPI_SEND_REQUEST, REMPI_RECV_REQUEST, REMPI_NULL_REQUEST and REMPI_IGNR_REQUEST.
abbrev pub send_request : ℕ
send_request = 151

abbrev pub recv_request : ℕ
recv_request = 152

abbrev pub null_request : ℕ
null_request = 153

abbrev pub ignr_request : ℕ
ignr_request = 154

-- What a call of MPI_Irecv or MPI_Isend passes on.
pub record Call : Type 0 where
  pub buffer : ℕ
  pub count : ℕ
  pub datatype : ℕ
  pub rank : ℕ
  pub tag : ℕ
  pub comm : ℕ
  pub request : ℕ

unfoldable pub recv_args_of : Call → Ids → RecvArgs
recv_args_of call ids = record {
  buffer = call.buffer;
  count = call.count;
  datatype = call.datatype;
  source = call.rank;
  tag = call.tag;
  comm = call.comm;
  request = call.request;
  mpi_call_id = ids.mpi_call_id;
  matching_set_id = ids.matching_set_id;
}

-- `ids` is what the caller's variables hold.
unfoldable pub register_recv_request :
    Config → Call → (call_id : ℕ) → Ids → Requests → Run (ℕ × Requests)
unfolding assign_and_get_matching_set_id recv_args_of put
register_recv_request c call call_id ids s =
    assign_and_get_matching_set_id c recv call.tag call.comm call_id [] ids s >>= λ e. ok (
      e.0.matching_set_id,
      record e.1 { recv_args = put call.request (recv_args_of call e.0) e.1.recv_args },
    )

unfoldable pub register_send_request : Call → (local_clock : ℕ) → Requests → Requests
unfolding put
register_send_request call local_clock s = record s {
  send_args = put call.request (record { dest = call.rank; clock = local_clock }) s.send_args;
}

-- The id that `*matching_set_id` gets, and the state.
unfoldable pub register_request :
    Config
    → (request_type : ℕ) → Call
    → (local_clock call_id : ℕ) → Ids
    → Requests
    → Run (ℕ × Requests)
unfolding register_recv_request register_send_request
register_request c request_type call local_clock call_id ids s =
    if request_type == send_request
    then ok (unknown, register_send_request call local_clock s)
    else if request_type == recv_request
    then register_recv_request c call call_id ids s
    else abort

-- `erase` says how many entries it has erased.
unfoldable pub deregister_recv : ℕ → Option RecvArgs → Requests → Run Requests
unfolding erase
deregister_recv request none s = abort
deregister_recv request (some a) s = ok (record s { recv_args = erase request s.recv_args })

unfoldable pub deregister_send : ℕ → Option SendArgs → Requests → Run Requests
unfolding erase
deregister_send request none s = abort
deregister_send request (some a) s = ok (record s { send_args = erase request s.send_args })

unfoldable pub deregister_request : (request request_type : ℕ) → Requests → Run Requests
unfolding deregister_recv deregister_send find
deregister_request request request_type s =
    if request_type == send_request
    then deregister_send request (find request s.send_args) s
    else if request_type == recv_request
    then deregister_recv request (find request s.recv_args) s
    else ok s

-- A missing request throws out of `at`.
unfoldable pub report_to : Option RecvArgs → (status_tag : ℕ) → Requests → Run Requests
unfolding add_comm_and_tag_to_mpi_call_id
report_to none status_tag s = abort
report_to (some a) status_tag s = add_comm_and_tag_to_mpi_call_id a.mpi_call_id a.comm status_tag s

unfoldable pub report_message_matching : (request status_tag : ℕ) → Requests → Run Requests
unfolding report_to find
report_message_matching request status_tag s = report_to (find request s.recv_args) status_tag s

-- `rempi_reqmg_get_send_request_clock`, `rempi_reqmg_get_send_request_dest` and `rempi_reqmg_get_buffer`.
unfoldable pub get_send_request_clock : (request : ℕ) → Requests → Run ℕ
unfolding find
get_send_request_clock request s = elim (find request s.send_args) [
  | none ↦ abort
  | some a ↦ ok a.clock
]

unfoldable pub get_send_request_dest : (request : ℕ) → Requests → Run ℕ
unfolding find
get_send_request_dest request s = elim (find request s.send_args) [
  | none ↦ abort
  | some a ↦ ok a.dest
]

unfoldable pub get_buffer : (request : ℕ) → Requests → Run ℕ
unfolding find
get_buffer request s = elim (find request s.recv_args) [ none ↦ abort | some a ↦ ok a.buffer ]

-- `rempi_reqmg_get_matching_set_id`, the lookup for an incoming message.
unfoldable pub get_matching_set_id : Config → (tag comm : ℕ) → Requests → Run (ℕ × Requests)
unfolding get_msg_id find
get_matching_set_id c tag comm s =
    if c.is_test_id == 0
    then ok (0, s)
    else get_msg_id comm tag s >>= λ e. elim (find e.0 e.1.set_of_msg) [
      | none ↦ abort
      | some id ↦ ok (id, e.1)
    ]

-- `rempi_reqmg_store_send_statuses`: the MPI_SOURCE of each status, given `request_info`.
unfoldable pub store_source : (info request source : ℕ) → Requests → Run ℕ
unfolding find
store_source info request source s =
    if info == send_request
    then elim (find request s.send_args) [ none ↦ abort | some a ↦ ok a.dest ]
    else ok source

unfoldable pub store_send_statuses :
    (requests request_info sources : List ℕ) → Requests → Run (List ℕ)
unfolding store_source
store_send_statuses (r ∷ rs) (i ∷ is) (m ∷ ms) s =
    store_source i r m s >>= λ source. store_send_statuses rs is ms s >>= λ rest. ok (source ∷ rest)
store_send_statuses _ _ ms s = ok ms
