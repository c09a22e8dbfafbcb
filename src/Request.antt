-- ===== src/Request.antt =====
-- src/rempi/rempi_request_mg.cpp and the ids of communicators of rempi_mpi_init.cpp: what ReMPI keeps
-- of the requests of its process.
pub mod MsgId
pub mod Assign
pub mod Select
pub mod Register
pub mod Info
pub mod Merge
pub mod Replay
use re_mpi.Common.{
  ℕ, ◌+◌, ◌*◌, ◌%◌, ◌^◌, Bool, true, false, Option, none, some, List, [], ◌∷◌, ◌==◌, ltb, Run, ok,
  abort, ◌>>=◌, if◌then◌else◌,
}
use re_mpi.Common.Maps.{Map, find, put}

-- Communicators and requests are MPI's handles, 0 for NULL; an `int` is its 32-bit pattern.
-- REMPI_REQMG_MATCHING_SET_ID_UNKNOWN is -2, REMPI_REQMG_MPI_CALL_ID_UNKNOWN is -1.
abbrev pub unknown : ℕ
unknown = 4294967294

abbrev pub call_unknown : ℕ
call_unknown = 4294967295

-- REMPI_ENV_REMPI_MODE_RECORD and REPLAY; REMPI_ENV_REMPI_ENCODE_CDC and REP.
abbrev pub mode_record : ℕ
mode_record = 0

abbrev pub mode_replay : ℕ
mode_replay = 1

-- `rempi_mode`, `rempi_encode`, REMPI_LITE, `rempi_is_test_id` and MPI_REQUEST_NULL.
pub record Config : Type 0 where
  pub mode : ℕ
  pub encode : ℕ
  pub lite : Bool
  pub is_test_id : ℕ
  pub null_request : ℕ

pub record RecvArgs : Type 0 where
  pub buffer : ℕ
  pub count : ℕ
  pub datatype : ℕ
  pub source : ℕ
  pub tag : ℕ
  pub comm : ℕ
  pub request : ℕ
  pub mpi_call_id : ℕ
  pub matching_set_id : ℕ

pub record SendArgs : Type 0 where
  pub dest : ℕ
  pub clock : ℕ

-- `named_comm_set` with the number that each communicator has as its name, and `next_comm_id`. A name
-- set by PMPI_Comm_set_name is what PMPI_Comm_get_name returns: nobody else names communicators.
pub record Comms : Type 0 where
  pub named : Map ℕ
  pub next_comm_id : ℕ

-- `mpi_call_id_to_matching_set_id`, `comm_tag_to_matching_set_id`, `mpi_call_id_to_comm_tag_umap`,
-- `request_to_recv_args_umap` and `request_to_send_id_umap`.
pub record Requests : Type 0 where
  pub comms : Comms
  pub set_of_call : Map ℕ
  pub set_of_msg : Map ℕ
  pub msgs_of_call : Map (List ℕ)
  pub recv_args : Map RecvArgs
  pub send_args : Map SendArgs

-- The id of a communicator is the name that ReMPI gave it, read back. The application could set another
-- name; it is taken to leave names as they are.
unfoldable pub comm_get_id : ℕ → Comms → Run (ℕ × Comms)
unfolding find put
comm_get_id comm c = if comm == 0 then abort else elim (find comm c.named) [
  | some id ↦ ok (id, c)
  | none ↦ ok (
    c.next_comm_id,
    record {
      named = put comm c.next_comm_id c.named;
      next_comm_id = (c.next_comm_id + 1) % 2 ^ 32;
    },
  )
]

-- `(size_t) comm_id << 32 | tag`. A negative tag is extended with ones before the `|`, and an `int`'s
-- upper half is shifted out.
unfoldable pub msg_id : (comm_id tag : ℕ) → ℕ
msg_id comm_id tag =
    if ltb tag 2147483648 then comm_id * 4294967296 + tag else 18446744069414584320 + tag

unfoldable pub get_msg_id : (comm tag : ℕ) → Requests → Run (ℕ × Requests)
unfolding comm_get_id msg_id
get_msg_id comm tag s =
    comm_get_id comm s.comms >>= λ e. ok (msg_id e.0 tag, record s { comms = e.1 })

-- A size_t that an unordered_set holds is not inserted again.
unfoldable pub insert_new : ℕ → List ℕ → List ℕ
insert_new m [] = m ∷ []
insert_new m (k ∷ ms) = if k == m then k ∷ ms else k ∷ insert_new m ms

unfoldable pub msgs_or_new : Option (List ℕ) → List ℕ
msgs_or_new none = []
msgs_or_new (some ms) = ms

-- The id of the communicator that the code asks for first is not used: asking again for the message's
-- id gives the same.
unfoldable pub add_comm_and_tag_to_mpi_call_id :
    (mpi_call_id comm tag : ℕ) → Requests → Run Requests
unfolding get_msg_id comm_get_id insert_new msgs_or_new find put
add_comm_and_tag_to_mpi_call_id mpi_call_id comm tag s = get_msg_id comm tag s >>= λ e.
    ok (record e.1 {
      msgs_of_call =
          put mpi_call_id (insert_new e.0 (msgs_or_new (find mpi_call_id s.msgs_of_call)))
            s.msgs_of_call;
    })
