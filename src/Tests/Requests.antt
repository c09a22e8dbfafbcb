-- ===== src/Tests/Requests.antt =====
-- src/rempi/rempi_request_mg.cpp: two receives, their calls, and the footer of a record.
use mathlib.Core.List.{Memᴰ}
use mathlib.Core.Option.{some-injective}
use mathlib.Core.Path.{subst}
use re_mpi.Common.{
  ℕ, ◌≡◌, ◌↔◌, refl, sym, ◌∙◌, inl, inr, false, some, [], ◌∷◌, ok, ◌<◌, ok-injective, arith,
}
use re_mpi.Common.Maps.{Map, find, put}
use re_mpi.Request.{
  Config, Requests, RecvArgs, comm_get_id, msg_id, get_msg_id, insert_new, msgs_or_new,
  add_comm_and_tag_to_mpi_call_id, unknown,
}
use re_mpi.Request.MsgId.{msg_id_iff}
use re_mpi.Request.Merge.{
  change_ids, change_matching_set_id, assign_msg, assign_msgs, assign_calls,
  get_matching_set_id_map,
}
use re_mpi.Request.Merge.Footer.RoundTrip.{IsStorable, Handed, read_footer-write_footer}
use re_mpi.Request.Replay.{Asks, Replayed, record-replay_sets}
use re_mpi.Request.Assign.{
  assign_to_args, assign_to_one, assign_matching_set_id_to_recv, from_args, from_one,
  get_matching_set_id_from_recv, assign_new, assign_for, assign_matching_set_id, map_one, map_args,
  get_matching_id, map_request, map_comm_and_tag_to_matching_set_id,
}
use re_mpi.Request.Info.{get_recv_request_count}
use re_mpi.Request.Info.Counting.{Informed, get_request_info-Informed}
use re_mpi.Request.Register.{
  Call, recv_request, register_request, register_recv_request, recv_args_of,
}
use re_mpi.Request.Register.RoundTrip.{Registered, register_request-Registered}
use re_mpi.Request.Select.{
  From, Ids, mf, assign_and_get_matching_set_id, get_matching_set_id_3, known_or_not, record_3,
  get_matching_set_id_from, from_requests, from_request, from_set, after_turn, map_new,
  new_or_known, map_and_return,
}
use re_mpi.Request.Select.Mapped.{get_matching_set_id_3-again}
use re_mpi.Request.Select.Refused.{get_matching_set_id_3-refuses}

-- The REP encoding (7) when recording (0) and replaying (1).
abbrev recording : Config
recording = record { mode = 0; encode = 7; lite = false; is_test_id = 1; null_request = 50 }

abbrev replaying : Config
replaying = record recording { mode = 1 }

abbrev receive : (tag request set_id : ℕ) → RecvArgs
receive tag request set_id = record {
  buffer = 0;
  count = 1;
  datatype = 0;
  source = 2;
  tag = tag;
  comm = 7;
  request = request;
  mpi_call_id = 90;
  matching_set_id = set_id;
}

-- The communicator 7 has the id 1. Two calls have sets, and share the message with tag 3.
abbrev recorded : Requests
recorded = record {
  comms = record { named = (7, 1) ∷ []; next_comm_id = 2 };
  set_of_call = (11, 11) ∷ (12, 12) ∷ [];
  set_of_msg = (4294967300, 11) ∷ [];
  msgs_of_call = (12, 4294967299 ∷ []) ∷ (11, 4294967299 ∷ 4294967300 ∷ []) ∷ [];
  recv_args = (100, receive 3 100 unknown) ∷ (101, receive 4 101 unknown) ∷ [];
  send_args = [];
}

abbrev fresh : Requests
fresh = record recorded { set_of_call = []; set_of_msg = []; msgs_of_call = [] }

abbrev merged : Map ℕ
merged = (4294967300, 12) ∷ (4294967299, 12) ∷ []

get_matching_set_id_map_run : get_matching_set_id_map recording recorded ≡ ok merged
unfolding get_matching_set_id_map assign_calls assign_msgs assign_msg change_matching_set_id
    change_ids msgs_or_new find put
get_matching_set_id_map_run = refl

merged-IsStorable : IsStorable (0 ∷ 2 ∷ []) merged
unfolding find
merged-IsStorable = record {
  rank_ints = (omega arith, (omega arith, tt));
  rank_count = omega arith;
  distinct = (refl, (refl, tt));
  msg_words = (omega arith, (omega arith, tt));
  set_ints = (omega arith, (omega arith, tt));
  count = omega arith;
}

any-IsStorable :
    (table : Map ℕ)
    → get_matching_set_id_map recording recorded ≡ ok table
    → IsStorable (0 ∷ 2 ∷ []) table
any-IsStorable table h =
    subst (IsStorable (0 ∷ 2 ∷ [])) (ok-injective (sym get_matching_set_id_map_run ∙ h))
      merged-IsStorable

read_footer-write_footer_example : Handed recording ((5 ∷ 6 ∷ []) ∷ []) (0 ∷ 2 ∷ []) recorded fresh
read_footer-write_footer_example =
    read_footer-write_footer recording ((5 ∷ 6 ∷ []) ∷ []) (0 ∷ 2 ∷ []) recorded fresh refl
      ((omega arith, omega arith), tt) any-IsStorable refl

msg_id_iff_example :
    (msg_id 1 4294967295 ≡ msg_id 2 4294967295)
    ↔ (◌≡◌ {A = ℕ} 4294967295 4294967295 × (4294967295 < 2147483648 → ◌≡◌ {A = ℕ} 1 2))
msg_id_iff_example =
    msg_id_iff 1 2 4294967295 4294967295 (omega arith) (omega arith) (omega arith) (omega arith)

abbrev stack_ids : Ids
stack_ids = record { matching_set_id = unknown; mpi_call_id = 0 }

receive-Asks :
    (a : RecvArgs) → find 101 fresh.recv_args ≡ some a → Asks fresh (4294967299 ∷ 4294967300 ∷ []) a
unfolding find msg_id
receive-Asks a h =
    subst (Asks fresh (4294967299 ∷ 4294967300 ∷ [])) (some-injective _ a h) (record {
      comm_id = 1;
      handle = λ z. ground arith;
      named = refl;
      asked = Memᴰ.tail (Memᴰ.head refl);
    })

record-replay_sets_example :
    Replayed recording
      ((5 ∷ 6 ∷ []) ∷ [])
      (0 ∷ 2 ∷ [])
      recorded
      fresh
      replaying
      0
      0
      33
      (101 ∷ [])
      stack_ids
unfolding find msgs_or_new get_recv_request_count
record-replay_sets_example =
    record-replay_sets recording replaying ((5 ∷ 6 ∷ []) ∷ []) (0 ∷ 2 ∷ []) recorded fresh 11 11 0 0
      33 (101 ∷ []) stack_ids refl ((omega arith, omega arith), tt) any-IsStorable refl
      (Memᴰ.head refl) refl (receive-Asks, tt) (omega arith)

-- The set that a first call gives to two receives.
abbrev given : Ids × Requests
given = (
  record { matching_set_id = 21; mpi_call_id = 21 },
  record fresh {
    set_of_call = (21, 21) ∷ (90, 21) ∷ [];
    set_of_msg = (4294967299, 21) ∷ (4294967300, 21) ∷ [];
    recv_args = (100, receive 3 100 21) ∷ (101, receive 4 101 21) ∷ [];
  },
)

given_run : get_matching_set_id_3 recording mf 0 0 21 (100 ∷ 101 ∷ []) stack_ids fresh ≡ ok given
unfolding get_matching_set_id_3 known_or_not record_3 get_matching_set_id_from from_requests
    from_request from_set after_turn map_new new_or_known map_and_return assign_to_args
    assign_to_one assign_matching_set_id_to_recv from_args from_one get_matching_set_id_from_recv
    assign_new assign_for assign_matching_set_id map_one map_args get_matching_id map_request
    map_comm_and_tag_to_matching_set_id get_msg_id comm_get_id msg_id find put
given_run = refl

get_matching_set_id_3-again_example :
    get_matching_set_id_3 recording mf 0 0 22 (100 ∷ 101 ∷ []) stack_ids given.1
    ≡ ok (record { matching_set_id = 21; mpi_call_id = 22 }, given.1)
unfolding find get_recv_request_count
get_matching_set_id_3-again_example =
    get_matching_set_id_3-again recording 0 0 21 22 (100 ∷ 101 ∷ []) stack_ids stack_ids fresh refl
      refl given_run refl (omega arith)

get_request_info-Informed_example : Informed recording 21 0 (100 ∷ 50 ∷ 101 ∷ []) fresh
unfolding find
get_request_info-Informed_example =
    get_request_info-Informed recording 21 0 (100 ∷ 50 ∷ 101 ∷ []) fresh (tt, (inl refl, (tt, tt)))

abbrev irecv : Call
irecv = record { buffer = 0; count = 1; datatype = 0; rank = 2; tag = 5; comm = 7; request = 102 }

abbrev registered : ℕ × Requests
registered = (
  unknown,
  record fresh {
    msgs_of_call = (33, 4294967301 ∷ []) ∷ [];
    recv_args =
        (100, receive 3 100 unknown)
        ∷ (101, receive 4 101 unknown)
        ∷ (102, record (receive 5 102 unknown) { mpi_call_id = 33 })
        ∷ [];
  },
)

registered_run : register_request recording recv_request irecv 10 33 stack_ids fresh ≡ ok registered
unfolding register_request register_recv_request recv_args_of assign_and_get_matching_set_id
    get_matching_set_id_3 known_or_not record_3 add_comm_and_tag_to_mpi_call_id insert_new
    msgs_or_new get_msg_id comm_get_id msg_id find put
registered_run = refl

register_request-Registered_example : Registered 102 recv_request fresh registered.1
unfolding find
register_request-Registered_example =
    register_request-Registered recording recv_request irecv 10 33 stack_ids fresh (inr refl) refl
      refl registered_run

abbrev no_set : From
no_set = record { exists = false; matching_set_id = unknown; state = fresh }

no_set_run : get_matching_set_id_from mf 0 0 unknown (100 ∷ 50 ∷ []) fresh ≡ ok no_set
unfolding get_matching_set_id_from from_requests from_request from_set after_turn get_msg_id
    comm_get_id msg_id find
no_set_run = refl

-- The second request is MPI_REQUEST_NULL.
get_matching_set_id_3-refuses_example :
    ¬ (get_matching_set_id_3 recording mf 0 0 21 (100 ∷ 50 ∷ []) stack_ids fresh ≡ ok given)
unfolding find
get_matching_set_id_3-refuses_example =
    get_matching_set_id_3-refuses recording 0 0 21 50 (100 ∷ 50 ∷ []) stack_ids fresh {f = no_set}
      refl refl no_set_run refl (Memᴰ.tail (Memᴰ.head refl)) refl
