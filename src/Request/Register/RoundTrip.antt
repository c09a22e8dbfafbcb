-- ===== src/Request/Register/RoundTrip.antt =====
-- src/rempi/rempi_request_mg.cpp: a request that is registered can be deregistered, once.
use mathlib.Core.Path.{subst}
use re_mpi.Common.{
  ℕ, ◌≡◌, ◌⊎◌, inl, inr, refl, sym, ◌∙◌, ap, Option, none, some, [], ◌==◌, if◌then◌else◌, ok, abort,
  ok-injective, Ensures, Ensures->>=, Ensures-then, Ensures-if, Ensures-ok, arith,
}
use re_mpi.Common.Maps.{find, put, erase-put, find-put}
use re_mpi.Request.{
  Config, Requests, RecvArgs, SendArgs, get_msg_id, msg_id, comm_get_id, mode_record, mode_replay,
  add_comm_and_tag_to_mpi_call_id,
}
use re_mpi.Request.Assign.{assign_matching_set_id_to_recv}
use re_mpi.Request.Select.{
  recv, Ids, from_message, get_matching_set_id_from, found_or_abort, known_or_not, record_3,
  get_matching_set_id_3, assign_1, get_matching_set_id_1, get_matching_set_id_2,
  assign_and_get_matching_set_id,
}
use re_mpi.Request.Register.{
  Call, send_request, recv_request, recv_args_of, register_recv_request, register_send_request,
  register_request, deregister_recv, deregister_send, deregister_request,
}

-- The tables of requests are the same.
pub record SameTables (s t : Requests) : Type 0 where
  pub receives : t.recv_args ≡ s.recv_args
  pub sends : t.send_args ≡ s.send_args

SameTables-refl : (s : Requests) → SameTables s s
SameTables-refl s = record { receives = refl; sends = refl }

abbrev Kept {ℓ} : {A : Type ℓ} → Requests → A × Requests → Type 0
Kept s e = SameTables s e.1

get_msg_id-Kept : (comm tag : ℕ) (s : Requests) → Ensures (Kept s) (get_msg_id comm tag s)
unfolding get_msg_id
get_msg_id-Kept comm tag s =
    Ensures-then (Kept s) (comm_get_id comm s.comms)
      (λ e. ok (msg_id e.0 tag, record s { comms = e.1 }))
      (λ e. record { receives = refl; sends = refl })

known_or_not-SameTables :
    (comm tag call_id : ℕ) (s : Requests)
    → Ensures (SameTables s) (known_or_not recv comm tag call_id s)
unfolding known_or_not add_comm_and_tag_to_mpi_call_id
known_or_not-SameTables comm tag call_id s =
    Ensures->>= (Kept s) (SameTables s) (get_msg_id comm tag s) _ (get_msg_id-Kept comm tag s)
      (λ e h. record { receives = h.receives; sends = h.sends })

record_3-Kept :
    (c : Config) (tag comm call_id : ℕ) (ids : Ids) (s t : Requests)
    → SameTables s t
    → (known : Option ℕ) → Ensures (Kept s) (record_3 c recv tag comm call_id [] ids known t)
unfolding record_3 assign_matching_set_id_to_recv
record_3-Kept c tag comm call_id ids s t h none = h
record_3-Kept c tag comm call_id ids s t h (some id) = h

from_message-Kept :
    (id : ℕ) (s t : Requests)
    → SameTables s t
    → (known : Option ℕ) → Ensures (Kept s) (found_or_abort (from_message id known t))
unfolding from_message found_or_abort
from_message-Kept id s t h none = tt
from_message-Kept id s t h (some found_id) = h

get_matching_set_id_3-Kept :
    (c : Config) (tag comm call_id : ℕ) (ids : Ids) (s : Requests)
    → Ensures (Kept s) (get_matching_set_id_3 c recv tag comm call_id [] ids s)
unfolding get_matching_set_id_3 get_matching_set_id_from
get_matching_set_id_3-Kept c tag comm call_id ids s =
    Ensures-if (Kept s) (c.mode == mode_record) _ _
      (Ensures->>= (SameTables s) (Kept s) (known_or_not recv comm tag call_id s) _
        (known_or_not-SameTables comm tag call_id s)
        (λ t h. record_3-Kept c tag comm call_id ids s t h (find call_id t.set_of_call)))
      (Ensures-if (Kept s) (c.mode == mode_replay) _ _
        (Ensures->>= (λ f. Ensures (Kept s) (found_or_abort f)) (Kept s)
          (get_matching_set_id_from recv tag comm ids.matching_set_id [] s) found_or_abort
          (Ensures->>= (Kept s) (λ f. Ensures (Kept s) (found_or_abort f)) (get_msg_id comm tag s) _
            (get_msg_id-Kept comm tag s)
            (λ e h. from_message-Kept ids.matching_set_id s e.1 h (find e.0 e.1.set_of_msg)))
          (λ f h. h))
        tt)

assign_1-Kept :
    (c : Config) (call_id : ℕ) (s : Requests) (known : Option ℕ)
    → Ensures (Kept s) (assign_1 c recv call_id [] known s)
unfolding assign_1 assign_matching_set_id_to_recv
assign_1-Kept c call_id s none = SameTables-refl s
assign_1-Kept c call_id s (some id) =
    Ensures->>= (SameTables s) (Kept s) (if c.mode == mode_record then ok s else ok s) _
      (Ensures-if (SameTables s) (c.mode == mode_record) (ok s) (ok s) (SameTables-refl s)
        (SameTables-refl s))
      (λ t h. h)

-- Choosing the set of a receive leaves the tables of requests as they are.
assign_and_get-Kept :
    (c : Config) (tag comm call_id : ℕ) (ids : Ids) (s : Requests)
    → Ensures (Kept s) (assign_and_get_matching_set_id c recv tag comm call_id [] ids s)
unfolding assign_and_get_matching_set_id get_matching_set_id_1 get_matching_set_id_2
assign_and_get-Kept c tag comm call_id ids s =
    Ensures-if (Kept s) (c.is_test_id == 1) _ _
      (get_matching_set_id_3-Kept c tag comm call_id ids s)
      (Ensures-if (Kept s) (c.is_test_id == 2) _ _
        (assign_1-Kept c call_id s (find call_id s.set_of_call))
        (Ensures-if (Kept s) (c.is_test_id == 3) _ _ (SameTables-refl s) (SameTables-refl s)))

-- A request that has been registered, in a state that had it in no table.
pub record Registered (request request_type : ℕ) (s t : Requests) : Type 0 where
  pub after : Requests
  pub returns : deregister_request request request_type t ≡ ok after
  pub same : SameTables s after
  pub again : deregister_request request request_type after ≡ abort

recv-Registered :
    (r : ℕ) (a : RecvArgs) (s t : Requests)
    → find r s.recv_args ≡ none
    → SameTables s t
    → Registered r recv_request s (record t { recv_args = put r a t.recv_args })
unfolding deregister_request deregister_recv
recv-Registered r a s t new h =
    let new_t : find r t.recv_args ≡ none = ap (find r) h.receives ∙ new in
    let placed : find r (put r a t.recv_args) ≡ some a =
      ground (arith, find-put r r a t.recv_args) in
    record {
      after = t;
      returns = rw (placed, erase-put r a t.recv_args new_t) refl;
      same = h;
      again = rw new_t refl;
    }

send-Registered :
    (call : Call) (clock : ℕ) (s : Requests)
    → find call.request s.send_args ≡ none
    → Registered call.request send_request s (register_send_request call clock s)
unfolding deregister_request deregister_send register_send_request
send-Registered call clock s new =
    let a : SendArgs = record { dest = call.rank; clock = clock } in
    let placed : find call.request (put call.request a s.send_args) ≡ some a =
      ground (arith, find-put call.request call.request a s.send_args) in
    record {
      after = s;
      returns = rw (placed, erase-put call.request a s.send_args new) refl;
      same = SameTables-refl s;
      again = rw new refl;
    }

register_recv_request-Registered :
    (c : Config) (call : Call) (call_id : ℕ) (ids : Ids) (s : Requests)
    → find call.request s.recv_args ≡ none
    → Ensures
        (λ (out : ℕ × Requests). Registered call.request recv_request s out.1)
        (register_recv_request c call call_id ids s)
unfolding register_recv_request
register_recv_request-Registered c call call_id ids s new =
    Ensures->>= (Kept s) (λ (out : ℕ × Requests). Registered call.request recv_request s out.1)
      (assign_and_get_matching_set_id c recv call.tag call.comm call_id [] ids s) _
      (assign_and_get-Kept c call.tag call.comm call_id ids s)
      (λ e h. recv-Registered call.request (recv_args_of call e.0) s e.1 new h)

-- In every mode: a send or receive request that no table has, once it is registered, can be
-- deregistered as what it is. The tables of requests are then what they were before, and to deregister
-- the request again aborts.
pub register_request-Registered :
    (c : Config) (request_type : ℕ) (call : Call) (local_clock call_id : ℕ) (ids : Ids)
    (s : Requests) {out : ℕ × Requests}
    → (request_type ≡ send_request) ⊎ (request_type ≡ recv_request)
    → find call.request s.send_args ≡ none
    → find call.request s.recv_args ≡ none
    → register_request c request_type call local_clock call_id ids s ≡ ok out
    → Registered call.request request_type s out.1
unfolding register_request
register_request-Registered c type call clock call_id ids s (inl is_send) no_send no_recv h =
    subst (λ (o : ℕ × Requests). Registered call.request type s o.1)
      (ok-injective (sym (ap (λ t. register_request c t call clock call_id ids s) is_send) ∙ h))
      (subst (λ t. Registered call.request t s (register_send_request call clock s)) (sym is_send)
        (send-Registered call clock s no_send))
register_request-Registered c type call clock call_id ids s (inr is_recv) no_send no_recv h =
    Ensures-ok (λ (o : ℕ × Requests). Registered call.request type s o.1)
      (register_recv_request c call call_id ids s)
      (subst
        (λ t.
          Ensures (λ (o : ℕ × Requests). Registered call.request t s o.1)
            (register_recv_request c call call_id ids s))
        (sym is_recv) (register_recv_request-Registered c call call_id ids s no_recv))
      (sym (ap (λ t. register_request c t call clock call_id ids s) is_recv) ∙ h)
