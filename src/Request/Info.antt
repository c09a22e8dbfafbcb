-- ===== src/Request/Info.antt =====
-- src/rempi/rempi_request_mg.cpp: the kinds of the requests of a matching function.
pub mod Counting
use re_mpi.Common.{
  ℕ, zero, suc, ◌+◌, Bool, true, false, Option, none, some, List, [], ◌∷◌, ◌==◌, ltb, ◌&&◌, ◌||◌,
  not, if◌then◌else◌, length, Run, ok, abort, ◌>>=◌,
}
use re_mpi.Common.Maps.{Map, find}
use re_mpi.Request.{Config, Requests, RecvArgs, SendArgs, unknown}
use re_mpi.Request.Register.{send_request, recv_request, null_request, ignr_request}
use re_mpi.Request.Select.{mf, Ids, assign_and_get_matching_set_id}

-- REMPI_ENV_REMPI_ENCODE_CDC and REMPI_ENV_REMPI_ENCODE_REP.
abbrev pub encode_cdc : ℕ
encode_cdc = 4

abbrev pub encode_rep : ℕ
encode_rep = 7

-- MPI_ANY_TAG comes with a matching function, where the tag is not looked at.
abbrev pub any_tag : ℕ
any_tag = 4294967295

-- The tests of `rempi_reqmg_get_request_type`.
unfoldable pub kind_of : Config → ℕ → Option SendArgs → Option RecvArgs → Run ℕ
kind_of c request (some _) _ = ok send_request
kind_of c request none (some _) = ok recv_request
kind_of c request none none =
    if request == c.null_request
    then ok null_request
    else if request == 0
    then abort
    else ok ignr_request

unfoldable pub get_request_type : Config → (request : ℕ) → Requests → Run ℕ
unfolding kind_of find
get_request_type c request s =
    kind_of c request (find request s.send_args) (find request s.recv_args)

-- The counts of `rempi_reqmg_get_request_info` and what it has written to `request_info`.
pub record Counts : Type 0 where
  pub sendcount : ℕ
  pub recvcount : ℕ
  pub nullcount : ℕ
  pub ignore : ℕ
  pub request_info : List ℕ

unfoldable pub no_counts : Counts
no_counts = record { sendcount = 0; recvcount = 0; nullcount = 0; ignore = 0; request_info = [] }

-- The rest of the array is counted first: each turn adds to a counter and writes its own entry, and a
-- turn that aborts ends the process whenever it comes.
unfoldable pub count_one : Config → ℕ → Option SendArgs → Option RecvArgs → Counts → Run Counts
count_one c request (some _) (some _) n = abort
count_one c request (some _) none n =
    ok (record n { sendcount = suc n.sendcount; request_info = send_request ∷ n.request_info })
count_one c request none (some _) n =
    ok (record n { recvcount = suc n.recvcount; request_info = recv_request ∷ n.request_info })
count_one c request none none n =
    if request == c.null_request
    then ok (record n { nullcount = suc n.nullcount; request_info = null_request ∷ n.request_info })
    else if request == 0
    then abort
    else if not c.lite
    then abort
    else ok (record n { ignore = suc n.ignore; request_info = ignr_request ∷ n.request_info })

unfoldable pub count_requests : Config → List ℕ → Requests → Run Counts
unfolding count_one no_counts find
count_requests c [] s = ok no_counts
count_requests c (r ∷ rs) s =
    count_requests c rs s >>= count_one c r (find r s.send_args) (find r s.recv_args)

unfoldable pub refuse_mixed : Counts → Run Bool
refuse_mixed n =
    if ltb 0 n.ignore
    then if n.sendcount + n.recvcount + n.nullcount == 0 then ok false else abort
    else ok true

unfoldable pub is_record_and_replay : Config → Counts → Run Bool
unfolding refuse_mixed
is_record_and_replay c n =
    if c.lite
    then refuse_mixed n
    else if c.encode == encode_cdc
    then ok (not (ltb 0 n.sendcount))
    else if c.encode == encode_rep
    then if ltb 0 n.sendcount && ltb 0 n.recvcount then abort else refuse_mixed n
    else ok true

pub record Info : Type 0 where
  pub counts : Counts
  pub replay : Bool
  pub matching_set_id : ℕ
  pub state : Requests

unfoldable pub select_set :
    Config → (call_id mpi_call_id : ℕ) → List ℕ → Counts → Requests → Bool → Run Info
unfolding assign_and_get_matching_set_id
select_set c call_id mpi_call_id rs n s false =
    ok (record { counts = n; replay = false; matching_set_id = unknown; state = s })
select_set c call_id mpi_call_id rs n s true =
    assign_and_get_matching_set_id c mf any_tag 0 call_id rs
      (record { matching_set_id = unknown; mpi_call_id = mpi_call_id }) s
    >>= λ e.
        ok
          (record { counts = n; replay = true; matching_set_id = e.0.matching_set_id; state = e.1 })

-- `mpi_call_id` is what the code's variable of that name holds at first.
unfoldable pub get_request_info : Config → (call_id mpi_call_id : ℕ) → List ℕ → Requests → Run Info
unfolding count_requests is_record_and_replay select_set
get_request_info c call_id mpi_call_id rs s = count_requests c rs s >>= λ n.
    if length rs == n.sendcount + n.recvcount + n.nullcount + n.ignore
    then is_record_and_replay c n >>= select_set c call_id mpi_call_id rs n s
    else abort

unfoldable pub get_recv_request_count : List ℕ → Requests → ℕ
unfolding find
get_recv_request_count [] s = 0
get_recv_request_count (r ∷ rs) s = elim (find r s.recv_args) [
  | none ↦ get_recv_request_count rs s
  | some a ↦ suc (get_recv_request_count rs s)
]

unfoldable pub get_null_request_count : Config → List ℕ → ℕ
get_null_request_count c [] = 0
get_null_request_count c (r ∷ rs) =
    (if r == c.null_request then 1 else 0) + get_null_request_count c rs
