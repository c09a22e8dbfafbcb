-- ===== src/Request/Replay.antt =====
-- src/rempi/rempi_request_mg.cpp and rempi_encoder_cdc.cpp: matching sets from the process that records
-- to the process that replays.
use mathlib.Core.List.{Memᴰ}
use mathlib.Core.Path.{subst}
use re_mpi.Common.{ℕ, ◌+◌, ◌<◌, ◌≡◌, ◌≢◌, refl, sym, ◌∙◌, ap, some, List, [], ◌∷◌, All, All-Mem, ok}
use re_mpi.Common.Bytes.{Bytes}
use re_mpi.Common.Maps.{Map, find}
use re_mpi.Request.{Config, Requests, RecvArgs, msg_id, msgs_or_new, mode_replay, call_unknown}
use re_mpi.Request.Info.{encode_rep, get_recv_request_count}
use re_mpi.Request.Info.Counting.{entries, get_recv_request_count-entries}
use re_mpi.Request.Merge.{get_matching_set_id_map}
use re_mpi.Request.Merge.Together.{HasSet}
use re_mpi.Request.Merge.Footer.RoundTrip.{IsChunk, IsStorable, Handed, read_footer-write_footer}
use re_mpi.Request.Select.{mf, Ids, get_matching_set_id_3}
use re_mpi.Request.Select.Consistent.{IsIn, get_matching_set_id_3-replay}

-- A receive of a replaying process that asks for one of the messages `ms`.
pub record Asks (t : Requests) (ms : List ℕ) (a : RecvArgs) : Type 0 where
  pub comm_id : ℕ
  pub handle : a.comm ≢ 0
  pub named : find a.comm t.comms.named ≡ some comm_id
  pub asked : Memᴰ (msg_id comm_id a.tag) ms

-- A request that, if it is a receive, asks for one of the messages.
abbrev pub IsFrom : Requests → List ℕ → ℕ → Type 0
IsFrom t ms r = (a : RecvArgs) → find r t.recv_args ≡ some a → Asks t ms a

IsIn-From :
    (t : Requests) (table : Map ℕ) (id : ℕ) (ms rs : List ℕ)
    → HasSet table id ms
    → All (IsFrom t ms) rs
    → All (IsIn (record t { set_of_msg = table }) id) rs
IsIn-From t table id ms [] has h = tt
IsIn-From t table id ms (r ∷ rs) has h = (
  λ a there.
      (let q = h.0 a there in
        record {
          comm_id = q.comm_id;
          handle = q.handle;
          named = q.named;
          has_set = All-Mem (λ m. find m table ≡ some id) q.asked has;
        }),
  IsIn-From t table id ms rs has h.1,
)

get_recv_request_count-table :
    (rs : List ℕ) (t : Requests) (table : Map ℕ)
    → get_recv_request_count rs (record t { set_of_msg = table }) ≡ get_recv_request_count rs t
unfolding get_recv_request_count
get_recv_request_count-table [] t table = refl
get_recv_request_count-table (r ∷ rs) t table =
    get_recv_request_count-entries r rs (record t { set_of_msg = table })
    ∙ ap (λ n. entries (find r t.recv_args) + n) (get_recv_request_count-table rs t table)
    ∙ sym (get_recv_request_count-entries r rs t)

-- A process that replays after it has read the footer of the record.
pub record Replayed (c : Config) (ps : List Bytes) (ranks : List ℕ) (s t : Requests)
    (replay : Config) (tag comm call_id : ℕ) (rs : List ℕ) (ids : Ids) : Type 0 where
  pub handed : Handed c ps ranks s t
  pub matching_set_id : ℕ
  pub selected :
      get_matching_set_id_3 replay mf tag comm call_id rs ids
        (record t { set_of_msg = handed.table })
      ≡ ok (
        record { matching_set_id = matching_set_id; mpi_call_id = call_unknown },
        record t { set_of_msg = handed.table },
      )

-- Record and replay of matching sets together, with the REP encoding. Take a call that has a set when
-- recording ends, a record of nonempty chunks, a merged table that fits the file, and a replaying
-- process without a table. The footer is written and read back, and then a matching function of the
-- replaying process whose receives, one at least, all ask for messages that the call had matched does
-- not abort: all of these messages have one set, which is the one that it gets.
pub record-replay_sets :
    (c replay : Config) (ps : List Bytes) (ranks : List ℕ) (s t : Requests) (call set_id : ℕ)
    (tag comm call_id : ℕ) (rs : List ℕ) (ids : Ids)
    → c.encode ≡ encode_rep
    → All IsChunk ps
    → ((table : Map ℕ) → get_matching_set_id_map c s ≡ ok table → IsStorable ranks table)
    → t.set_of_msg ≡ []
    → Memᴰ (call, set_id) s.set_of_call
    → replay.mode ≡ mode_replay
    → All (IsFrom t (msgs_or_new (find call s.msgs_of_call))) rs
    → 0 < get_recv_request_count rs t
    → Replayed c ps ranks s t replay tag comm call_id rs ids
record-replay_sets c replay ps ranks s t call set_id tag comm call_id rs ids rep chunks storable
      empty has_set replaying asks some_receive =
    let h = read_footer-write_footer c ps ranks s t rep chunks storable empty in
    let ms = msgs_or_new (find call s.msgs_of_call) in
    let together =
      All-Mem (λ (e : ℕ × ℕ). (id : ℕ) × HasSet h.table id (msgs_or_new (find e.0 s.msgs_of_call)))
        has_set h.together in
    let u = record t { set_of_msg = h.table } in
    record {
      handed = h;
      matching_set_id = together.0;
      selected =
          get_matching_set_id_3-replay replay tag comm call_id rs ids together.0 u replaying
            (IsIn-From t h.table together.0 ms rs together.1 asks)
            (subst (λ n. 0 < n) (sym (get_recv_request_count-table rs t h.table)) some_receive);
    }
