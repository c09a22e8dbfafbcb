-- ===== src/Event.antt =====
-- src/rempi/rempi_event.h and rempi_event.cpp: a recorded MPI event. An `int` is its 32-bit pattern,
-- so -1 is `2 ^ 32 - 1` and `x < 0` is `2 ^ 31 ≤ x`. The members `datatype`, `tag`, `comm` and `ts`
-- are not read by any operation modelled here, and are left out.
pub mod Counting
use re_mpi.Common.{
  ℕ, ◌+◌, ◌-◌, ◌%◌, ◌^◌, Bool, ◌&&◌, Option, none, some, List, [], ◌∷◌, ◌==◌, leb, if◌then◌else◌,
  Run, ok, abort,
}

abbrev pub int_mod : ℕ
int_mod = 2 ^ 32

abbrev pub minus_one : ℕ
minus_one = 2 ^ 32 - 1

abbrev pub is_negative : ℕ → Bool
is_negative x = leb (2 ^ 31) x

-- REMPI_MPI_EVENT_TYPE_RECV, REMPI_MPI_EVENT_TYPE_TEST, REMPI_MPI_EVENT_INPUT_IGNORE
abbrev pub recv_type : ℕ
recv_type = 1

abbrev pub test_type : ℕ
test_type = 2

abbrev pub input_ignore : ℕ
input_ignore = 0

-- `mpi_inputs`, a vector of REMPI_MPI_EVENT_INPUT_NUM ints, in the order of its indices.
pub record Inputs : Type 0 where
  pub event_count : ℕ
  pub type : ℕ
  pub flag : ℕ
  pub rank : ℕ
  pub with_next : ℕ
  pub index : ℕ
  pub msg_id : ℕ
  pub matching_group_id : ℕ

pub record Event : Type 0 where
  pub clock_order : ℕ
  pub msg_count : ℕ
  pub request : ℕ
  pub mpi_inputs : Inputs

-- The members that the constructor sets: `clock_order(-1), msg_count(-1), request(NULL)`.
unfoldable pub fresh_event : Inputs → Event
fresh_event inputs = record {
  clock_order = minus_one;
  msg_count = minus_one;
  request = 0;
  mpi_inputs = inputs;
}

unfoldable pub create_recv_event : ℕ → Option ℕ → Event
unfolding fresh_event
create_recv_event source req =
    let e = fresh_event (record {
      event_count = 1;
      type = recv_type;
      flag = input_ignore;
      rank = source;
      with_next = input_ignore;
      index = input_ignore;
      msg_id = input_ignore;
      matching_group_id = input_ignore;
    }) in
    elim req [ none ↦ e | some r ↦ record e { request = r } ]

unfoldable pub create_test_event :
    (event_count flag rank with_next index msg_id matching_id : ℕ) → Event
unfolding fresh_event
create_test_event event_count flag rank with_next index msg_id matching_id = fresh_event (record {
  event_count = event_count;
  type = test_type;
  flag = flag;
  rank = rank;
  with_next = with_next;
  index = index;
  msg_id = msg_id;
  matching_group_id = matching_id;
})

-- `operator ++`
unfoldable pub increment : Event → Event
increment e =
    let i = e.mpi_inputs in
    record e { mpi_inputs = record i { event_count = (i.event_count + 1) % int_mod } }

-- `operator ==`: two Test events that agree on the inputs 1 to 6, that is on all but the count and
-- the matching group.
unfoldable pub same_event : Event → Event → Bool
same_event a b =
    let x = a.mpi_inputs in
    let y = b.mpi_inputs in
    x.type == test_type
    && y.type == test_type
    && x.type == y.type
    && x.flag == y.flag
    && x.rank == y.rank
    && x.with_next == y.with_next
    && x.index == y.index
    && x.msg_id == y.msg_id

-- `pop` hands out the event itself, or a new event taken off it.
pub data Popped : Type 0 where
  itself : Popped
  split : (event rest : Event) → Popped

unfoldable pub pop : Event → Run Popped
unfolding create_test_event fresh_event
pop e =
    let i = e.mpi_inputs in
    if is_negative i.event_count
    then abort
    else if i.type == recv_type
    then (if i.event_count == 1 then ok itself else abort)
    else if i.type == test_type
    then (if i.event_count == 1
        then ok itself
        else (let taken =
              create_test_event 1 i.flag i.rank i.with_next i.index i.msg_id i.matching_group_id in
            ok (
              split (record taken { clock_order = e.clock_order; msg_count = e.msg_count })
                (record e {
                  mpi_inputs = record i { event_count = (i.event_count + int_mod - 1) % int_mod };
                }))))
    else abort

-- `serialize`: the inputs as an array of ints.
unfoldable pub serialize : Inputs → List ℕ
serialize i =
    i.event_count ∷ i.type ∷ i.flag ∷ i.rank ∷ i.with_next ∷ i.index ∷ i.msg_id
    ∷ i.matching_group_id ∷ []

-- The members that read or change one input.
unfoldable pub get_event_counts : Event → ℕ
get_event_counts e = e.mpi_inputs.event_count

unfoldable pub get_flag : Event → ℕ
get_flag e = e.mpi_inputs.flag

-- `get_source` and `get_rank`
unfoldable pub get_rank : Event → ℕ
get_rank e = e.mpi_inputs.rank

-- `get_is_testsome` and `get_with_next`
unfoldable pub get_with_next : Event → ℕ
get_with_next e = e.mpi_inputs.with_next

-- `get_clock` and `get_msg_id`
unfoldable pub get_msg_id : Event → ℕ
get_msg_id e = e.mpi_inputs.msg_id

unfoldable pub get_index : Event → ℕ
get_index e = e.mpi_inputs.index

-- `get_test_id` and `get_matching_group_id`
unfoldable pub get_matching_group_id : Event → ℕ
get_matching_group_id e = e.mpi_inputs.matching_group_id

-- The argument of `set_with_next` is a `long`.
unfoldable pub set_with_next : ℕ → Event → Event
set_with_next with_next e =
    let i = e.mpi_inputs in record e { mpi_inputs = record i { with_next = with_next % int_mod } }

unfoldable pub set_rank : ℕ → Event → Event
set_rank rank e = let i = e.mpi_inputs in record e { mpi_inputs = record i { rank = rank } }

unfoldable pub set_index : ℕ → Event → Event
set_index index e = let i = e.mpi_inputs in record e { mpi_inputs = record i { index = index } }

unfoldable pub get_request : Event → Run ℕ
get_request e = if e.mpi_inputs.type == recv_type then ok e.request else abort
