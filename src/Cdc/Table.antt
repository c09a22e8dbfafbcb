-- ===== src/Cdc/Table.antt =====
-- src/rempi/rempi_encoder.h, rempi_encoder_cdc.cpp: the chunk of events that the encoder fills,
-- `rempi_encoder_cdc_input_format`, with a table for each matching set.
pub mod Orders
pub mod Sorted
pub mod Formatted
pub mod Epoch
pub mod Kept
pub mod Grown
pub mod Restored
use re_mpi.Common.{
  ℕ, zero, suc, ◌+◌, ◌-◌, ◌%◌, ◌^◌, Bool, true, false, ◌&&◌, ◌||◌, not, Option, none, some, List,
  [], ◌∷◌, ◌++◌, map, ◌==◌, ltb, leb, if◌then◌else◌, length, Run, ok, abort, ◌>>=◌,
}
use re_mpi.Common.Maps.{Map, find, put}
use re_mpi.Common.Ranges.{upto}
use re_mpi.Event.{
  Event, get_event_counts, get_flag, get_rank, get_with_next, get_msg_id, get_index,
  get_matching_group_id,
}
use re_mpi.Cdc.Matched.{sign_extend}

-- `rempi_encoder_input_format_test_table`, the members that recording fills.
pub record Table : Type 0 where
  pub matching_set_id : ℕ
  pub events_vec : List Event
  pub count : ℕ
  pub epoch_umap : Map ℕ
  pub epoch_rank_vec : List ℕ
  pub epoch_clock_vec : List ℕ
  pub with_previous_vec : List ℕ
  pub matched_index_vec : List ℕ
  pub unmatched_events_id_vec : List ℕ
  pub unmatched_events_count_vec : List ℕ
  -- in the order of the keys 0, 1, ...
  pub matched_events_ordered_map : List Event

unfoldable pub new_table : ℕ → Table
new_table id = record {
  matching_set_id = id;
  events_vec = [];
  count = 0;
  epoch_umap = [];
  epoch_rank_vec = [];
  epoch_clock_vec = [];
  with_previous_vec = [];
  matched_index_vec = [];
  unmatched_events_id_vec = [];
  unmatched_events_count_vec = [];
  matched_events_ordered_map = [];
}

-- `<` on ints.
unfoldable pub int_ltb : ℕ → ℕ → Bool
int_ltb a b = ltb ((a + 2 ^ 31) % 2 ^ 32) ((b + 2 ^ 31) % 2 ^ 32)

-- `vec.back()`, of a vector that is not empty.
unfoldable pub back_is : ℕ → List ℕ → Bool
back_is x [] = false
back_is x (y ∷ []) = y == x
back_is x (y ∷ z ∷ ys) = back_is x (z ∷ ys)

-- `vec.back() += x` on numbers of 64 bits.
unfoldable pub add_back : ℕ → List ℕ → List ℕ
add_back x [] = []
add_back x (y ∷ []) = ((y + x) % 2 ^ 64) ∷ []
add_back x (y ∷ z ∷ ys) = y ∷ add_back x (z ∷ ys)

-- `add` of a matched event to its table. The index is an int in the code: tables have fewer than
-- `2 ^ 31` events.
unfoldable pub add_matched : Event → Table → Table
unfolding get_with_next get_index sign_extend
add_matched e t = record t {
  events_vec = t.events_vec ++ (e ∷ []);
  with_previous_vec =
      if get_with_next e == 0
      then t.with_previous_vec
      else t.with_previous_vec ++ (length t.events_vec ∷ []);
  matched_index_vec = t.matched_index_vec ++ (sign_extend (get_index e) ∷ []);
  count = (t.count + 1) % 2 ^ 32;
}

-- `add` of an unmatched event, and what `total_length` grows by.
unfoldable pub add_unmatched : Event → Table → Table × ℕ
unfolding back_is add_back get_event_counts sign_extend
add_unmatched e t =
    if back_is (length t.events_vec) t.unmatched_events_id_vec
    then (
      record t {
        unmatched_events_count_vec =
            add_back (sign_extend (get_event_counts e)) t.unmatched_events_count_vec;
      },
      0,
    )
    else (
      record t {
        unmatched_events_id_vec = t.unmatched_events_id_vec ++ (length t.events_vec ∷ []);
        unmatched_events_count_vec =
            t.unmatched_events_count_vec ++ (sign_extend (get_event_counts e) ∷ []);
      },
      1,
    )

unfoldable pub add_to_table : Event → Table → Table × ℕ
unfolding add_matched add_unmatched get_flag
add_to_table e t = if get_flag e == 1 then (add_matched e t, 1) else add_unmatched e t

-- `std::map<int, ...>`: its entries in the order of the keys.
module _ {T : Type 0} where
  unfoldable pub find_table : ℕ → List (ℕ × T) → Option T
  find_table id [] = none
  find_table id ((j, t) ∷ ts) = if j == id then some t else find_table id ts

  unfoldable pub put_table : ℕ → T → List (ℕ × T) → List (ℕ × T)
  unfolding int_ltb
  put_table id t [] = (id, t) ∷ []
  put_table id t ((j, u) ∷ ts) =
      if j == id
      then (id, t) ∷ ts
      else if int_ltb id j
      then (id, t) ∷ ((j, u) ∷ ts)
      else (j, u) ∷ put_table id t ts

abbrev pub or_new : ℕ → Option Table → Table
or_new id none = new_table id
or_new id (some t) = t

-- `rempi_encoder_cdc_input_format`, with the static set of ranks.
pub record InputFormat : Type 0 where
  pub test_tables_map : List (ℕ × Table)
  pub total_length : ℕ
  pub last_added_event : Option Event
  pub all_epoch_rank_uset : List ℕ

unfoldable pub add : Event → InputFormat → InputFormat
unfolding find_table put_table add_to_table get_matching_group_id new_table
add e f =
    let id = get_matching_group_id e in
    let (t, grown) = add_to_table e (or_new id (find_table id f.test_tables_map)) in
    record f {
      test_tables_map = put_table id t f.test_tables_map;
      total_length = f.total_length + grown;
      last_added_event = some e;
    }

-- `compare` on two events: by clock, then by source.
unfoldable pub compare_events : Event → Event → Bool
unfolding int_ltb get_msg_id get_rank
compare_events a b =
    int_ltb (get_msg_id a) (get_msg_id b)
    || (get_msg_id a == get_msg_id b && int_ltb (get_rank a) (get_rank b))

-- `std::sort` by `compare`, on the events with their places in `events_vec`. Events that compare equal
-- keep their order here; the library may exchange them.
unfoldable pub insert_event : ℕ × Event → List (ℕ × Event) → List (ℕ × Event)
unfolding compare_events
insert_event x [] = x ∷ []
insert_event x (y ∷ ys) = if compare_events y.1 x.1 then y ∷ insert_event x ys else x ∷ (y ∷ ys)

unfoldable pub sort_events : List (ℕ × Event) → List (ℕ × Event)
unfolding insert_event
sort_events [] = []
sort_events (x ∷ xs) = insert_event x (sort_events xs)

unfoldable pub with_places : (first : ℕ) → List Event → List (ℕ × Event)
with_places first [] = []
with_places first (e ∷ es) = (first, e) ∷ with_places (suc first) es

-- `sorted_events_vec[i]->clock_order = i`: the vectors share the events.
unfoldable pub set_clock_order : (place order : ℕ) → List Event → List Event
set_clock_order place order [] = []
set_clock_order zero order (e ∷ es) = record e { clock_order = order } ∷ es
set_clock_order (suc place) order (e ∷ es) = e ∷ set_clock_order place order es

unfoldable pub number : (order : ℕ) → List (ℕ × Event) → List Event → List Event
unfolding set_clock_order
number order [] es = es
number order ((place, e) ∷ sorted) es = number (suc order) sorted (set_clock_order place order es)

unfoldable pub ordered : (order : ℕ) → List (ℕ × Event) → List Event
ordered order [] = []
ordered order ((place, e) ∷ sorted) = record e { clock_order = order } ∷ ordered (suc order) sorted

-- Whether a clock may follow the last one of its rank.
unfoldable pub follows : (clock : ℕ) → Option ℕ → Bool
unfolding sign_extend
follows clock none = true
follows clock (some last) = ltb last (sign_extend clock) || clock == 0

-- The epoch line, one event after the other.
unfoldable pub update_epoch : List (ℕ × Event) → Map ℕ → Run (Map ℕ)
unfolding follows find put get_rank get_msg_id sign_extend
update_epoch [] umap = ok umap
update_epoch ((place, e) ∷ sorted) umap =
    let rest =
      update_epoch sorted (put (sign_extend (get_rank e)) (sign_extend (get_msg_id e)) umap) in
    if follows (get_msg_id e) (find (sign_extend (get_rank e)) umap) then rest else abort

unfoldable pub is_truncated : List Event → Bool
unfolding get_with_next
is_truncated [] = false
is_truncated (e ∷ []) = not (get_with_next e == 0)
is_truncated (e ∷ f ∷ es) = is_truncated (f ∷ es)

unfoldable pub format_sorted : List (ℕ × Event) → Table → Run Table
unfolding update_epoch number ordered
format_sorted sorted t = update_epoch sorted t.epoch_umap >>= λ umap. ok (record t {
  events_vec = number 0 sorted t.events_vec;
  matched_events_ordered_map = ordered 0 sorted;
  epoch_umap = umap;
  epoch_rank_vec = t.epoch_rank_vec ++ map (λ e. e.0) umap;
  epoch_clock_vec = t.epoch_clock_vec ++ map (λ e. e.1) umap;
})

-- The loop body of `format`.
unfoldable pub format_table : Table → Run Table
unfolding is_truncated sort_events with_places format_sorted
format_table t =
    if is_truncated t.events_vec
    then abort
    else format_sorted (sort_events (with_places 0 t.events_vec)) t

unfoldable pub member : ℕ → List ℕ → Bool
member x [] = false
member x (y ∷ ys) = y == x || member x ys

-- `all_epoch_rank_uset.insert` of each rank.
unfoldable pub insert_ranks : List ℕ → List ℕ → List ℕ
unfolding member
insert_ranks [] uset = uset
insert_ranks (r ∷ ranks) uset =
    insert_ranks ranks (if member r uset then uset else uset ++ (r ∷ []))

-- The loop of `format` over the tables.
unfoldable pub format_all : List (ℕ × Table) → List ℕ → Run (List (ℕ × Table) × List ℕ)
unfolding format_table insert_ranks
format_all [] uset = ok ([], uset)
format_all ((id, t) ∷ ts) uset = format_table t >>= λ t'.
    format_all ts (insert_ranks (map (λ e. e.0) t'.epoch_umap) uset) >>= λ rest.
    ok ((id, t') ∷ rest.0, rest.1)

unfoldable pub format : InputFormat → Run InputFormat
unfolding format_all
format f = format_all f.test_tables_map f.all_epoch_rank_uset >>= λ r.
    ok (record f { test_tables_map = r.0; all_epoch_rank_uset = r.1 })
