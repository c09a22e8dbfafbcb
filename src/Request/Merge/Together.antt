-- ===== src/Request/Merge/Together.antt =====
-- src/rempi/rempi_request_mg.cpp: in the table that a record ends with, the messages of a call share
-- one set.
use re_mpi.Common.{
  ℕ, ◌≡◌, refl, ◌∙◌, ap, Option-cases, inl, inr, none, some, List, [], ◌∷◌, ◌==◌, ==_iff,
  Bool-cases, if◌then◌else◌, All, Run, ok, ◌>>=◌, arith,
}
use re_mpi.Common.Maps.{Map, find, put, IsMap, find-put, put-IsMap}
use re_mpi.Request.{Config, Requests, msgs_or_new}
use re_mpi.Request.Info.{encode_rep}
use re_mpi.Request.Merge.{
  change_ids, change_matching_set_id, assign_msg, assign_msgs, assign_calls,
  get_matching_set_id_map,
}

abbrev pub change : (old_id new_id id : ℕ) → ℕ
change old_id new_id id = if old_id == id then new_id else id

find-change_ids :
    (a old_id new_id i : ℕ) (m : Map ℕ)
    → find a m ≡ some i
    → find a (change_ids old_id new_id m) ≡ some (change old_id new_id i)
unfolding find change_ids
find-change_ids a old_id new_id i [] h = cc
find-change_ids a old_id new_id i ((b, j) ∷ m) h =
    ground (arith, find-change_ids a old_id new_id i m)

find-change_ids-none :
    (a old_id new_id : ℕ) (m : Map ℕ) → find a m ≡ none → find a (change_ids old_id new_id m) ≡ none
unfolding find change_ids
find-change_ids-none a old_id new_id [] h = refl
find-change_ids-none a old_id new_id ((b, j) ∷ m) h =
    ground (arith, find-change_ids-none a old_id new_id m)

change_ids_self : (id : ℕ) (m : Map ℕ) → change_ids id id m ≡ m
unfolding change_ids
change_ids_self id [] = refl
change_ids_self id ((b, j) ∷ m) = ground (arith, change_ids_self id m)

change-returns :
    (c : Config) (old set_id : ℕ) (m : Map ℕ)
    → c.encode ≡ encode_rep
    → (if old == set_id then ok m else change_matching_set_id c old set_id m)
      ≡ ok (change_ids old set_id m)
unfolding change_matching_set_id
change-returns c old set_id m rep = elim (Bool-cases (old == set_id)) [
  | inl e ↦ rw (e, (==_iff old set_id).0 e, change_ids_self set_id m) refl
  | inr e ↦ rw (e, rep) refl
]

change_ids-IsMap : (old_id new_id : ℕ) (m : Map ℕ) → IsMap m → IsMap (change_ids old_id new_id m)
unfolding change_ids
change_ids-IsMap old_id new_id [] h = tt
change_ids-IsMap old_id new_id ((b, j) ∷ m) h =
    (find-change_ids-none b old_id new_id m h.0, change_ids-IsMap old_id new_id m h.1)

-- A table reached from another: sets are renamed, no message leaves the table.
pub record Renamed (m : Map ℕ) (r : Run (Map ℕ)) : Type 0 where
  pub table : Map ℕ
  pub returns : r ≡ ok table
  pub rename : ℕ → ℕ
  pub renames : (a i : ℕ) → find a m ≡ some i → find a table ≡ some (rename i)
  pub IsTable : IsMap m → IsMap table

-- All messages of the list have the set `id`.
abbrev pub HasSet : Map ℕ → ℕ → List ℕ → Type 0
HasSet m id ms = All (λ a. find a m ≡ some id) ms

HasSet-renamed :
    (m : Map ℕ) {r : Run (Map ℕ)} (w : Renamed m r) (id : ℕ) (ms : List ℕ)
    → HasSet m id ms
    → HasSet w.table (w.rename id) ms
HasSet-renamed m w id [] h = tt
HasSet-renamed m w id (a ∷ ms) h = (w.renames a id h.0, HasSet-renamed m w id ms h.1)

record Assigned (m : Map ℕ) (set_id : ℕ) (ms : List ℕ) (r : Run (Map ℕ)) : Type 0 where
  moved : Renamed m r
  keeps : moved.rename set_id ≡ set_id
  placed : HasSet moved.table set_id ms

-- One message: it and all that shared its old set have the new one.
assign_msg-Assigned :
    (c : Config) (msg set_id : ℕ) (m : Map ℕ)
    → c.encode ≡ encode_rep
    → Assigned m set_id (msg ∷ []) (assign_msg c msg set_id (find msg m) m)
unfolding assign_msg change_matching_set_id
assign_msg-Assigned c msg set_id m rep = elim (Option-cases (find msg m)) [
  | inl new ↦ rw new (record {
    moved = record {
      table = put msg set_id m;
      returns = refl;
      rename = λ i. i;
      renames = λ a i h. ground (arith, find-put a msg set_id m);
      IsTable = put-IsMap msg set_id m;
    };
    keeps = refl;
    placed = (ground (arith, find-put msg msg set_id m), tt);
  })
  | inr (old, e) ↦ rw e (record {
    moved = record {
      table = put msg set_id (change_ids old set_id m);
      returns = ap (λ r. r >>= λ t. ok (put msg set_id t)) (change-returns c old set_id m rep);
      rename = change old set_id;
      renames = λ a i h. ground (
        arith,
        find-put a msg set_id (change_ids old set_id m),
        find-change_ids a old set_id i m h,
      );
      IsTable =
          λ h. put-IsMap msg set_id (change_ids old set_id m) (change_ids-IsMap old set_id m h);
    };
    keeps = ground arith;
    placed = (ground (arith, find-put msg msg set_id (change_ids old set_id m)), tt);
  })
]

-- A table reached in two steps.
Renamed-then :
    (m : Map ℕ) {r : Run (Map ℕ)} (w : Renamed m r) (next : Map ℕ → Run (Map ℕ))
    → Renamed w.table (next w.table)
    → Renamed m (r >>= next)
Renamed-then m w next v = record {
  table = v.table;
  returns = ap (λ q. q >>= next) w.returns ∙ v.returns;
  rename = λ i. v.rename (w.rename i);
  renames = λ a i h. v.renames a (w.rename i) (w.renames a i h);
  IsTable = λ h. v.IsTable (w.IsTable h);
}

assign_msgs-Assigned :
    (c : Config) (set_id : ℕ) (ms : List ℕ) (m : Map ℕ)
    → c.encode ≡ encode_rep
    → Assigned m set_id ms (assign_msgs c set_id ms m)
unfolding assign_msgs Renamed-then
assign_msgs-Assigned c set_id [] m rep = record {
  moved = record {
    table = m;
    returns = refl;
    rename = λ i. i;
    renames = λ a i h. h;
    IsTable = λ h. h;
  };
  keeps = refl;
  placed = tt;
}
assign_msgs-Assigned c set_id (a ∷ ms) m rep =
    let w = assign_msg-Assigned c a set_id m rep in
    let v = assign_msgs-Assigned c set_id ms w.moved.table rep in
    record {
      moved = Renamed-then m w.moved (assign_msgs c set_id ms) v.moved;
      keeps = ap v.moved.rename w.keeps ∙ v.keeps;
      placed = (v.moved.renames a set_id w.placed.0 ∙ ap some v.keeps, v.placed);
    }

-- For each call of the table, the messages that it has matched have one set.
abbrev pub IsTogether : Map ℕ → Map (List ℕ) → Map ℕ → Type 0
IsTogether table msgs_of_call =
    All (λ call. (id : ℕ) × HasSet table id (msgs_or_new (find call.0 msgs_of_call)))

pub record Merged (s : Requests) (r : Run (Map ℕ)) : Type 0 where
  pub moved : Renamed s.set_of_msg r
  pub together : IsTogether moved.table s.msgs_of_call s.set_of_call

record MergedCalls (m : Map ℕ) (msgs_of_call : Map (List ℕ)) (calls : Map ℕ) (r : Run (Map ℕ))
    : Type 0 where
  moved : Renamed m r
  together : IsTogether moved.table msgs_of_call calls

assign_calls-MergedCalls :
    (c : Config) (msgs_of_call : Map (List ℕ)) (calls : Map ℕ) (m : Map ℕ)
    → c.encode ≡ encode_rep
    → MergedCalls m msgs_of_call calls (assign_calls c msgs_of_call calls m)
unfolding assign_calls Renamed-then
assign_calls-MergedCalls c msgs_of_call [] m rep = record {
  moved = record {
    table = m;
    returns = refl;
    rename = λ i. i;
    renames = λ a i h. h;
    IsTable = λ h. h;
  };
  together = tt;
}
assign_calls-MergedCalls c msgs_of_call ((call_id, set_id) ∷ calls) m rep =
    let ms = msgs_or_new (find call_id msgs_of_call) in
    let w = assign_msgs-Assigned c set_id ms m rep in
    let v = assign_calls-MergedCalls c msgs_of_call calls w.moved.table rep in
    record {
      moved = Renamed-then m w.moved (assign_calls c msgs_of_call calls) v.moved;
      together = (
        (v.moved.rename set_id, HasSet-renamed w.moved.table v.moved set_id ms w.placed),
        v.together,
      );
    }

pub get_matching_set_id_map-Merged :
    (c : Config) (s : Requests) → c.encode ≡ encode_rep → Merged s (get_matching_set_id_map c s)
unfolding get_matching_set_id_map
get_matching_set_id_map-Merged c s rep =
    let w = assign_calls-MergedCalls c s.msgs_of_call s.set_of_call s.set_of_msg rep in
    record { moved = w.moved; together = w.together }
