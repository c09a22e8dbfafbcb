-- ===== src/Request/Select/Consistent.antt =====
-- src/rempi/rempi_request_mg.cpp: once the messages of a matching function's receives have one set,
-- every matching function with receives among them gets that set.
use re_mpi.Common.{
  ℕ, ◌+◌, ◌%◌, ◌^◌, ◌≡◌, ◌≢◌, ◌<◌, refl, sym, ◌∙◌, ap, Bool, true, false, Bool-cases, Option-cases,
  inl, inr, none, some, List, [], ◌∷◌, ◌==◌, ==_iff, ◌&&◌, not, All, ok, abort, ◌>>=◌, ok-injective,
  abort-ne-ok, arith,
}
use mathlib.Core.Path.{subst}
use re_mpi.Common.Maps.{find, put, find-put}
use re_mpi.Request.{
  Config, Comms, Requests, RecvArgs, comm_get_id, msg_id, get_msg_id, mode_replay, call_unknown,
}
use re_mpi.Request.Select.{
  found, from_set, from_request, from_requests, after_turn, mf, Ids, get_matching_set_id_from,
  get_matching_set_id_3, found_or_abort,
}
use re_mpi.Request.Info.{get_recv_request_count}

-- Tables that have kept what they had: receives, names of communicators, sets of messages.
pub record Grows (s t : Requests) : Type 0 where
  pub receives : t.recv_args ≡ s.recv_args
  pub names : (k v : ℕ) → find k s.comms.named ≡ some v → find k t.comms.named ≡ some v
  pub sets : (k v : ℕ) → find k s.set_of_msg ≡ some v → find k t.set_of_msg ≡ some v

pub Grows-refl : (s : Requests) → Grows s s
Grows-refl s = record { receives = refl; names = λ k v h. h; sets = λ k v h. h }

pub Grows-trans : {s t u : Requests} → Grows s t → Grows t u → Grows s u
Grows-trans g h = record {
  receives = h.receives ∙ g.receives;
  names = λ k v e. h.names k v (g.names k v e);
  sets = λ k v e. h.sets k v (g.sets k v e);
}

-- The messages that a receive asks for have the set `id`.
pub record Placed (s : Requests) (id : ℕ) (a : RecvArgs) : Type 0 where
  pub comm_id : ℕ
  pub handle : a.comm ≢ 0
  pub named : find a.comm s.comms.named ≡ some comm_id
  pub has_set : find (msg_id comm_id a.tag) s.set_of_msg ≡ some id

pub Placed-Grows :
    {s t : Requests} {id : ℕ} {a : RecvArgs} → Grows s t → Placed s id a → Placed t id a
Placed-Grows {a} g p = record {
  comm_id = p.comm_id;
  handle = p.handle;
  named = g.names _ _ p.named;
  has_set = g.sets _ _ p.has_set;
}

-- A request that is a receive asks for messages of the set `id`.
abbrev pub IsIn : Requests → ℕ → ℕ → Type 0
IsIn s id r = (a : RecvArgs) → find r s.recv_args ≡ some a → Placed s id a

-- The id of a communicator that has its name.
pub get_msg_id_named :
    (comm tag cid : ℕ) (s : Requests)
    → comm ≢ 0
    → find comm s.comms.named ≡ some cid
    → get_msg_id comm tag s ≡ ok (msg_id cid tag, s)
unfolding get_msg_id comm_get_id
get_msg_id_named comm tag cid s handle named =
    let live : (comm == 0) ≡ false = ground arith in rw (live, named) refl

-- What asking for a message's id leaves behind.
pub record Named (comm tag : ℕ) (s : Requests) (e : ℕ × Requests) : Type 0 where
  pub comm_id : ℕ
  pub handle : comm ≢ 0
  pub named : find comm e.1.comms.named ≡ some comm_id
  pub same : e.0 ≡ msg_id comm_id tag
  pub grows : Grows s e.1

pub get_msg_id_null :
    (comm tag : ℕ) (s : Requests) → (comm == 0) ≡ true → get_msg_id comm tag s ≡ abort
unfolding get_msg_id comm_get_id
get_msg_id_null comm tag s h = rw h refl

-- A communicator's first id.
abbrev pub name_comm : (comm : ℕ) → Comms → Comms
name_comm comm c = record {
  named = put comm c.next_comm_id c.named;
  next_comm_id = (c.next_comm_id + 1) % 2 ^ 32;
}

pub get_msg_id_new :
    (comm tag : ℕ) (s : Requests)
    → (comm == 0) ≡ false
    → find comm s.comms.named ≡ none
    → get_msg_id comm tag s
      ≡ ok (msg_id s.comms.next_comm_id tag, record s { comms = name_comm comm s.comms })
unfolding get_msg_id comm_get_id
get_msg_id_new comm tag s live new = rw (live, new) refl

get_msg_id-Named_live :
    (comm tag : ℕ) (s : Requests) {e : ℕ × Requests}
    → (comm == 0) ≡ false
    → get_msg_id comm tag s ≡ ok e
    → Named comm tag s e
get_msg_id-Named_live comm tag s {e} live h =
    let handle : comm ≢ 0 = λ z. ground arith in
    elim (Option-cases (find comm s.comms.named)) [
      | inl new ↦
          subst (Named comm tag s) (ok-injective (sym (get_msg_id_new comm tag s live new) ∙ h))
            (record {
              comm_id = s.comms.next_comm_id;
              handle = handle;
              named = ground (arith, find-put comm comm s.comms.next_comm_id s.comms.named);
              same = refl;
              grows = record {
                receives = refl;
                names = λ k v e. ground (arith, find-put k comm s.comms.next_comm_id s.comms.named);
                sets = λ k v e. e;
              };
            })
      | inr (cid, old) ↦
          subst (Named comm tag s)
            (ok-injective (sym (get_msg_id_named comm tag cid s handle old) ∙ h))
            (record {
              comm_id = cid;
              handle = handle;
              named = old;
              same = refl;
              grows = Grows-refl s;
            })
    ]

pub get_msg_id-Named :
    (comm tag : ℕ) (s : Requests) {e : ℕ × Requests}
    → get_msg_id comm tag s ≡ ok e
    → Named comm tag s e
get_msg_id-Named comm tag s h = elim (Bool-cases (comm == 0)) [
  | inl null ↦ absurd (abort-ne-ok (sym (get_msg_id_null comm tag s null) ∙ h))
  | inr live ↦ get_msg_id-Named_live comm tag s live h
]

from_request-Placed :
    (b : Bool) (i id : ℕ) (a : RecvArgs) (s : Requests)
    → Placed s id a
    → (b && not (id == i)) ≡ false
    → from_request b i (some a) s ≡ ok (found true id s)
unfolding from_request from_set
from_request-Placed b i id a s p guard =
    ap (λ q. q >>= λ e. from_set b i (find e.0 e.1.set_of_msg) e.1)
      (get_msg_id_named a.comm a.tag p.comm_id s p.handle p.named)
    ∙ ap (λ o. from_set b i o s) p.has_set
    ∙ rw guard refl

-- The loop, once an id is set: all receives to come have it.
from_requests-set :
    (rs : List ℕ) (id : ℕ) (s : Requests)
    → All (IsIn s id) rs
    → from_requests rs true id s ≡ ok (record { exists = true; matching_set_id = id; state = s })
unfolding from_requests from_request after_turn
from_requests-set [] id s h = refl
from_requests-set (r ∷ rs) id s h = elim (Option-cases (find r s.recv_args)) [
  | inl other ↦ rw other (from_requests-set rs id s h.1)
  | inr (a, e) ↦ rw e (
      ap (λ q. q >>= λ turn. after_turn id turn (from_requests rs))
        (from_request-Placed true id id a s (h.0 a e) (rw ((==_iff id id).1 refl) refl))
      ∙ from_requests-set rs id s h.1)
]

-- The loop from the start finds the id of the first receive.
pub from_requests-first :
    (rs : List ℕ) (i id : ℕ) (s : Requests)
    → All (IsIn s id) rs
    → 0 < get_recv_request_count rs s
    → from_requests rs false i s ≡ ok (record { exists = true; matching_set_id = id; state = s })
unfolding from_requests from_request after_turn get_recv_request_count
from_requests-first [] i id s h some_receive = absurd (omega arith)
from_requests-first (r ∷ rs) i id s h some_receive = elim (Option-cases (find r s.recv_args)) [
  | inl other ↦ rw other (from_requests-first rs i id s h.1 (ground arith))
  | inr (a, e) ↦ rw e (
      ap (λ q. q >>= λ turn. after_turn i turn (from_requests rs))
        (from_request-Placed false i id a s (h.0 a e) refl)
      ∙ from_requests-set rs id s h.1)
]

-- When replaying, for a matching function with at least one receive, if all of its receives ask for
-- messages that have the set `id`: the call does not abort, it gets that set, and no table changes.
pub get_matching_set_id_3-replay :
    (c : Config) (tag comm call_id : ℕ) (rs : List ℕ) (ids : Ids) (id : ℕ) (s : Requests)
    → c.mode ≡ mode_replay
    → All (IsIn s id) rs
    → 0 < get_recv_request_count rs s
    → get_matching_set_id_3 c mf tag comm call_id rs ids s
      ≡ ok (record { matching_set_id = id; mpi_call_id = call_unknown }, s)
unfolding get_matching_set_id_3 get_matching_set_id_from found_or_abort
get_matching_set_id_3-replay c tag comm call_id rs ids id s replay h some_receive =
    rw (replay, from_requests-first rs ids.matching_set_id id s h some_receive) refl
