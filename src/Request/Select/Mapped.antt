-- ===== src/Request/Select/Mapped.antt =====
-- src/rempi/rempi_request_mg.cpp: the set that a matching function gets when recording is from then on
-- the set of its receives' messages, and of every matching function on the same receives.
use mathlib.Core.Path.{subst}
use re_mpi.Common.{
  ℕ, ◌≡◌, ◌<◌, refl, sym, ◌∙◌, ap, false, Bool-cases, Option-cases, inl, inr, none, some, List, [],
  ◌∷◌, ◌==◌, ==_iff, All, ok, ◌>>=◌, >>=-eq-ok, ok-injective, abort-ne-ok, when-ok, arith,
}
use re_mpi.Common.Maps.{find, put, find-put}
use re_mpi.Request.{Config, Requests, RecvArgs, get_msg_id, mode_record}
use re_mpi.Request.Info.{get_recv_request_count}
use re_mpi.Request.Assign.{
  get_matching_id, map_one, map_args, map_request, map_comm_and_tag_to_matching_set_id,
  assign_matching_set_id,
}
use re_mpi.Request.Select.{
  From, from_requests, mf, Ids, get_matching_set_id_from, get_matching_set_id_3, known_or_not,
  record_3, map_new, new_or_known, map_and_return,
}
use re_mpi.Request.Select.Consistent.{
  Grows, Grows-refl, Grows-trans, Placed-Grows, IsIn, Named, get_msg_id-Named, from_requests-first,
}
use re_mpi.Request.Select.Agreed.{IsIn-Placed, from_requests-FromKnown}

-- One request of the loop that gives messages their set.
pub record MappedOne (r id : ℕ) (s t : Requests) : Type 0 where
  pub grows : Grows s t
  pub placed : IsIn t id r

map_one-Mapped :
    (r id : ℕ) (a : RecvArgs) (s : Requests) {e : ℕ × Requests} {t : Requests}
    → find r s.recv_args ≡ some a
    → Named a.comm a.tag s e
    → map_one e.0 id (find e.0 e.1.set_of_msg) e.1 ≡ ok t
    → MappedOne r id s t
unfolding map_one
map_one-Mapped r id a s {e} {t} here n h = elim (Option-cases (find e.0 e.1.set_of_msg)) [
  | inl new ↦
      let u = record e.1 { set_of_msg = put e.0 id e.1.set_of_msg } in
      let grows : Grows e.1 u = record {
        receives = refl;
        names = λ k v z. z;
        sets = λ k v z. ground (arith, find-put k e.0 id e.1.set_of_msg);
      } in
      subst (MappedOne r id s) (ok-injective (sym (ap (λ o. map_one e.0 id o e.1) new) ∙ h))
        (record {
          grows = Grows-trans n.grows grows;
          placed = IsIn-Placed r a here (Grows-trans n.grows grows) (record {
            comm_id = n.comm_id;
            handle = n.handle;
            named = n.named;
            has_set =
                ap (λ m. find m u.set_of_msg) (sym n.same)
                ∙ ground (arith, find-put e.0 e.0 id e.1.set_of_msg);
          });
        })
  | inr (old, there) ↦
      let (same, kept) =
        when-ok (old == id) (ok e.1) (sym (ap (λ o. map_one e.0 id o e.1) there) ∙ h) in
      subst (MappedOne r id s) (ok-injective kept) (record {
        grows = n.grows;
        placed = IsIn-Placed r a here n.grows (record {
          comm_id = n.comm_id;
          handle = n.handle;
          named = n.named;
          has_set =
              ap (λ m. find m e.1.set_of_msg) (sym n.same)
              ∙ there
              ∙ ap some ((==_iff old id).0 same);
        });
      })
]

pub map_request-Mapped :
    (r id : ℕ) (s : Requests) {t : Requests} → map_request r id s ≡ ok t → MappedOne r id s t
unfolding map_request get_matching_id map_args
map_request-Mapped r id s h = elim (Option-cases (find r s.recv_args)) [
  | inl other ↦
      absurd (abort-ne-ok (sym (ap (λ o. get_matching_id o >>= λ a. map_args id a s) other) ∙ h))
  | inr (a, here) ↦
      let (e, asked, rest) =
        >>=-eq-ok (get_msg_id a.comm a.tag s) (λ e. map_one e.0 id (find e.0 e.1.set_of_msg) e.1)
          (sym (ap (λ o. get_matching_id o >>= λ a. map_args id a s) here) ∙ h) in
      map_one-Mapped r id a s here (get_msg_id-Named a.comm a.tag s asked) rest
]

record MappedAll (rs : List ℕ) (id : ℕ) (s t : Requests) : Type 0 where
  pub grows : Grows s t
  placed : All (IsIn t id) rs

IsIn-Grows : {s t : Requests} (id r : ℕ) → Grows s t → IsIn s id r → IsIn t id r
IsIn-Grows id r g h = λ a there. Placed-Grows g (h a (ap (find r) (sym g.receives) ∙ there))

map_comm_and_tag-Mapped :
    (rs : List ℕ) (id : ℕ) (s : Requests) {t : Requests}
    → map_comm_and_tag_to_matching_set_id rs id s ≡ ok t
    → MappedAll rs id s t
unfolding map_comm_and_tag_to_matching_set_id
map_comm_and_tag-Mapped [] id s h =
    subst (MappedAll [] id s) (ok-injective h) (record { grows = Grows-refl s; placed = tt })
map_comm_and_tag-Mapped (r ∷ rs) id s h =
    let (u, first, rest) =
      >>=-eq-ok (map_request r id s) (map_comm_and_tag_to_matching_set_id rs id) h in
    let w = map_request-Mapped r id s first in
    let v = map_comm_and_tag-Mapped rs id u rest in
    record {
      grows = Grows-trans w.grows v.grows;
      placed = (IsIn-Grows id r v.grows w.placed, v.placed);
    }

map_new-Mapped :
    (c : Config) (call_id : ℕ) (rs : List ℕ) (i : ℕ) (s : Requests) {f : From}
    {out : Ids × Requests}
    → from_requests rs false i s ≡ ok f
    → map_new c call_id rs f ≡ ok out
    → All (IsIn out.1 out.0.matching_set_id) rs
unfolding map_new new_or_known map_and_return
map_new-Mapped c call_id rs i s {f} {out} asked h = elim (Bool-cases f.exists) [
  | inl known ↦
      subst (λ (o : Ids × Requests). All (IsIn o.1 o.0.matching_set_id) rs)
        (ok-injective (sym (ap (λ b. new_or_known c call_id rs b f) known) ∙ h))
        (from_requests-FromKnown rs false i s asked known).placed
  | inr new ↦
      let (e, assigned, mapped) =
        >>=-eq-ok (assign_matching_set_id c call_id rs f.state) (map_and_return call_id rs)
          (sym (ap (λ b. new_or_known c call_id rs b f) new) ∙ h) in
      let (t, all, out_eq) =
        >>=-eq-ok (map_comm_and_tag_to_matching_set_id rs e.0 e.1)
          (λ t. ok (record { matching_set_id = e.0; mpi_call_id = call_id }, t)) mapped in
      subst (λ (o : Ids × Requests). All (IsIn o.1 o.0.matching_set_id) rs) (ok-injective out_eq)
        (map_comm_and_tag-Mapped rs e.0 e.1 all).placed
]

-- A call without a set asks for those of its receives' messages.
pub get_matching_set_id_3-first :
    (c : Config) (tag comm call_id : ℕ) (rs : List ℕ) (ids : Ids) (s : Requests)
    → c.mode ≡ mode_record
    → find call_id s.set_of_call ≡ none
    → get_matching_set_id_3 c mf tag comm call_id rs ids s
      ≡ (from_requests rs false ids.matching_set_id s >>= map_new c call_id rs)
unfolding get_matching_set_id_3 known_or_not record_3 get_matching_set_id_from
get_matching_set_id_3-first c tag comm call_id rs ids s recording new = rw (recording, new) refl

-- When recording, for a matching function of a call that has no set yet: if it gets a set, then all
-- messages that its receives ask for have that set.
pub get_matching_set_id_3-IsIn :
    (c : Config) (tag comm call_id : ℕ) (rs : List ℕ) (ids : Ids) (s : Requests)
    {out : Ids × Requests}
    → c.mode ≡ mode_record
    → find call_id s.set_of_call ≡ none
    → get_matching_set_id_3 c mf tag comm call_id rs ids s ≡ ok out
    → All (IsIn out.1 out.0.matching_set_id) rs
unfolding get_matching_set_id_3 known_or_not record_3 get_matching_set_id_from
get_matching_set_id_3-IsIn c tag comm call_id rs ids s recording new h =
    let (f, asked, rest) =
      >>=-eq-ok (from_requests rs false ids.matching_set_id s) (map_new c call_id rs)
        (sym (get_matching_set_id_3-first c tag comm call_id rs ids s recording new) ∙ h) in
    map_new-Mapped c call_id rs ids.matching_set_id s asked rest

-- When recording, for two calls without a set that test the same array, with at least one receive: if
-- the first gets a set, then the second does not abort, it gets the same set, and no table changes.
pub get_matching_set_id_3-again :
    (c : Config) (tag comm call_id other_id : ℕ) (rs : List ℕ) (ids other_ids : Ids) (s : Requests)
    {out : Ids × Requests}
    → c.mode ≡ mode_record
    → find call_id s.set_of_call ≡ none
    → get_matching_set_id_3 c mf tag comm call_id rs ids s ≡ ok out
    → find other_id out.1.set_of_call ≡ none
    → 0 < get_recv_request_count rs out.1
    → get_matching_set_id_3 c mf tag comm other_id rs other_ids out.1
      ≡ ok (record { matching_set_id = out.0.matching_set_id; mpi_call_id = other_id }, out.1)
unfolding map_new new_or_known
get_matching_set_id_3-again c tag comm call_id other_id rs ids other_ids s {out} recording new first
      other_new some_receive =
    let placed = get_matching_set_id_3-IsIn c tag comm call_id rs ids s recording new first in
    get_matching_set_id_3-first c tag comm other_id rs other_ids out.1 recording other_new
    ∙ ap (λ q. q >>= map_new c other_id rs)
        (from_requests-first rs other_ids.matching_set_id out.0.matching_set_id out.1 placed
          some_receive)
