-- ===== src/Request/Select/Refused.antt =====
-- src/rempi/rempi_request_mg.cpp: a first matching function over a new message and a request that is no
-- receive ends the process.
use mathlib.Core.List.{Memᴰ}
use re_mpi.Common.{
  ℕ, ◌≡◌, refl, sym, ◌∙◌, ap, false, Bool-cases, Option, inl, inr, none, some, List, [], ◌∷◌, ◌==◌,
  ◌&&◌, not, ok, abort, ◌>>=◌, >>=-eq-ok, abort-ne-ok, Ensures, Ensures->>=, Ensures-then,
  Ensures-if, Ensures-ok, arith,
}
use re_mpi.Common.Maps.{find, put, find-put}
use re_mpi.Request.{Config, Requests, RecvArgs, unknown, mode_record}
use re_mpi.Request.Assign.{
  has, assign_to_args, assign_to_one, assign_matching_set_id_to_recv, get_matching_set_id_from_recv,
  assign_new, assign_for, assign_matching_set_id, get_matching_id, map_args, map_request,
  map_comm_and_tag_to_matching_set_id,
}
use re_mpi.Request.Select.{
  From, mf, Ids, get_matching_set_id_from, get_matching_set_id_3, map_new, new_or_known,
  map_and_return,
}
use re_mpi.Request.Select.Mapped.{map_request-Mapped, get_matching_set_id_3-first}

module _ (r : ℕ) where
  -- The request is no receive.
  abbrev IsOther : Requests → Type 0
  IsOther s = find r s.recv_args ≡ none

  assign_to_args-IsOther :
      (id q : ℕ) (a : RecvArgs) (s : Requests)
      → find q s.recv_args ≡ some a
      → IsOther s
      → IsOther (assign_to_args id q a s)
  unfolding assign_to_args
  assign_to_args-IsOther id q a s there h = elim (Bool-cases (a.matching_set_id == unknown)) [
    | inl e ↦ rw e (ground (arith, find-put r q (record a { matching_set_id = id }) s.recv_args))
    | inr e ↦ rw e h
  ]

  assign_to_one-IsOther :
      (c : Config) (id q : ℕ) (o : Option RecvArgs) (s : Requests)
      → find q s.recv_args ≡ o
      → IsOther s
      → Ensures IsOther (assign_to_one c id q o s)
  unfolding assign_to_one
  assign_to_one-IsOther c id q none s there h =
      Ensures-if IsOther (not (q == c.null_request) && not (has (find q s.send_args))) abort (ok s)
        tt h
  assign_to_one-IsOther c id q (some a) s there h = assign_to_args-IsOther id q a s there h

  assign_to_recv-IsOther :
      (c : Config) (id : ℕ) (rs : List ℕ) (s : Requests)
      → IsOther s
      → Ensures IsOther (assign_matching_set_id_to_recv c id rs s)
  unfolding assign_matching_set_id_to_recv
  assign_to_recv-IsOther c id [] s h = h
  assign_to_recv-IsOther c id (q ∷ rs) s h =
      Ensures->>= IsOther IsOther (assign_to_one c id q (find q s.recv_args) s)
        (assign_matching_set_id_to_recv c id rs)
        (assign_to_one-IsOther c id q (find q s.recv_args) s refl h)
        (λ t k. assign_to_recv-IsOther c id rs t k)

  abbrev OtherAfter : ℕ × Requests → Type 0
  OtherAfter e = IsOther e.1

  assign_new-IsOther :
      (c : Config) (call : ℕ) (rs : List ℕ) (id : ℕ) (s : Requests)
      → IsOther s
      → Ensures OtherAfter (assign_new c call rs id s)
  unfolding assign_new
  assign_new-IsOther c call rs id s h =
      let t = record s { set_of_call = put call call s.set_of_call } in
      Ensures-if OtherAfter (id == unknown) _ _
        (Ensures->>= IsOther OtherAfter (assign_matching_set_id_to_recv c call rs t) _
          (assign_to_recv-IsOther c call rs t h) (λ u k. k))
        h

  assign_matching_set_id-IsOther :
      (c : Config) (call : ℕ) (o : Option ℕ) (rs : List ℕ) (s : Requests)
      → IsOther s
      → Ensures OtherAfter (assign_for c call o rs s)
  unfolding assign_for
  assign_matching_set_id-IsOther c call none rs s h =
      Ensures-then OtherAfter (get_matching_set_id_from_recv rs unknown s)
        (λ id. assign_new c call rs id s) (λ id. assign_new-IsOther c call rs id s h)
  assign_matching_set_id-IsOther c call (some id) rs s h =
      Ensures->>= IsOther OtherAfter (assign_matching_set_id_to_recv c id rs s) _
        (assign_to_recv-IsOther c id rs s h) (λ u k. k)

  -- Giving messages a set refuses the array.
  map_request-refuses :
      (id : ℕ) (s : Requests) {t : Requests} → IsOther s → ¬ (map_request r id s ≡ ok t)
  unfolding map_request get_matching_id
  map_request-refuses id s h e =
      abort-ne-ok (sym (ap (λ o. get_matching_id o >>= λ a. map_args id a s) h) ∙ e)

  map_comm_and_tag-refuses :
      (rs : List ℕ) (id : ℕ) (s : Requests) {t : Requests}
      → IsOther s
      → Memᴰ r rs
      → ¬ (map_comm_and_tag_to_matching_set_id rs id s ≡ ok t)
  unfolding map_comm_and_tag_to_matching_set_id
  map_comm_and_tag-refuses [] id s h m e = elim m [ ]
  map_comm_and_tag-refuses (q ∷ rs) id s h (Memᴰ.head same) e =
      let (u, first, rest) =
        >>=-eq-ok (map_request q id s) (map_comm_and_tag_to_matching_set_id rs id) e in
      map_request-refuses id s h (ap (λ k. map_request k id s) same ∙ first)
  map_comm_and_tag-refuses (q ∷ rs) id s h (Memᴰ.tail m) e =
      let (u, first, rest) =
        >>=-eq-ok (map_request q id s) (map_comm_and_tag_to_matching_set_id rs id) e in
      let grows = (map_request-Mapped q id s first).grows in
      map_comm_and_tag-refuses rs id u (ap (find r) grows.receives ∙ h) m rest

-- When recording, for a matching function of a call that has no set yet: if some message that the array
-- asks for has no set, and some request of the array is no receive, MPI_REQUEST_NULL included, then the
-- call does not return.
pub get_matching_set_id_3-refuses :
    (c : Config) (tag comm call_id r : ℕ) (rs : List ℕ) (ids : Ids) (s : Requests) {f : From}
    {out : Ids × Requests}
    → c.mode ≡ mode_record
    → find call_id s.set_of_call ≡ none
    → get_matching_set_id_from mf tag comm ids.matching_set_id rs s ≡ ok f
    → f.exists ≡ false
    → Memᴰ r rs
    → find r f.state.recv_args ≡ none
    → ¬ (get_matching_set_id_3 c mf tag comm call_id rs ids s ≡ ok out)
unfolding get_matching_set_id_from map_new new_or_known map_and_return assign_matching_set_id
get_matching_set_id_3-refuses c tag comm call_id r rs ids s {f} recording new asked unknown_msg m
      other e =
    let (e', assigned, mapped) =
      >>=-eq-ok (assign_matching_set_id c call_id rs f.state) (map_and_return call_id rs) (
        sym (ap (λ b. new_or_known c call_id rs b f) unknown_msg)
        ∙ sym (ap (λ q. q >>= map_new c call_id rs) asked)
        ∙ sym (get_matching_set_id_3-first c tag comm call_id rs ids s recording new)
        ∙ e) in
    let after =
      Ensures-ok (OtherAfter r) (assign_matching_set_id c call_id rs f.state)
        (assign_matching_set_id-IsOther r c call_id (find call_id f.state.set_of_call) rs f.state
          other)
        assigned in
    let (t, all, rest) =
      >>=-eq-ok (map_comm_and_tag_to_matching_set_id rs e'.0 e'.1)
        (λ t. ok (record { matching_set_id = e'.0; mpi_call_id = call_id }, t)) mapped in
    map_comm_and_tag-refuses r rs e'.0 e'.1 after m all
