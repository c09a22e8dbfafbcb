-- ===== src/Request/Select/Agreed.antt =====
-- src/rempi/rempi_request_mg.cpp: the set that a matching function gets when recording is from then on
-- the set of its receives' messages.
use mathlib.Core.Path.{subst}
use mathlib.Core.Option.{none-ne-some, some-injective}
use re_mpi.Common.{
  ℕ, ◌≡◌, refl, sym, ◌∙◌, ap, Bool, true, Option-cases, inl, inr, none, some, List, [], ◌∷◌, ◌==◌,
  ◌&&◌, not, All, ok, ◌>>=◌, >>=-eq-ok, ok-injective, false-ne-true, unless-abort, arith,
}
use re_mpi.Common.Maps.{find}
use re_mpi.Request.{Requests, RecvArgs, get_msg_id}
use re_mpi.Request.Select.{
  From, Turn, missing, found, from_set, from_request, from_requests, after_turn,
}
use re_mpi.Request.Select.Consistent.{
  Grows, Grows-refl, Grows-trans, Placed, Placed-Grows, IsIn, Named, get_msg_id-Named,
}

-- A turn that has found an id.
record Found (b : Bool) (i : ℕ) (a : RecvArgs) (s : Requests) (b' : Bool) (i' : ℕ) (t : Requests)
    : Type 0 where
  is_set : b' ≡ true
  kept : b ≡ true → i' ≡ i
  grows : Grows s t
  placed : Placed t i' a

abbrev TurnOk : Bool → ℕ → RecvArgs → Requests → Turn → Type 0
TurnOk b i a s (missing t) = Unit
TurnOk b i a s (found b' i' t) = Found b i a s b' i' t

from_set-TurnOk :
    (b : Bool) (i : ℕ) (a : RecvArgs) (s : Requests) {e : ℕ × Requests} {turn : Turn}
    → Named a.comm a.tag s e
    → from_set b i (find e.0 e.1.set_of_msg) e.1 ≡ ok turn
    → TurnOk b i a s turn
unfolding from_set
from_set-TurnOk b i a s {e} {turn} n h = elim (Option-cases (find e.0 e.1.set_of_msg)) [
  | inl new ↦ subst (TurnOk b i a s) (ok-injective (sym (ap (λ o. from_set b i o e.1) new) ∙ h)) tt
  | inr (tmp, old) ↦
      let (guard, same) =
        unless-abort (b && not (tmp == i)) (ok (found true tmp e.1))
          (sym (ap (λ o. from_set b i o e.1) old) ∙ h) in
      subst (TurnOk b i a s) (ok-injective same) (record {
        is_set = refl;
        kept = λ set. ground arith;
        grows = n.grows;
        placed = record {
          comm_id = n.comm_id;
          handle = n.handle;
          named = n.named;
          has_set = ap (λ m. find m e.1.set_of_msg) (sym n.same) ∙ old;
        };
      })
]

from_request-TurnOk :
    (b : Bool) (i : ℕ) (a : RecvArgs) (s : Requests) {turn : Turn}
    → from_request b i (some a) s ≡ ok turn
    → TurnOk b i a s turn
unfolding from_request
from_request-TurnOk b i a s h =
    let (e, asked, rest) =
      >>=-eq-ok (get_msg_id a.comm a.tag s) (λ e. from_set b i (find e.0 e.1.set_of_msg) e.1) h in
    from_set-TurnOk b i a s (get_msg_id-Named a.comm a.tag s asked) rest

-- A receive whose messages have the set, in a state with the same receives.
pub IsIn-Placed :
    {s t : Requests} {id : ℕ} (r : ℕ) (a : RecvArgs)
    → find r s.recv_args ≡ some a
    → Grows s t
    → Placed t id a
    → IsIn t id r
IsIn-Placed {t} {id} r a here g p b there =
    subst (Placed t id) (some-injective a b (sym here ∙ ap (find r) (sym g.receives) ∙ there)) p

-- What the loop leaves where every message has a set.
pub record FromKnown (b : Bool) (i : ℕ) (rs : List ℕ) (s : Requests) (f : From) : Type 0 where
  pub grows : Grows s f.state
  pub kept : b ≡ true → f.matching_set_id ≡ i
  pub placed : All (IsIn f.state f.matching_set_id) rs

-- A request that is no receive asks for nothing.
FromKnown-other :
    (r : ℕ) (rs : List ℕ) (b : Bool) (i : ℕ) (s : Requests) (f : From)
    → find r s.recv_args ≡ none
    → FromKnown b i rs s f
    → FromKnown b i (r ∷ rs) s f
FromKnown-other r rs b i s f other k = record {
  grows = k.grows;
  kept = k.kept;
  placed = (
    λ a there. absurd (none-ne-some a (sym other ∙ ap (find r) (sym k.grows.receives) ∙ there)),
    k.placed,
  );
}

FromKnown-turn :
    (r : ℕ) (rs : List ℕ) (b : Bool) (i : ℕ) (a : RecvArgs) (s : Requests) {f : From} (turn : Turn)
    → find r s.recv_args ≡ some a
    → TurnOk b i a s turn
    → after_turn i turn (from_requests rs) ≡ ok f
    → f.exists ≡ true
    → ((b' : Bool) (i' : ℕ) (t : Requests)
        → from_requests rs b' i' t ≡ ok f
        → FromKnown b' i' rs t f)
    → FromKnown b i (r ∷ rs) s f
unfolding after_turn
FromKnown-turn r rs b i a s (missing t) here turn_ok h all_known rest =
    absurd (false-ne-true (ap (λ g. g.exists) (ok-injective h) ∙ all_known))
FromKnown-turn r rs b i a s {f} (found b' i' t) here turn_ok h all_known rest =
    let k = rest b' i' t h in
    let same = k.kept turn_ok.is_set in
    record {
      grows = Grows-trans turn_ok.grows k.grows;
      kept = λ set. same ∙ turn_ok.kept set;
      placed = (
        IsIn-Placed r a here (Grows-trans turn_ok.grows k.grows)
            (subst (λ id. Placed f.state id a) (sym same) (Placed-Grows k.grows turn_ok.placed)),
        k.placed,
      );
    }

pub from_requests-FromKnown :
    (rs : List ℕ) (b : Bool) (i : ℕ) (s : Requests) {f : From}
    → from_requests rs b i s ≡ ok f
    → f.exists ≡ true
    → FromKnown b i rs s f
unfolding from_requests from_request
from_requests-FromKnown [] b i s h all_known =
    subst (FromKnown b i [] s) (ok-injective h)
      (record { grows = Grows-refl s; kept = λ e. refl; placed = tt })
from_requests-FromKnown (r ∷ rs) b i s {f} h all_known = elim (Option-cases (find r s.recv_args)) [
  | inl other ↦ FromKnown-other r rs b i s f other (
      from_requests-FromKnown rs b i s
        (sym (ap (λ o. from_request b i o s >>= λ turn. after_turn i turn (from_requests rs)) other)
          ∙ h)
        all_known)
  | inr (a, here) ↦
      let (turn, first, rest) =
        >>=-eq-ok (from_request b i (some a) s) (λ turn. after_turn i turn (from_requests rs))
          (sym
              (ap (λ o. from_request b i o s >>= λ turn. after_turn i turn (from_requests rs)) here)
            ∙ h) in
      FromKnown-turn r rs b i a s turn here (from_request-TurnOk b i a s first) rest all_known
        (λ b' i' t k. from_requests-FromKnown rs b' i' t k all_known)
]
