-- ===== src/Event/Counting.antt =====
-- src/rempi/rempi_event.cpp: what a counted event stands for.
use re_mpi.Common.{
  ℕ, zero, suc, ◌-◌, ◌^◌, ◌≤◌, ◌<◌, ◌≡◌, refl, sym, ap, ◌∙◌, ◌⊎◌, true, Option, none, some, map,
  List, [], ◌∷◌, ◌++◌, arith, replicate, ok, length, append_assoc, append-nil, length-replicate,
}
use re_mpi.Event.{Inputs, Event, recv_type, test_type, increment, same_event, itself, split, pop}

-- One occurrence of a counted event.
abbrev pub once : Inputs → Inputs
once i = record i { event_count = 1 }

-- The occurrences that a counted event stands for.
unfoldable pub expand : Inputs → List Inputs
expand i = replicate i.event_count (once i)

unfoldable pub expand_all : List Inputs → List Inputs
unfolding expand
expand_all [] = []
expand_all (i ∷ is) = expand i ++ expand_all is

-- An event that the queues may hold: at least one occurrence, a count that is no negative int, and
-- only a Test event counts above one.
pub record IsCounted (i : Inputs) : Type 0 where
  pub positive : 1 ≤ i.event_count
  pub bounded : i.event_count < 2 ^ 31
  pub known : ((i.type ≡ recv_type) × (i.event_count ≡ 1)) ⊎ (i.type ≡ test_type)

-- What `pop` hands out of an event that counts more than one, and what stays.
abbrev pub taken : Event → Event
taken e = record {
  clock_order = e.clock_order;
  msg_count = e.msg_count;
  request = 0;
  mpi_inputs = once e.mpi_inputs;
}

abbrev pub left : Event → Event
left e =
    let i = e.mpi_inputs in record e { mpi_inputs = record i { event_count = i.event_count - 1 } }

module _ (e : Event) (counted : IsCounted e.mpi_inputs) where
  open e use {mpi_inputs as i}

  -- The last occurrence is handed out by the event itself.
  pub pop_last : i.event_count ≡ 1 → pop e ≡ ok itself
  unfolding pop
  pop_last h = ground (arith, counted.positive)

  pub pop_more : 1 < i.event_count → pop e ≡ ok (split (taken e) (left e))
  unfolding pop
  pop_more h = ground (arith, counted.known, counted.bounded)

  pub left-IsCounted : 1 < i.event_count → IsCounted (left e).mpi_inputs
  left-IsCounted h = ground (arith, counted.known, counted.bounded)

abbrev pub held : Option Event → List Inputs
held none = []
held (some e) = e.mpi_inputs ∷ []

abbrev pub inputs : List Event → List Inputs
inputs = map (λ (e : Event). e.mpi_inputs)

pub expand_all-append :
    (xs ys : List Inputs) → expand_all (xs ++ ys) ≡ expand_all xs ++ expand_all ys
unfolding expand_all
expand_all-append [] ys = refl
expand_all-append (x ∷ xs) ys =
    ap (◌++◌ (expand x)) (expand_all-append xs ys)
    ∙ sym (append_assoc (expand x) (expand_all xs) (expand_all ys))

pub expand_all_one : (x : Inputs) → expand_all (x ∷ []) ≡ expand x
unfolding expand_all
expand_all_one x = append-nil (expand x)

pub expand-once : (i : Inputs) → i.event_count ≡ 1 → expand i ≡ i ∷ []
unfolding expand
expand-once i h =
    ap (λ n. replicate n (once i)) h ∙ ap (λ n. record i { event_count = n } ∷ []) (sym h)

replicate_last : (n : ℕ) (i : Inputs) → replicate (suc n) i ≡ replicate n i ++ i ∷ []
replicate_last zero i = refl
replicate_last (suc n) i = ap (◌∷◌ i) (replicate_last n i)

pub length-expand : (i : Inputs) → length (expand i) ≡ i.event_count
unfolding expand
length-expand i = length-replicate i.event_count (once i)

-- What `push` merges: `e` is one more occurrence of `p`.
module _ (p e : Event) (same : same_event p e ≡ true)
    (group : p.mpi_inputs.matching_group_id ≡ e.mpi_inputs.matching_group_id)
    (single : e.mpi_inputs.event_count ≡ 1) where
  once-same : once p.mpi_inputs ≡ e.mpi_inputs
  unfolding same_event
  once-same = ground arith

  pub expand-increment :
      suc p.mpi_inputs.event_count < 2 ^ 31
      → expand (increment p).mpi_inputs ≡ expand p.mpi_inputs ++ e.mpi_inputs ∷ []
  unfolding increment expand
  expand-increment h =
      ap (λ n. replicate n (once p.mpi_inputs)) {y = suc p.mpi_inputs.event_count} (omega arith)
      ∙ replicate_last p.mpi_inputs.event_count (once p.mpi_inputs)
      ∙ ap (λ i. replicate p.mpi_inputs.event_count (once p.mpi_inputs) ++ i ∷ []) once-same

  pub increment-IsCounted :
      IsCounted p.mpi_inputs
      → suc p.mpi_inputs.event_count < 2 ^ 31
      → IsCounted (increment p).mpi_inputs
  unfolding increment same_event
  increment-IsCounted c h = ground (arith, c.known, c.positive)

pub expand_last : (i : Inputs) → i.event_count ≡ 1 → expand i ≡ once i ∷ []
unfolding expand
expand_last i h = ap (λ n. replicate n (once i)) h

pub expand_more :
    (i : Inputs)
    → 1 < i.event_count
    → expand i ≡ once i ∷ expand (record i { event_count = i.event_count - 1 })
unfolding expand
expand_more i h = ap (λ n. replicate n (once i)) {y = suc (i.event_count - 1)} (omega arith)
