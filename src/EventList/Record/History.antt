-- ===== src/EventList/Record/History.antt =====
-- src/rempi/rempi_event_list.cpp: recording loses, adds and reorders no event.
use re_mpi.Common.{
  ℕ, suc, ◌+◌, ◌^◌, ◌≤◌, ◌<◌, ◌≡◌, refl, sym, ap, ◌∙◌, true, List, [], ◌∷◌, ◌++◌, arith, length,
  All, All-append, All-append_parts, length-map, length-append, append_assoc,
}
use mathlib.Core.Path.{subst, ap₂}
use re_mpi.Event.{Inputs, Event, increment, same_event}
use re_mpi.Event.Counting.{
  inputs, IsCounted, expand, expand_all, expand_all-append, expand_all_one, expand-once,
  expand-increment, increment-IsCounted, length-expand,
}
use re_mpi.EventList.Record.{
  queued, inputs-append, IsSingle, Recording, Step, produce, consume, close, Reach, start, next,
  stream,
}
use re_mpi.EventList.Record.Effect.{
  Effect, merged, appended, push-Effect, push_all-queued, pop-queued,
}

-- A stream of counted events stands for the events that were pushed.
pub record IsHistory (xs : List Inputs) (pushed : List Event) : Type 0 where
  pub history : expand_all xs ≡ inputs pushed
  pub counted : All IsCounted xs

single-IsCounted : (e : Event) → IsSingle e → IsCounted e.mpi_inputs
single-IsCounted e single = ground (arith, single.1)

append-IsHistory :
    (xs : List Inputs) (e : Event) (pushed : List Event)
    → IsSingle e
    → IsHistory xs pushed
    → IsHistory (xs ++ e.mpi_inputs ∷ []) (pushed ++ e ∷ [])
append-IsHistory xs e pushed single h = record {
  history =
      expand_all-append xs (e.mpi_inputs ∷ [])
      ∙ ap₂ ◌++◌ h.history (expand_all_one e.mpi_inputs ∙ expand-once e.mpi_inputs single.0)
      ∙ sym (inputs-append pushed e);
  counted = All-append IsCounted xs (e.mpi_inputs ∷ []) h.counted (single-IsCounted e single, tt);
}

-- The count of the last event is at most the number of events pushed.
count-le-length :
    (xs : List Inputs) (i : Inputs) (pushed : List Event)
    → IsHistory (xs ++ i ∷ []) pushed
    → i.event_count ≤ length pushed
count-le-length xs i pushed h =
    let total : expand_all xs ++ expand i ≡ inputs pushed =
      ap (◌++◌ (expand_all xs)) (sym (expand_all_one i))
      ∙ sym (expand_all-append xs (i ∷ []))
      ∙ h.history in
    omega (
      arith,
      ap length total,
      length-append (expand_all xs) (expand i),
      length-expand i,
      length-map (λ (e : Event). e.mpi_inputs) pushed,
    )

merge-IsHistory :
    (xs : List Inputs) (p e : Event) (pushed : List Event)
    → IsSingle e
    → length pushed + 1 < 2 ^ 31
    → same_event p e ≡ true
    → p.mpi_inputs.matching_group_id ≡ e.mpi_inputs.matching_group_id
    → IsHistory (xs ++ p.mpi_inputs ∷ []) pushed
    → IsHistory (xs ++ (increment p).mpi_inputs ∷ []) (pushed ++ e ∷ [])
merge-IsHistory xs p e pushed single short same group h =
    let small : suc p.mpi_inputs.event_count < 2 ^ 31 =
      omega (arith, count-le-length xs p.mpi_inputs pushed h) in
    let (settled, last) = All-append_parts IsCounted xs (p.mpi_inputs ∷ []) h.counted in
    record {
      history =
          expand_all-append xs ((increment p).mpi_inputs ∷ [])
          ∙ ap (◌++◌ (expand_all xs)) (
              expand_all_one (increment p).mpi_inputs
              ∙ expand-increment p e same group single.0 small)
          ∙ sym (append_assoc (expand_all xs) (expand p.mpi_inputs) (e.mpi_inputs ∷ []))
          ∙ ap (λ ys. ys ++ e.mpi_inputs ∷ [])
              (ap (◌++◌ (expand_all xs)) (sym (expand_all_one p.mpi_inputs))
                ∙ sym (expand_all-append xs (p.mpi_inputs ∷ []))
                ∙ h.history)
          ∙ sym (inputs-append pushed e);
      counted =
          All-append IsCounted xs ((increment p).mpi_inputs ∷ []) settled
            (increment-IsCounted p e same group single.0 last.0 small, tt);
    }

pub Effect-IsHistory :
    (e : Event) (front before after : List Inputs) (pushed : List Event)
    → IsSingle e
    → length pushed + 1 < 2 ^ 31
    → Effect e before after
    → IsHistory (front ++ before) pushed
    → IsHistory (front ++ after) (pushed ++ e ∷ [])
Effect-IsHistory e front before after pushed single short (merged xs p same group b a) h =
    let at_end : (i : Inputs) → (front ++ xs) ++ i ∷ [] ≡ front ++ (xs ++ i ∷ []) =
      λ i. append_assoc front xs (i ∷ []) in
    subst (λ ys. IsHistory ys (pushed ++ e ∷ []))
      (at_end (increment p).mpi_inputs ∙ ap (◌++◌ front) (sym a))
      (merge-IsHistory (front ++ xs) p e pushed single short same group
        (subst (λ ys. IsHistory ys pushed) (ap (◌++◌ front) b ∙ sym (at_end p.mpi_inputs)) h))
Effect-IsHistory e front before after pushed single short (appended a) h =
    subst (λ ys. IsHistory ys (pushed ++ e ∷ []))
      (append_assoc front before (e.mpi_inputs ∷ []) ∙ ap (◌++◌ front) (sym a))
      (append-IsHistory (front ++ before) e pushed single h)

Step-IsHistory :
    {s t : Recording}
    → Step s t
    → length t.pushed < 2 ^ 31
    → IsHistory (stream s) s.pushed
    → IsHistory (stream t) t.pushed
Step-IsHistory {s} (produce e {l} single done) short h =
    Effect-IsHistory e (inputs s.popped) (queued s.list) (queued l) s.pushed single
      (omega (arith, length-append s.pushed (e ∷ []))) (push-Effect s.list e done) h
Step-IsHistory {s} (consume e {l} done) short h =
    subst (λ ys. IsHistory ys s.pushed)
      (ap (◌++◌ (inputs s.popped)) (pop-queued s.list s.list.events.items e refl done)
        ∙ sym (append_assoc (inputs s.popped) (e.mpi_inputs ∷ []) (queued l))
        ∙ ap (λ ys. ys ++ queued l) (sym (inputs-append s.popped e)))
      h
Step-IsHistory {s} (close {l} done) short h =
    subst (λ ys. IsHistory ys s.pushed)
      (ap (◌++◌ (inputs s.popped)) (sym (push_all-queued s.list done))) h

length-pushed-le : {s t : Recording} → Step s t → length s.pushed ≤ length t.pushed
length-pushed-le {s} (produce e single done) = omega (arith, length-append s.pushed (e ∷ []))
length-pushed-le (consume e done) = omega arith
length-pushed-le (close done) = omega arith

-- In every interleaving of pushes of single events, pops and `push_all` in which fewer than `2 ^ 31`
-- events are pushed: the events popped, queued and pending are counted events, and expanding their
-- counts gives the inputs of the pushed events, all of them and in order.
pub Reach-IsHistory :
    {n : ℕ} {s : Recording} → Reach n s → length s.pushed < 2 ^ 31 → IsHistory (stream s) s.pushed
unfolding expand_all
Reach-IsHistory start short = record { history = refl; counted = tt }
Reach-IsHistory (next r st) short =
    Step-IsHistory st short (Reach-IsHistory r (omega (arith, length-pushed-le st)))
