-- ===== src/EventList/Record/Effect.antt =====
-- src/rempi/rempi_event_list.cpp: what `push`, `push_all` and `pop` do to the events in the list.
use re_mpi.Common.{
  ◌≡◌, refl, sym, ap, ◌∙◌, true, false, Option, none, some, List, [], ◌∷◌, ◌++◌, arith, ◌==◌,
  Bool-cases, inl, inr, ◌&&◌, ok, ok-injective, >>=-eq-ok, unless-abort, append-nil,
}
use mathlib.Core.Path.{subst, ap₂}
use re_mpi.Event.{Inputs, Event, increment, same_event}
use re_mpi.Event.Counting.{inputs}
use re_mpi.SpscQueue.Fifo.{enqueue, shifted}
use re_mpi.EventList.{EventList, normal_push, flush, push_after, push, push_all, pop}
use mathlib.Core.Option.{some-injective}
use re_mpi.EventList.Record.{unless_closed, pending, queued, inputs-append}

-- What a successful `push` does to the events in the list.
pub data Effect (e : Event) (before after : List Inputs) : Type 0 where
  merged :
      (xs : List Inputs) (p : Event)
      → same_event p e ≡ true
      → p.mpi_inputs.matching_group_id ≡ e.mpi_inputs.matching_group_id
      → before ≡ xs ++ p.mpi_inputs ∷ []
      → after ≡ xs ++ (increment p).mpi_inputs ∷ []
      → Effect e before after
  appended : after ≡ before ++ e.mpi_inputs ∷ [] → Effect e before after

queued-none :
    (l : EventList)
    → l.is_push_closed ≡ false
    → l.previous_recording_event ≡ none
    → queued l ≡ inputs l.events.items
queued-none l open_ prev =
    ap₂ (λ c o. inputs l.events.items ++ unless_closed c o) open_ prev
    ∙ append-nil (inputs l.events.items)

queued-some :
    (l : EventList) (p : Event)
    → l.is_push_closed ≡ false
    → l.previous_recording_event ≡ some p
    → queued l ≡ inputs l.events.items ++ p.mpi_inputs ∷ []
queued-some l p open_ prev = ap₂ (λ c o. inputs l.events.items ++ unless_closed c o) open_ prev

normal_push-enqueue :
    (l : EventList) (e : Event) {l' : EventList}
    → normal_push l e ≡ ok l'
    → record l { events = enqueue l.events e } ≡ l'
unfolding normal_push
normal_push-enqueue l e {l'} h = ground (arith, h)

push_after-Effect :
    (l : EventList) (e : Event) (prev : Option Event) {l' : EventList}
    → l.is_push_closed ≡ false
    → l.previous_recording_event ≡ prev
    → push_after l prev e ≡ ok l'
    → Effect e (queued l) (queued l')
unfolding push_after
push_after-Effect l e none {l'} open_ prev h =
    let done : record l { previous_recording_event = some e } ≡ l' = ok-injective h in
    subst (λ l'. Effect e (queued l) (queued l')) done
      (appended (
        queued-some (record l { previous_recording_event = some e }) e open_ refl
        ∙ ap (λ xs. xs ++ e.mpi_inputs ∷ []) (sym (queued-none l open_ prev))))
push_after-Effect l e (some p) {l'} open_ prev h =
    elim (Bool-cases
      (same_event p e && p.mpi_inputs.matching_group_id == e.mpi_inputs.matching_group_id)) [
        | inl same ↦
            subst (λ l'. Effect e (queued l) (queued l')) (ok-injective (rw same at h))
              (merged (inputs l.events.items) p (ground arith) (ground arith)
                (queued-some l p open_ prev)
                (queued-some (record l { previous_recording_event = some (increment p) })
                  (increment p) open_ refl))
        | inr other ↦
            let (l₁, full, done) =
              >>=-eq-ok (normal_push l p)
                (λ l'. ok (record l' { previous_recording_event = some e })) (rw other at h) in
            let l₂ : EventList = record l {
              events = enqueue l.events p;
              previous_recording_event = some e;
            } in
            let moved : l₂ ≡ l' =
              ap (λ (l : EventList). record l { previous_recording_event = some e })
                (normal_push-enqueue l p full)
              ∙ ok-injective done in
            subst (λ l'. Effect e (queued l) (queued l')) moved
              (appended (
                queued-some l₂ e open_ refl
                ∙ ap (λ xs. xs ++ e.mpi_inputs ∷ [])
                    (inputs-append l.events.items p ∙ sym (queued-some l p open_ prev))))
      ]

pub push-Effect :
    (l : EventList) (e : Event) {l' : EventList}
    → push l e ≡ ok l'
    → Effect e (queued l) (queued l')
unfolding push
push-Effect l e h =
    let (open_, done) =
      unless-abort l.is_push_closed (push_after l l.previous_recording_event e) h in
    push_after-Effect l e l.previous_recording_event open_ refl done

-- `push_all` moves the pending event into the queue.
pub flush-queued :
    (l : EventList) (prev : Option Event) {l' : EventList}
    → l.is_push_closed ≡ false
    → l.previous_recording_event ≡ prev
    → flush l prev ≡ ok l'
    → inputs l'.events.items ≡ queued l
unfolding flush
flush-queued l none open_ prev h =
    ap (λ (l : EventList). inputs l.events.items) (sym (ok-injective h))
    ∙ sym (queued-none l open_ prev)
flush-queued l (some p) open_ prev h =
    ap (λ (l : EventList). inputs l.events.items) (sym (normal_push-enqueue l p h))
    ∙ inputs-append l.events.items p
    ∙ sym (queued-some l p open_ prev)

pub push_all-queued : (l : EventList) {l' : EventList} → push_all l ≡ ok l' → queued l' ≡ queued l
unfolding push_all
push_all-queued l h =
    let (open_, rest) = unless-abort l.is_push_closed _ h in
    let (l₁, flushed, done) = >>=-eq-ok (flush l l.previous_recording_event) _ rest in
    ap queued (sym (ok-injective done))
    ∙ append-nil (inputs l₁.events.items)
    ∙ flush-queued l l.previous_recording_event open_ refl flushed

abbrev taken : EventList → List Event → Option Event × EventList
taken l ys = let (e, q) = shifted l.events ys in (e, record l { events = q })

pub pop-items :
    (l : EventList) (items : List Event) (e : Event) {l' : EventList}
    → l.events.items ≡ items
    → pop l ≡ (some e, l')
    → inputs l.events.items ≡ e.mpi_inputs ∷ inputs l'.events.items
unfolding pop
pop-items l [] e {l'} shape h =
    let nothing : pop l ≡ (none, l) = ap (λ ys. taken l ys) shape in cc (sym nothing ∙ h)
pop-items l (x ∷ xs) e {l'} shape h =
    let whole : pop l ≡ taken l (x ∷ xs) = ap (λ ys. taken l ys) shape in
    let all = sym whole ∙ h in
    ap inputs shape
    ∙ ap₂ (λ y ys. y.mpi_inputs ∷ ys) (some-injective x e (ap (λ r. r.0) all))
        (ap (λ r. inputs r.1.events.items) all)

-- `pop` takes the first event of the queue and nothing else.
pub pop-queued :
    (l : EventList) (items : List Event) (e : Event) {l' : EventList}
    → l.events.items ≡ items
    → pop l ≡ (some e, l')
    → queued l ≡ e.mpi_inputs ∷ queued l'
unfolding pop
pop-queued l [] e {l'} shape h =
    let nothing : pop l ≡ (none, l) = ap (λ ys. taken l ys) shape in cc (sym nothing ∙ h)
pop-queued l (x ∷ xs) e {l'} shape h =
    let got : taken l (x ∷ xs) ≡ (some e, l') = ap (λ ys. taken l ys) (sym shape) ∙ h in
    ap (λ ys. inputs ys ++ pending l) shape
    ∙ ap₂ (λ (y : Event) l'. y.mpi_inputs ∷ queued l') (some-injective x e (ap (λ r. r.0) got))
        (ap (λ r. r.1) got)
