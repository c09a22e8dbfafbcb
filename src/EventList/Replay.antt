-- ===== src/EventList/Replay.antt =====
-- src/rempi/rempi_event_list.cpp on the replaying side: the decoder has enqueued counted events for
-- one test id and closed the list; the application dequeues one occurrence a call.
use re_mpi.Common.{
  update, update_self, ℕ, zero, suc, ◌+◌, ◌%◌, ◌≤◌, ◌≡◌, refl, sym, ap, ◌∙◌, true, Option, none,
  some, List, [], ◌∷◌, ◌++◌, arith, Run, ok, ◌>>=◌, length, All, All-append, dec_lt,
}
use mathlib.Core.Path.{subst, ap₂}
use re_mpi.Event.{Inputs, Event}
use re_mpi.Event.Counting.{
  held, inputs, left-IsCounted, IsCounted, once, expand_all, pop_last, pop_more, taken, left,
  expand_all_one, expand_all-append, expand-once, expand_more,
}
use re_mpi.SpscQueue.Fifo.{Fifo, shifted, size_mod}
use re_mpi.EventList.{
  EventList, Status, finish, dequeued, hand_out, fetch, dequeue_from, dequeue_replay,
}

-- The application's calls, one after the other, until one hands out no event: the events and the
-- last status. `fuel` bounds the calls.
unfoldable pub drain : ℕ → EventList → ℕ → Run (List Event × Status)
drain zero l test_id = ok ([], dequeued)
drain (suc fuel) l test_id = dequeue_replay l test_id >>= λ (l', status, event). elim event [
  | none ↦ ok ([], status)
  | some e ↦ drain fuel l' test_id >>= λ (es, last). ok (e ∷ es, last)
]

-- A successful call on the event `e`: what it returns, and what is left of `e`.
record HandedOut (l : EventList) (test_id : ℕ) (e : Event) : Type 0 where
  after : EventList
  event : Event
  result : hand_out l test_id e ≡ ok (after, dequeued, some event)
  queues : after.replay_events ≡ l.replay_events
  closed : after.is_push_closed ≡ l.is_push_closed
  counted : All IsCounted (held (after.previous_replaying_event test_id))
  expands :
      expand_all (held (some e))
      ≡ event.mpi_inputs ∷ expand_all (held (after.previous_replaying_event test_id))

hand_out_lem :
    (l : EventList) (test_id : ℕ) (e : Event) → IsCounted e.mpi_inputs → HandedOut l test_id e
unfolding hand_out expand_all
hand_out_lem l test_id e c = elim (dec_lt 1 e.mpi_inputs.event_count) [
  | yes many ↦ record {
    after = record l {
      previous_replaying_event = update l.previous_replaying_event test_id (some (left e));
    };
    event = taken e;
    result = rw (pop_more e c many);
    queues = refl;
    closed = refl;
    counted =
        rw (update_self l.previous_replaying_event test_id (some (left e)))
          (left-IsCounted e c many, tt);
    expands =
        expand_all_one e.mpi_inputs
        ∙ expand_more e.mpi_inputs many
        ∙ ap (◌∷◌ (once e.mpi_inputs)) (
            sym (expand_all_one (left e).mpi_inputs)
            ∙ ap (λ o. expand_all (held o))
                (sym (update_self l.previous_replaying_event test_id (some (left e)))));
  }
  | no few ↦
      let one : e.mpi_inputs.event_count ≡ 1 = omega (arith, c.positive) in
      record {
        after = record l {
          previous_replaying_event = update l.previous_replaying_event test_id none;
        };
        event = e;
        result = rw (pop_last e c one);
        queues = refl;
        closed = refl;
        counted = rw (update_self l.previous_replaying_event test_id none) tt;
        expands =
            expand_all_one e.mpi_inputs
            ∙ expand-once e.mpi_inputs one
            ∙ ap (λ o. e.mpi_inputs ∷ expand_all (held o))
                (sym (update_self l.previous_replaying_event test_id none));
      }
]

-- What the list still holds for `test_id`: the rest of the last event, and the queue.
abbrev pub remaining : EventList → ℕ → Fifo Event → List Inputs
remaining l test_id q = held (l.previous_replaying_event test_id) ++ inputs q.items

-- The outcome of a whole replay.
pub record Drained (l : EventList) (test_id fuel : ℕ) (expected : List Inputs) : Type 0 where
  pub events : List Event
  pub result : drain fuel l test_id ≡ ok (events, finish)
  pub same : inputs events ≡ expected

Drained-next :
    (l : EventList) (test_id fuel : ℕ) (e : Event) (expected : List Inputs) {l' : EventList}
    → dequeue_replay l test_id ≡ ok (l', dequeued, some e)
    → Drained l' test_id fuel expected
    → Drained l test_id (suc fuel) (e.mpi_inputs ∷ expected)
unfolding drain
Drained-next l test_id fuel e expected step d = record {
  events = e ∷ d.events;
  result = rw (step, d.result);
  same = ap (◌∷◌ e.mpi_inputs) d.same;
}

expand-remaining :
    (l : EventList) (test_id : ℕ) (e : Event) (H : HandedOut l test_id e) (rest : List Inputs)
    → expand_all (e.mpi_inputs ∷ rest)
      ≡ H.event.mpi_inputs ∷ expand_all (held (H.after.previous_replaying_event test_id) ++ rest)
expand-remaining l test_id e H rest =
    expand_all-append (held (some e)) rest
    ∙ ap (λ xs. xs ++ expand_all rest) H.expands
    ∙ ap (◌∷◌ H.event.mpi_inputs)
        (sym (expand_all-append (held (H.after.previous_replaying_event test_id)) rest))

module _ (l : EventList) (test_id : ℕ) (q : Fifo Event)
    (known : l.replay_events test_id ≡ some q) where
  dequeue_held :
      (e : Event)
      → l.previous_replaying_event test_id ≡ some e
      → dequeue_replay l test_id ≡ hand_out l test_id e
  unfolding dequeue_replay
  dequeue_held e prev = ap₂ (dequeue_from l test_id) known prev

  dequeue_fetch :
      (items : List Event)
      → l.previous_replaying_event test_id ≡ none
      → q.items ≡ items
      → dequeue_replay l test_id ≡ fetch l test_id (shifted q items)
  unfolding dequeue_replay
  dequeue_fetch items prev shape =
      ap₂ (dequeue_from l test_id) known prev ∙ ap (λ xs. fetch l test_id (shifted q xs)) shape

abbrev behind : Fifo Event → List Event → Fifo Event
behind q es = record q { items = es; dequeue_count = (q.dequeue_count + 1) % size_mod }

abbrev advanced : EventList → ℕ → Fifo Event → EventList
advanced l test_id q = record l { replay_events = update l.replay_events test_id (some q) }

-- By induction on a bound of the occurrences left; `prev` and `items` are what the list holds.
drain_by_bound :
    (k : ℕ) (l : EventList) (test_id : ℕ) (q : Fifo Event) (prev : Option Event)
    (items : List Event)
    → l.replay_events test_id ≡ some q
    → l.is_push_closed ≡ true
    → l.previous_replaying_event test_id ≡ prev
    → q.items ≡ items
    → All IsCounted (held prev ++ inputs items)
    → length (expand_all (held prev ++ inputs items)) ≤ k
    → Drained l test_id (suc k) (expand_all (held prev ++ inputs items))
unfolding drain fetch expand_all
drain_by_bound k l test_id q none [] known closed prev shape c bound = record {
  events = [];
  result = rw (dequeue_fetch l test_id q known [] prev shape, closed);
  same = refl;
}
drain_by_bound zero l test_id q (some e) items known closed prev shape c bound = absurd (
    omega (
      arith,
      ap length (expand-remaining l test_id e (hand_out_lem l test_id e c.0) (inputs items)),
    ))
drain_by_bound (suc k) l test_id q (some e) items known closed prev shape c bound =
    let H : HandedOut l test_id e = hand_out_lem l test_id e c.0 in
    let split_off = expand-remaining l test_id e H (inputs items) in
    subst (Drained l test_id (suc (suc k))) (sym split_off) (
      Drained-next l test_id (suc k) H.event _ (dequeue_held l test_id q known e prev ∙ H.result) (
        drain_by_bound k H.after test_id q (H.after.previous_replaying_event test_id) items
          (ap (λ f. f test_id) H.queues ∙ known) (H.closed ∙ closed) refl shape
          (All-append IsCounted (held (H.after.previous_replaying_event test_id)) (inputs items)
            H.counted c.1)
          (omega (arith, ap length split_off))))
drain_by_bound zero l test_id q none (e ∷ es) known closed prev shape c bound = absurd (
    omega
      (arith, ap length (expand-remaining l test_id e (hand_out_lem l test_id e c.0) (inputs es))))
drain_by_bound (suc k) l test_id q none (e ∷ es) known closed prev shape c bound =
    let l₁ : EventList = advanced l test_id (behind q es) in
    let H : HandedOut l₁ test_id e = hand_out_lem l₁ test_id e c.0 in
    let split_off = expand-remaining l₁ test_id e H (inputs es) in
    subst (Drained l test_id (suc (suc k))) (sym split_off) (
      Drained-next l test_id (suc k) H.event _
        (dequeue_fetch l test_id q known (e ∷ es) prev shape ∙ H.result)
        (drain_by_bound k H.after test_id (behind q es) (H.after.previous_replaying_event test_id)
          es
          (ap (λ f. f test_id) H.queues ∙ update_self l.replay_events test_id (some (behind q es)))
          (H.closed ∙ closed) refl refl
          (All-append IsCounted (held (H.after.previous_replaying_event test_id)) (inputs es)
            H.counted c.1)
          (omega (arith, ap length split_off))))

-- Take a closed list that holds a queue for the test id, where the event being replayed, if there is
-- one, and the events of the queue are counted events. Calls of `dequeue_replay` hand out events whose
-- inputs are the single occurrences that those stand for, in order, and the next call says FINISH.
pub drain-expand_all :
    (l : EventList) (test_id : ℕ) (q : Fifo Event)
    → l.replay_events test_id ≡ some q
    → l.is_push_closed ≡ true
    → All IsCounted (remaining l test_id q)
    → Drained l test_id
        (suc (length (expand_all (remaining l test_id q))))
        (expand_all (remaining l test_id q))
drain-expand_all l test_id q known closed c =
    drain_by_bound (length (expand_all (remaining l test_id q))) l test_id q
      (l.previous_replaying_event test_id) q.items known closed refl refl c (omega arith)
