-- ===== src/IoThread/Extract.antt =====
-- src/rempi/rempi_encoder_basic.cpp, `extract_encoder_input_format_chunk`: events move from the list
-- into the chunk.
use re_mpi.Common.{
  ℕ, zero, suc, ◌≡◌, refl, sym, ap, ◌∙◌, inl, inr, Bool, true, false, not, Option, none, some, List,
  [], ◌∷◌, ◌++◌, ◌==◌, ltb, ◌&&◌, ◌||◌, Bool-cases, arith, Run, ok, ◌≢◌, unless-spin, ok-injective,
  >>=-eq-ok, append_assoc, append-nil, map-append, length-append,
}
use mathlib.Core.Path.{subst, subst₂, subst₃}
use re_mpi.Event.{Event}
use re_mpi.Event.Counting.{inputs}
use re_mpi.EventList.{EventList, size, pop}
use re_mpi.EventList.Record.{queued}
use re_mpi.EventList.Record.Effect.{pop-queued, pop-items}
use re_mpi.Encoder.{InputFormat, add}
use re_mpi.Encoder.Basic.{
  Config, take_next, take_events, is_unmatched, second_loop, extract_encoder_input_format_chunk,
}
use re_mpi.Encoder.Basic.Chunk.{Holds, add-Holds}

-- Events moved from the list into the chunk: in order, and none is lost.
pub record Moved (xs : List Event) (l l' : EventList) (f : InputFormat) : Type 0 where
  pub ys : List Event
  pub holds : Holds f (xs ++ ys)
  pub order : queued l ≡ inputs ys ++ queued l'
  pub items : inputs l.events.items ≡ inputs ys ++ inputs l'.events.items
  pub closed : l'.is_push_closed ≡ l.is_push_closed

same-Moved :
    (xs : List Event) (l : EventList) (f : InputFormat) {l' : EventList} {f' : InputFormat}
    → Holds f xs
    → ◌≡◌ {A = Run (EventList × InputFormat)} (ok (l, f)) (ok (l', f'))
    → Moved xs l l' f'
same-Moved xs l f {l'} {f'} h e =
    let both = ok-injective e in
    subst₂ (λ l' f'. Moved xs l l' f') (ap (λ r. r.0) both) (ap (λ r. r.1) both)
      (record { ys = []; holds = rw (append-nil xs) h; order = refl; items = refl; closed = refl })

Moved-trans :
    (xs : List Event) (l l₁ l₂ : EventList) (f₁ f₂ : InputFormat)
    → (m : Moved xs l l₁ f₁) → Moved (xs ++ m.ys) l₁ l₂ f₂
    → Moved xs l l₂ f₂
Moved-trans xs l l₁ l₂ f₁ f₂ m n = record {
  ys = m.ys ++ n.ys;
  holds = subst (Holds f₂) (append_assoc xs m.ys n.ys) n.holds;
  order =
      m.order
      ∙ ap (◌++◌ (inputs m.ys)) n.order
      ∙ sym (append_assoc (inputs m.ys) (inputs n.ys) (queued l₂))
      ∙ ap (λ zs. zs ++ queued l₂) (sym (map-append (λ (e : Event). e.mpi_inputs) m.ys n.ys));
  items =
      m.items
      ∙ ap (◌++◌ (inputs m.ys)) n.items
      ∙ sym (append_assoc (inputs m.ys) (inputs n.ys) (inputs l₂.events.items))
      ∙ ap (λ zs. zs ++ inputs l₂.events.items)
          (sym (map-append (λ (e : Event). e.mpi_inputs) m.ys n.ys));
  closed = n.closed ∙ m.closed;
}

pop-closed :
    (l : EventList) {r : Option Event} {l' : EventList}
    → pop l ≡ (r, l')
    → l'.is_push_closed ≡ l.is_push_closed
unfolding pop
pop-closed l e = ap (λ r. r.1.is_push_closed) (sym e)

module _ (cfg : Config) where
  take_next-Moved :
      (patient : Bool) (continue : EventList → InputFormat → Run (EventList × InputFormat))
      → ((l : EventList) (f : InputFormat) (xs : List Event) (l' : EventList) (f' : InputFormat)
          → Holds f xs
          → continue l f ≡ ok (l', f')
          → Moved xs l l' f')
      → (l : EventList) (f : InputFormat) (xs : List Event) (r : Option Event × EventList)
      → (l' : EventList) (f' : InputFormat) → Holds f xs
      → pop l ≡ r
      → take_next cfg patient l f continue r ≡ ok (l', f')
      → Moved xs l l' f'
  unfolding take_next
  take_next-Moved patient continue ih l f xs (none, l₁) l' f' h popped e = same-Moved xs l f h e
  take_next-Moved patient continue ih l f xs (some v, l₁) l' f' h popped e =
      let go : continue l₁ (add f v 0) ≡ ok (l', f') =
        (unless-spin (is_unmatched cfg v && (patient || not l.is_push_closed)) _ e).1 in
      Moved-trans xs l l₁ l' (add f v 0) f'
        (record {
          ys = v ∷ [];
          holds = add-Holds f xs v h;
          order = pop-queued l l.events.items v refl popped;
          items = pop-items l l.events.items v refl popped;
          closed = pop-closed l popped;
        })
        (ih l₁ (add f v 0) (xs ++ v ∷ []) l' f' (add-Holds f xs v h) go)

  take_events-Moved :
      (patient : Bool) (fuel : ℕ) (l : EventList) (f : InputFormat) (xs : List Event)
      (l' : EventList) (f' : InputFormat)
      → Holds f xs
      → take_events cfg patient fuel l f ≡ ok (l', f')
      → Moved xs l l' f'
  unfolding take_events
  take_events-Moved patient zero l f xs l' f' h e = same-Moved xs l f h e
  take_events-Moved patient (suc fuel) l f xs l' f' h e =
      take_next-Moved patient (take_events cfg patient fuel)
        (λ l f xs l' f' h e. take_events-Moved patient fuel l f xs l' f' h e) l f xs (pop l) l' f' h
        refl e

  -- One extraction: what it moved, and when it says that the chunk is ready.
  pub record Extracted (xs : List Event) (l l' : EventList) (f : InputFormat) (ready : Bool)
      : Type 0 where
    pub moved : Moved xs l l' f
    pub nonempty : ready ≡ true → f.total_length ≢ 0
    pub kept : ready ≡ false → l'.is_push_closed ≡ true → f.total_length ≡ 0

  same-Extracted :
      (xs : List Event) (l l₁ l' : EventList) (f₁ f' : InputFormat) (r ready : Bool)
      → Extracted xs l l₁ f₁ r
      → ◌≡◌ {A = Run (EventList × InputFormat × Bool)} (ok (l₁, f₁, r)) (ok (l', f', ready))
      → Extracted xs l l' f' ready
  same-Extracted xs l l₁ l' f₁ f' r ready x e =
      let all = ok-injective e in
      subst₃ (λ l' f' ready. Extracted xs l l' f' ready) (ap (λ r. r.0) all) (ap (λ r. r.1) all)
        (ap (λ r. r.2) all) x

  second_loop-Extracted :
      (l l₁ : EventList) (f₁ : InputFormat) (xs : List Event) (l' : EventList) (f' : InputFormat)
      (ready : Bool)
      → Moved xs l l₁ f₁
      → f₁.total_length ≢ 0
      → second_loop cfg l₁ f₁ ≡ ok (l', f', ready)
      → Extracted xs l l' f' ready
  unfolding second_loop
  second_loop-Extracted l l₁ f₁ xs l' f' ready m some_events e =
      let ((l₂, f₂), second, done) = >>=-eq-ok (take_events cfg true (size l₁) l₁ f₁) _ e in
      let n : Moved (xs ++ m.ys) l₁ l₂ f₂ =
        take_events-Moved true (size l₁) l₁ f₁ (xs ++ m.ys) l₂ f₂ m.holds second in
      same-Extracted xs l l₂ l' f₂ f' true ready
        (record {
          moved = Moved-trans xs l l₁ l₂ f₁ f₂ m n;
          nonempty = λ _.
              omega
                (arith, n.holds.total, m.holds.total, length-append (xs ++ m.ys) n.ys, some_events);
          kept = λ never. cc;
        })
        done

  pub extract-Extracted :
      (l : EventList) (f : InputFormat) (xs : List Event) (l' : EventList) (f' : InputFormat)
      (ready : Bool)
      → Holds f xs
      → extract_encoder_input_format_chunk cfg l f ≡ ok (l', f', ready)
      → Extracted xs l l' f' ready
  unfolding extract_encoder_input_format_chunk
  extract-Extracted l f xs l' f' ready h e =
      let ((l₁, f₁), first, rest) = >>=-eq-ok (take_events cfg false (size l) l f) _ e in
      let m : Moved xs l l₁ f₁ = take_events-Moved false (size l) l f xs l₁ f₁ h first in
      elim (Bool-cases (f₁.total_length == 0)) [
        | inl none_left ↦
            same-Extracted xs l l₁ l' f₁ f' false ready
              (record { moved = m; nonempty = λ never. cc; kept = λ _ _. ground arith })
              (rw none_left at rest)
        | inr some_left ↦
            elim (Bool-cases
              (ltb cfg.rempi_max_event_length f₁.total_length || l₁.is_push_closed)) [
                | inl enough ↦
                    second_loop-Extracted l l₁ f₁ xs l' f' ready m (ground arith)
                      (rw (some_left, enough) at rest)
                | inr few ↦
                    same-Extracted xs l l₁ l' f₁ f' false ready
                      (record { moved = m; nonempty = λ never. cc; kept = λ _ c. ground arith })
                      (rw (some_left, few) at rest)
              ]
      ]
