-- ===== src/IoThread/Finish.antt =====
-- src/rempi/rempi_io_thread.cpp, `write_record`: a round after the list is closed is the last one.
use re_mpi.Common.{
  ℕ, ◌+◌, ◌^◌, ◌<◌, ◌≡◌, ◌≢◌, arith, length-append, length-map, refl, ap, ◌∙◌, inl, inr, Bool, true,
  false, List, [], ◌∷◌, ◌++◌, ◌==◌, ltb, Bool-cases, All, length, ok, >>=-eq-ok,
}
use re_mpi.Event.{Event}
use re_mpi.Event.Counting.{inputs}
use re_mpi.SpscQueue.Fifo.{shifted}
use re_mpi.EventList.{EventList, size, pop}
use re_mpi.Encoder.{InputFormat, add, create_encoder_input_format}
use re_mpi.Encoder.Basic.{
  Config, Encoder, take_next, take_events, is_unmatched, second_loop,
  extract_encoder_input_format_chunk, encode,
}
use re_mpi.Encoder.Basic.Chunk.{Holds}
use re_mpi.Encoder.Basic.RoundTrip.{written, write-encode_any}
use re_mpi.IoThread.{Writer, store_chunk, write_round, is_written}
use re_mpi.IoThread.Extract.{extract-Extracted}

module _ (cfg : Config) where
  -- The queue is taken whole.
  record Taken (patient : Bool) (n : ℕ) (l : EventList) (f : InputFormat) : Type 0 where
    list : EventList
    format : InputFormat
    result : take_events cfg patient n l f ≡ ok (list, format)
    none_left : list.events.items ≡ []
    closed : list.is_push_closed ≡ l.is_push_closed

  abbrev pub HasSource : Event → Type 0
  HasSource e = is_unmatched cfg e ≡ false

  items-Taken :
      (patient : Bool) (items : List Event) (l : EventList) (f : InputFormat)
      → l.events.items ≡ items
      → All HasSource items
      → Taken patient (length items) l f
  unfolding take_events take_next pop
  items-Taken patient [] l f shape h = record {
    list = l;
    format = f;
    result = refl;
    none_left = shape;
    closed = refl;
  }
  items-Taken patient (e ∷ es) l f shape h =
      let l₁ : EventList = record l { events = (shifted l.events (e ∷ es)).1 } in
      let rest = items-Taken patient es l₁ (add f e 0) refl h.1 in
      record {
        list = rest.list;
        format = rest.format;
        result =
            ap
              (λ items.
                take_next cfg patient l f (take_events cfg patient (length es))
                  ((shifted l.events items).0, record l { events = (shifted l.events items).1 }))
              shape
            ∙ rw h.0 rest.result;
        none_left = rest.none_left;
        closed = rest.closed;
      }

  extract_closed :
      (l : EventList) (f : InputFormat)
      → l.is_push_closed ≡ true
      → All HasSource l.events.items
      → (l' : EventList) × (f' : InputFormat) × (ready : Bool) × (extract_encoder_input_format_chunk
            cfg l f
          ≡ ok (l', f', ready))
        × (l'.events.items ≡ [])
        × (l'.is_push_closed ≡ true)
  unfolding extract_encoder_input_format_chunk second_loop size take_events
  extract_closed l f shut h =
      let t = items-Taken false l.events.items l f refl h in
      let closed : t.list.is_push_closed ≡ true = t.closed ∙ shut in
      let gone : length t.list.events.items ≡ 0 = ap length t.none_left in
      elim (Bool-cases (t.format.total_length == 0)) [
        | inl nothing ↦ (t.list, t.format, false, rw (t.result, nothing) refl, t.none_left, closed)
        | inr some_events ↦
            elim (Bool-cases (ltb cfg.rempi_max_event_length t.format.total_length)) [
              | inl long ↦ (
                t.list,
                t.format,
                true,
                rw (t.result, some_events, long, gone) refl,
                t.none_left,
                closed,
              )
              | inr short ↦ (
                t.list,
                t.format,
                true,
                rw (t.result, some_events, short, closed, gone) refl,
                t.none_left,
                closed,
              )
            ]
      ]

  module _ (plain : cfg.rempi_gzip ≡ false) where
    store_ready :
        (f : InputFormat) (zs : List Event) (enc : Encoder)
        → Holds f zs
        → length zs < 2 ^ 28
        → zs ≢ []
        → (w : Writer) × (store_chunk cfg true f enc ≡ ok w) × (w.input_format.total_length ≡ 0)
    unfolding store_chunk create_encoder_input_format
    store_ready f [] enc h few some_events = absurd (some_events refl)
    store_ready f (z ∷ zs) enc h few some_events =
        let (f', encoded, wrote) =
          >>=-eq-ok (encode cfg f) _ (write-encode_any cfg plain f z zs enc h) in
        (
          record { input_format = create_encoder_input_format; encoder = written enc (z ∷ zs) },
          rw (encoded, wrote) refl,
          refl,
        )

    store_any :
        (ready : Bool) (f : InputFormat) (zs : List Event) (enc : Encoder)
        → Holds f zs
        → length zs < 2 ^ 28
        → (ready ≡ true → f.total_length ≢ 0)
        → (ready ≡ false → f.total_length ≡ 0)
        → (w : Writer) × (store_chunk cfg ready f enc ≡ ok w) × (w.input_format.total_length ≡ 0)
    unfolding store_chunk create_encoder_input_format
    store_any false f zs enc h few some_events kept = (_, refl, kept refl)
    store_any true f zs enc h few some_events kept =
        store_ready f zs enc h few (λ nil. some_events refl (h.total ∙ ap length nil))

    -- Without compression, once the list is closed and every receive in its queue has its source, for
    -- fewer than `2 ^ 28` events in the queue and in the writer's chunk: a round of the writer succeeds
    -- without waiting, the test behind it ends the loop, and no event is left in the chunk.
    pub write_round-ends :
        (w : Writer) (l : EventList) (xs : List Event)
        → Holds w.input_format xs
        → l.is_push_closed ≡ true
        → All HasSource l.events.items
        → length xs + length l.events.items < 2 ^ 28
        → (w' : Writer) × (l' : EventList) × (write_round cfg w l ≡ ok (w', l'))
          × (is_written l' ≡ true)
          × (w'.input_format.total_length ≡ 0)
    unfolding write_round is_written size
    write_round-ends w l xs h shut sources few =
        let (l', f', ready, extracted, gone, closed) =
          extract_closed l w.input_format shut sources in
        let x = extract-Extracted cfg l w.input_format xs l' f' ready h extracted in
        let taken : length (xs ++ x.moved.ys) < 2 ^ 28 = omega (
          arith,
          length-append xs x.moved.ys,
          length-append (inputs x.moved.ys) (inputs l'.events.items),
          length-map (λ (e : Event). e.mpi_inputs) x.moved.ys,
          length-map (λ (e : Event). e.mpi_inputs) l.events.items,
          ap length x.moved.items,
        ) in
        let (w', stored, none_kept) =
          store_any ready f' (xs ++ x.moved.ys) w.encoder x.moved.holds taken x.nonempty
            (λ waits. x.kept waits closed) in
        let empty : length l'.events.items ≡ 0 = ap length gone in
        (w', l', rw (extracted, stored) refl, rw (closed, empty) refl, none_kept)
