-- ===== src/IoThread/Rounds.antt =====
-- src/rempi/rempi_io_thread.cpp, `write_record`: every round keeps what was recorded.
use re_mpi.Common.{
  ◌≡◌, refl, sym, ap, ◌∙◌, Bool, true, false, List, [], ◌∷◌, ◌++◌, All-append, arith, length, ok,
  ◌≢◌, nil_of_length, ok-injective, >>=-eq-ok, ◌>>=◌, append_assoc, append-nil,
}
use mathlib.Core.Path.{subst, subst₂, ap₂}
use re_mpi.Event.{Event}
use re_mpi.Event.Counting.{inputs}
use re_mpi.EventList.{EventList, size}
use re_mpi.EventList.Record.{unless_closed}
use re_mpi.Encoder.{InputFormat, create_encoder_input_format}
use re_mpi.Encoder.Basic.{
  Config, Encoder, extract_encoder_input_format_chunk, encode, write_record_file,
}
use re_mpi.Encoder.Basic.Chunk.{Holds}
use re_mpi.Encoder.Basic.RoundTrip.{record_bytes, written, write-encode_any}
use re_mpi.IoThread.{Writer, store_chunk, write_round, is_written}
use re_mpi.IoThread.Extract.{Moved, Extracted, extract-Extracted}
use re_mpi.IoThread.Write.{join, join-append, records-append, Archive, waiting}

module _ (cfg : Config) (plain : cfg.rempi_gzip ≡ false) where
  -- What one round does to the archive: `xs` and the events `ys` taken from the list stay in the
  -- chunk, or become one more chunk of the file.
  pub record Rounded (l l' : EventList) (w' : Writer) (chunks : List (List Event)) (xs : List Event)
      : Type 0 where
    pub chunks' : List (List Event)
    pub xs' : List Event
    pub ys : List Event
    pub archive : Archive w' chunks' xs'
    pub contents : join chunks' ++ xs' ≡ (join chunks ++ xs) ++ ys
    pub order : (closing : Bool) → waiting closing l ≡ inputs ys ++ waiting closing l'

  pub waiting_done : (closing : Bool) (l : EventList) → is_written l ≡ true → waiting closing l ≡ []
  unfolding is_written size
  waiting_done true l h =
      let empty : length l.events.items ≡ 0 = ground arith in
      ap inputs (nil_of_length l.events.items empty)
  waiting_done false l h =
      let shut : l.is_push_closed ≡ true = ground arith in
      let empty : length l.events.items ≡ 0 = ground arith in
      ap₂ (λ items c. inputs items ++ unless_closed c l.previous_recording_event)
        (nil_of_length l.events.items empty) shut

  write_chunk :
      (f : InputFormat) (zs : List Event) (enc : Encoder)
      → Holds f zs
      → f.total_length ≢ 0
      → (encode cfg f >>= λ f'. write_record_file f' enc) ≡ ok (written enc zs)
  write_chunk f [] enc h some_events = absurd (some_events h.total)
  write_chunk f (z ∷ zs) enc h some_events = write-encode_any cfg plain f z zs enc h

  stored_chunk :
      (f : InputFormat) (zs : List Event) (enc : Encoder) (w' : Writer)
      → Holds f zs
      → f.total_length ≢ 0
      → store_chunk cfg true f enc ≡ ok w'
      → record { input_format = create_encoder_input_format; encoder = written enc zs } ≡ w'
  unfolding store_chunk
  stored_chunk f zs enc w' h some_events e =
      let (f₁, encoded, wrote) = >>=-eq-ok (encode cfg f) _ (write_chunk f zs enc h some_events) in
      ok-injective (rw (encoded, wrote) at e)

  order-closing :
      (xs : List Event) (l l' : EventList) (f : InputFormat) (m : Moved xs l l' f)
      → (closing : Bool) → waiting closing l ≡ inputs m.ys ++ waiting closing l'
  order-closing xs l l' f m true = m.items
  order-closing xs l l' f m false = m.order

  store-Rounded :
      (l l' : EventList) (w w' : Writer) (f : InputFormat) (chunks : List (List Event))
      (xs : List Event) (ready : Bool)
      → Archive w chunks xs
      → Extracted cfg xs l l' f ready
      → store_chunk cfg ready f w.encoder ≡ ok w'
      → Rounded l l' w' chunks xs
  unfolding store_chunk create_encoder_input_format
  store-Rounded l l' w w' f chunks xs true a x e =
      let zs = xs ++ x.moved.ys in
      record {
        chunks' = chunks ++ zs ∷ [];
        xs' = [];
        ys = x.moved.ys;
        archive =
            subst (λ w'. Archive w' (chunks ++ zs ∷ []) [])
              (stored_chunk f zs w.encoder w' x.moved.holds (x.nonempty refl) e)
              (record {
                file = ap (λ b. b ++ record_bytes zs) a.file ∙ sym (records-append chunks zs);
                nonempty =
                    All-append (λ c. c ≢ []) chunks (zs ∷ []) a.nonempty
                      ((λ nil. x.nonempty refl (x.moved.holds.total ∙ ap length nil)), tt);
                holds = record { tables = refl; total = refl };
              });
        contents =
            append-nil (join (chunks ++ zs ∷ []))
            ∙ join-append chunks zs
            ∙ sym (append_assoc (join chunks) xs x.moved.ys);
        order = order-closing xs l l' f x.moved;
      }
  store-Rounded l l' w w' f chunks xs false a x e = record {
    chunks' = chunks;
    xs' = xs ++ x.moved.ys;
    ys = x.moved.ys;
    archive =
        subst (λ w'. Archive w' chunks (xs ++ x.moved.ys)) (ok-injective e)
          (record { file = a.file; nonempty = a.nonempty; holds = x.moved.holds });
    contents = sym (append_assoc (join chunks) xs x.moved.ys);
    order = order-closing xs l l' f x.moved;
  }

  pub round-Rounded :
      (l l' : EventList) (w w' : Writer) (chunks : List (List Event)) (xs : List Event)
      → Archive w chunks xs
      → write_round cfg w l ≡ ok (w', l')
      → Rounded l l' w' chunks xs
  unfolding write_round
  round-Rounded l l' w w' chunks xs a e =
      let ((l₁, f, ready), extracted, rest) =
        >>=-eq-ok (extract_encoder_input_format_chunk cfg l w.input_format) _ e in
      let (w₁, stored, done) = >>=-eq-ok (store_chunk cfg ready f w.encoder) _ rest in
      let x = extract-Extracted cfg l w.input_format xs l₁ f ready a.holds extracted in
      let all = ok-injective done in
      subst₂ (λ w' l'. Rounded l l' w' chunks xs) (ap (λ r. r.0) all) (ap (λ r. r.1) all)
        (store-Rounded l l₁ w w₁ f chunks xs ready a x stored)
