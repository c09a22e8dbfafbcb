-- ===== src/IoThread/Recorded.antt =====
-- src/rempi/rempi_io_thread.cpp, `write_record`: the finished file holds what was recorded.
use re_mpi.Common.{
  ℕ, ◌^◌, ◌-◌, ◌≤◌, ◌<◌, ◌≡◌, refl, sym, ap, ◌∙◌, true, false, List, [], ◌∷◌, ◌++◌, All, arith,
  length, ◌≢◌, nil_of_length, append_assoc, append-nil, map-append, length-append,
}
use mathlib.Core.Path.{subst}
use re_mpi.Event.{Inputs, Event}
use re_mpi.Event.Counting.{inputs, expand_all}
use re_mpi.EventList.{close_push, set_globally_minimal_clock}
use re_mpi.EventList.Record.{queued}
use re_mpi.EventList.Record.Effect.{push-Effect, flush-queued}
use re_mpi.EventList.Record.History.{IsHistory, Effect-IsHistory}
use re_mpi.Encoder.{create_encoder_input_format}
use re_mpi.Encoder.Basic.{Config}
use re_mpi.IoThread.{Writer, is_written}
use re_mpi.IoThread.Write.{
  Session, Step, produce, flush_last, close, round, waiting, Reach, start, next, join, records, Inv,
}
use re_mpi.IoThread.Rounds.{round-Rounded, waiting_done}
use re_mpi.Encoder.Basic.Chunk.{Holds}

module _ (cfg : Config) (plain : cfg.rempi_gzip ≡ false) where
  regrouped :
      (zs ys : List Event) (before after : List Inputs)
      → before ≡ inputs ys ++ after
      → inputs zs ++ before ≡ inputs (zs ++ ys) ++ after
  regrouped zs ys before after order =
      ap (◌++◌ (inputs zs)) order
      ∙ sym (append_assoc (inputs zs) (inputs ys) after)
      ∙ ap (λ is. is ++ after) (sym (map-append (λ (e : Event). e.mpi_inputs) zs ys))

  Step-Inv : {s t : Session} → Step cfg s t → length t.pushed < 2 ^ 31 → Inv s → Inv t
  unfolding close_push set_globally_minimal_clock
  Step-Inv {s} (produce e {l} single not_closing done) short v = record {
    chunks = v.chunks;
    xs = v.xs;
    archive = record {
      file = v.archive.file;
      nonempty = v.archive.nonempty;
      holds = v.archive.holds;
    };
    history =
        subst (λ b. IsHistory (inputs (join v.chunks ++ v.xs) ++ waiting b l) (s.pushed ++ e ∷ []))
          {x = false} {y = s.closing} (sym not_closing)
          (Effect-IsHistory e (inputs (join v.chunks ++ v.xs)) (queued s.list) (queued l) s.pushed
            single (omega (arith, length-append s.pushed (e ∷ []))) (push-Effect s.list e done)
            (subst (λ b. IsHistory (inputs (join v.chunks ++ v.xs) ++ waiting b s.list) s.pushed)
              not_closing v.history));
  }
  Step-Inv {s} (flush_last {l} not_closing not_closed done) short v = record {
    chunks = v.chunks;
    xs = v.xs;
    archive = record {
      file = v.archive.file;
      nonempty = v.archive.nonempty;
      holds = v.archive.holds;
    };
    history =
        subst (λ ys. IsHistory ys s.pushed)
          (ap (λ b. inputs (join v.chunks ++ v.xs) ++ waiting b s.list) not_closing
            ∙ ap (◌++◌ (inputs (join v.chunks ++ v.xs)))
                (sym (flush-queued s.list s.list.previous_recording_event not_closed refl done)))
          v.history;
  }
  Step-Inv {s} (close closing) short v =
      let l = close_push (set_globally_minimal_clock s.list (2 ^ 64 - 1)) in
      record {
        chunks = v.chunks;
        xs = v.xs;
        archive = record {
          file = v.archive.file;
          nonempty = v.archive.nonempty;
          holds = v.archive.holds;
        };
        history =
            subst (λ ys. IsHistory ys s.pushed)
              (ap (λ b. inputs (join v.chunks ++ v.xs) ++ waiting b s.list) closing
                ∙ ap (λ b. inputs (join v.chunks ++ v.xs) ++ waiting b l) (sym closing))
              v.history;
      }
  Step-Inv {s} (round w l done) short v =
      let r = round-Rounded cfg plain s.list l s.writer w v.chunks v.xs v.archive done in
      record {
        chunks = r.chunks';
        xs = r.xs';
        archive = r.archive;
        history =
            subst (λ ys. IsHistory ys s.pushed)
              (regrouped (join v.chunks ++ v.xs) r.ys (waiting s.closing s.list)
                  (waiting s.closing l) (r.order s.closing)
                ∙ ap (λ zs. inputs zs ++ waiting s.closing l) (sym r.contents))
              v.history;
      }

  pub Reach-Inv : {n : ℕ} {s : Session} → Reach cfg n s → length s.pushed < 2 ^ 31 → Inv s
  unfolding join records create_encoder_input_format expand_all
  Reach-Inv start short = record {
    chunks = [];
    xs = [];
    archive = record { file = refl; nonempty = tt; holds = record { tables = refl; total = refl } };
    history = record { history = refl; counted = tt };
  }
  Reach-Inv (next r st) short = Step-Inv st short (Reach-Inv r (omega (arith, pushed-le st)))
    where
      pushed-le : {s t : Session} → Step cfg s t → length s.pushed ≤ length t.pushed
      pushed-le {s} (produce e single not_closing done) =
          omega (arith, length-append s.pushed (e ∷ []))
      pushed-le (flush_last not_closing not_closed done) = omega arith
      pushed-le (close closing) = omega arith
      pushed-le (round w l done) = omega arith

  -- A finished file: the records of chunks that stand for what was pushed.
  pub record Recorded (w : Writer) (pushed : List Event) : Type 0 where
    pub chunks : List (List Event)
    pub file : w.encoder.record_fs ≡ records chunks
    pub nonempty : All (λ c. c ≢ []) chunks
    pub history : IsHistory (inputs (join chunks)) pushed

  -- The end of the loop: `xs` stand in the chunk that the loop deletes.
  pub record Ended (w : Writer) (pushed : List Event) : Type 0 where
    pub chunks : List (List Event)
    pub xs : List Event
    pub file : w.encoder.record_fs ≡ records chunks
    pub nonempty : All (λ c. c ≢ []) chunks
    pub holds : Holds w.input_format xs
    pub history : IsHistory (inputs (join chunks ++ xs)) pushed

  -- However pushes, the two parts of `push_all` and rounds of the writer interleave, with fewer than
  -- `2 ^ 28` events pushed and no compression: when the test that ends `write_record` holds, be it that
  -- the application has closed the list only after the round, the file is a sequence of records of
  -- nonempty chunks of counted events. Expanding the counts of these and of the chunk that the writer
  -- still fills, which is not written any more, gives the inputs of all pushed events in order.
  pub write_record-Ended :
      {n : ℕ} {s : Session}
      → Reach cfg n s
      → length s.pushed < 2 ^ 28
      → is_written s.list ≡ true
      → Ended s.writer s.pushed
  write_record-Ended {s = s} r short done =
      let v = Reach-Inv r (omega arith) in
      record {
        chunks = v.chunks;
        xs = v.xs;
        file = v.archive.file;
        nonempty = v.archive.nonempty;
        holds = v.archive.holds;
        history =
            subst (λ ys. IsHistory ys s.pushed)
              (ap (◌++◌ (inputs (join v.chunks ++ v.xs)))
                  (waiting_done cfg plain s.closing s.list done)
                ∙ append-nil (inputs (join v.chunks ++ v.xs)))
              v.history;
      }

  -- A chunk of which nothing is left.
  pub Ended-Recorded :
      (w : Writer) (pushed : List Event)
      → Ended w pushed
      → w.input_format.total_length ≡ 0
      → Recorded w pushed
  Ended-Recorded w pushed d empty = record {
    chunks = d.chunks;
    file = d.file;
    nonempty = d.nonempty;
    history =
        subst (λ ys. IsHistory (inputs ys) pushed)
          (ap (λ xs. join d.chunks ++ xs) (nil_of_length d.xs (sym d.holds.total ∙ empty))
            ∙ append-nil (join d.chunks))
          d.history;
  }
