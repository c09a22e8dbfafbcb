-- ===== src/Encoder/Basic/Chunk.antt =====
-- src/rempi/rempi_encoder_basic.cpp: a chunk of events as bytes, and read back.
use re_mpi.Common.{
  ℕ, ◌*◌, ◌≡◌, refl, sym, ap, ◌∙◌, ◌⊎◌, inl, inr, none, List, [], ◌∷◌, ◌++◌, arith, All, All-append,
  length, Run, ok, append_assoc, length-append, append-nil,
}
use mathlib.Core.Path.{subst, ap₂}
use re_mpi.Common.Bytes.{
  IsInt, int_bytes, bytes_ints, bytes_ints-int_bytes, int_bytes-append, length-int_bytes,
}
use re_mpi.Event.{Inputs, Event, test_type, serialize, create_recv_event, create_test_event}
use re_mpi.Event.Counting.{inputs}
use re_mpi.Encoder.{TestTable, InputFormat, or_new, find_table, put_table, add}
use re_mpi.Encoder.Basic.{event_bytes, decode_events}

-- Inputs as the recorder makes them: eight ints, of a test or of `create_recv_event`.
pub record IsRecordable (i : Inputs) : Type 0 where
  pub ints : All IsInt (serialize i)
  pub kind : (i.type ≡ test_type) ⊎ (i ≡ (create_recv_event i.rank none).mpi_inputs)

-- The ints of a chunk.
pub event_ints : List Event → List ℕ
event_ints [] = []
event_ints (e ∷ es) = serialize e.mpi_inputs ++ event_ints es

event_bytes-int_bytes : (es : List Event) → event_bytes es ≡ int_bytes (event_ints es)
unfolding event_bytes event_ints int_bytes
event_bytes-int_bytes [] = refl
event_bytes-int_bytes (e ∷ es) =
    ap (◌++◌ (int_bytes (serialize e.mpi_inputs))) (event_bytes-int_bytes es)
    ∙ sym (int_bytes-append (serialize e.mpi_inputs) (event_ints es))

event_ints-IsInt : (es : List Event) → All IsRecordable (inputs es) → All IsInt (event_ints es)
unfolding event_ints
event_ints-IsInt [] h = tt
event_ints-IsInt (e ∷ es) h =
    All-append IsInt (serialize e.mpi_inputs) (event_ints es) h.0.ints (event_ints-IsInt es h.1)

pub bytes_ints-event_bytes :
    (es : List Event) → All IsRecordable (inputs es) → bytes_ints (event_bytes es) ≡ event_ints es
bytes_ints-event_bytes es h =
    ap bytes_ints (event_bytes-int_bytes es)
    ∙ bytes_ints-int_bytes (event_ints es) (event_ints-IsInt es h)

-- 32 bytes an event.
pub length-event_bytes : (es : List Event) → length (event_bytes es) ≡ 32 * length es
unfolding event_bytes serialize
length-event_bytes [] = refl
length-event_bytes (e ∷ es) = omega (
  arith,
  length-append (int_bytes (serialize e.mpi_inputs)) (event_bytes es),
  length-int_bytes (serialize e.mpi_inputs),
  length-event_bytes es,
)

-- The table that `add` builds from the empty one.
abbrev pub tables_of : List Event → List (ℕ × TestTable)
tables_of [] = []
tables_of (e ∷ es) =
    (
      0,
      record {
        matching_set_id = 0;
        events_vec = e ∷ es;
        compressed_matched_events = [];
        compressed_matched_events_size = 0;
      },
    )
    ∷ []

-- The chunk that a format holds.
pub record Holds (f : InputFormat) (es : List Event) : Type 0 where
  pub tables : f.test_tables_map ≡ tables_of es
  pub total : f.total_length ≡ length es

abbrev grown : List (ℕ × TestTable) → Event → List (ℕ × TestTable)
grown ts e =
    let t = or_new 0 (find_table 0 ts) in
    put_table 0 (record t { events_vec = t.events_vec ++ e ∷ [] }) ts

add-tables :
    (xs : List Event) (e : Event) (f : InputFormat)
    → f.test_tables_map ≡ tables_of xs
    → (add f e 0).test_tables_map ≡ tables_of (xs ++ e ∷ [])
unfolding add find_table put_table
add-tables [] e f h = ap (λ ts. grown ts e) h
add-tables (x ∷ xs) e f h = ap (λ ts. grown ts e) h

pub add-Holds :
    (f : InputFormat) (xs : List Event) (e : Event) → Holds f xs → Holds (add f e 0) (xs ++ e ∷ [])
unfolding add
add-Holds f xs e h = record {
  tables = add-tables xs e f h.tables;
  total = omega (arith, h.total, length-append xs (e ∷ []));
}

-- The outcome of decoding: events with the same inputs, behind those that were there.
pub record Decoded (r : Run InputFormat) (xs : List Event) (expected : List Inputs) : Type 0 where
  pub format : InputFormat
  pub events : List Event
  pub result : r ≡ ok format
  pub holds : Holds format (xs ++ events)
  pub same : inputs events ≡ expected

-- One event of the buffer: an event with the inputs that were written.
decode_events-serialize :
    (i : Inputs) (rest : List ℕ) (f : InputFormat)
    → IsRecordable i
    → (e : Event) × (e.mpi_inputs ≡ i)
      × (decode_events (serialize i ++ rest) f ≡ decode_events rest (add f e 0))
unfolding decode_events serialize create_test_event create_recv_event
decode_events-serialize i rest f c = elim c.kind [
  | inl test ↦ (
    create_test_event i.event_count i.flag i.rank i.with_next i.index i.msg_id i.matching_group_id,
    ap (λ t. record i { type = t }) (sym test),
    ground (arith, test),
  )
  | inr recv ↦
      (create_recv_event i.rank none, sym recv, ground (arith, ap (λ (i : Inputs). i.type) recv))
]

pub decode_events-event_ints :
    (es xs : List Event) (f : InputFormat)
    → All IsRecordable (inputs es)
    → Holds f xs
    → Decoded (decode_events (event_ints es) f) xs (inputs es)
unfolding decode_events event_ints
decode_events-event_ints [] xs f c h = record {
  format = f;
  events = [];
  result = refl;
  holds = rw (append-nil xs) h;
  same = refl;
}
decode_events-event_ints (e ∷ es) xs f c h =
    let (d, same, step) = decode_events-serialize e.mpi_inputs (event_ints es) f c.0 in
    let rest = decode_events-event_ints es (xs ++ d ∷ []) (add f d 0) c.1 (add-Holds f xs d h) in
    record {
      format = rest.format;
      events = d ∷ rest.events;
      result = step ∙ rest.result;
      holds = subst (Holds rest.format) (append_assoc xs (d ∷ []) rest.events) rest.holds;
      same = ap₂ ◌∷◌ same rest.same;
    }
