-- ===== src/Encoder/Basic/RoundTrip.antt =====
-- src/rempi/rempi_encoder_basic.cpp: a written record is read back.
use re_mpi.Common.{
  ℕ, ◌+◌, ◌*◌, ◌^◌, ◌<◌, ◌≡◌, refl, ap, ◌∙◌, false, none, some, List, [], ◌∷◌, ◌++◌, ◌==◌, ltb,
  arith, All, length, ok, ◌>>=◌, append_assoc, length-append, take-append, drop-append, take-length,
  length-map,
}
use re_mpi.Common.Bytes.{Bytes, to_le, from_le-to_le_eight}
use re_mpi.Event.{Inputs, Event}
use re_mpi.Event.Counting.{inputs}
use re_mpi.Encoder.{InputFormat}
use re_mpi.Encoder.Basic.{
  Config, Encoder, event_bytes, encode, write_record_file, read_record_file, decode_chunks,
  read_payload, read_header,
}
use re_mpi.Encoder.Basic.Chunk.{
  IsRecordable, bytes_ints-event_bytes, length-event_bytes, Holds, Decoded,
  decode_events-event_ints,
}

-- What a chunk of events leaves in the file when nothing compresses: the size, and the events.
unfoldable pub record_bytes : List Event → Bytes
record_bytes es = to_le 8 (length (event_bytes es)) ++ event_bytes es

abbrev pub written : Encoder → List Event → Encoder
written enc es = record {
  record_fs = enc.record_fs ++ record_bytes es;
  total_write_size = enc.total_write_size + length (event_bytes es);
}

module _ (cfg : Config) (plain : cfg.rempi_gzip ≡ false) where
  pub write-encode_any :
      (f : InputFormat) (e : Event) (es : List Event) (enc : Encoder)
      → Holds f (e ∷ es)
      → (encode cfg f >>= λ f'. write_record_file f' enc) ≡ ok (written enc (e ∷ es))
  unfolding encode write_record_file record_bytes
  write-encode_any f e es enc h =
      ap (λ ts. encode cfg (record f { test_tables_map = ts }) >>= λ f'. write_record_file f' enc)
        h.tables
      ∙ rw (plain, take-length (event_bytes (e ∷ es))) refl

  -- Without compression, for a format that holds a chunk of at least one event and fewer than `2 ^ 28`,
  -- and a sum of the sizes that stays below `2 ^ 64`: encoding it and writing it cannot fail, appends the
  -- record of the chunk to the file, and counts its bytes.
  pub write-encode :
      (f : InputFormat) (e : Event) (es : List Event) (enc : Encoder)
      → Holds f (e ∷ es)
      → length (e ∷ es) < 2 ^ 28
      → enc.total_write_size + 32 * length (e ∷ es) < 2 ^ 64
      → (encode cfg f >>= λ f'. write_record_file f' enc) ≡ ok (written enc (e ∷ es))
  write-encode f e es enc h few room = write-encode_any f e es enc h

  -- The outcome of reading one record.
  pub record ReadBack (f : InputFormat) (enc : Encoder) (rest : Bytes) (expected : List Inputs)
      : Type 0 where
    pub format : InputFormat
    pub events : List Event
    pub result :
        read_record_file cfg f enc
        ≡ ok (
            some (
              format,
              record {
                record_fs = rest;
                total_write_size = enc.total_write_size + 32 * length events;
              },
            ))
    pub holds : Holds format events
    pub same : inputs events ≡ expected

  read_header-to_le :
      (f : InputFormat) (enc : Encoder) (size : ℕ) (rest : Bytes)
      → size < 2 ^ 64
      → read_header cfg f enc (to_le 8 size ++ rest) ≡ read_payload cfg f enc size rest
  unfolding read_header to_le
  read_header-to_le f enc size rest small =
      let long : ltb (length (to_le 8 size ++ rest)) 8 ≡ false = ground arith in
      let some_bytes : (length (to_le 8 size ++ rest) == 0) ≡ false = ground arith in
      rw (some_bytes, long)
        (ap (λ n. read_payload cfg f enc n rest) (from_le-to_le_eight size small))

  -- The eight bytes of a size are read as that size.
  read-size :
      (f : InputFormat) (enc : Encoder) (size : ℕ) (rest : Bytes)
      → size < 2 ^ 64
      → enc.record_fs ≡ to_le 8 size ++ rest
      → read_record_file cfg f enc ≡ read_payload cfg f enc size rest
  unfolding read_record_file
  read-size f enc size rest small file =
      ap (read_header cfg f enc) file ∙ read_header-to_le f enc size rest small

  pub read_end :
      (f : InputFormat) (enc : Encoder) → enc.record_fs ≡ [] → read_record_file cfg f enc ≡ ok none
  unfolding read_record_file
  read_end f enc file = ap (read_header cfg f enc) file

  decode_chunks-event_bytes :
      (es : List Event) (f : InputFormat)
      → All IsRecordable (inputs es)
      → Holds f []
      → Decoded (decode_chunks (event_bytes es ∷ []) f) [] (inputs es)
  unfolding decode_chunks
  decode_chunks-event_bytes es f c empty =
      let d = decode_events-event_ints es [] f c empty in
      record {
        format = d.format;
        events = d.events;
        result = rw (bytes_ints-event_bytes es c, d.result);
        holds = d.holds;
        same = d.same;
      }

  -- Without compression, for a format that holds nothing and a file that goes on with the record of a
  -- chunk of recordable events of less than `2 ^ 64` bytes: reading the record succeeds, leaves the
  -- file at what follows the record, and the format holds events with the chunk's inputs, in order.
  pub read-record_bytes :
      (es : List Event) (f : InputFormat) (enc : Encoder) (rest : Bytes)
      → All IsRecordable (inputs es)
      → 32 * length es < 2 ^ 64
      → Holds f []
      → f.write_queue_vec ≡ []
      → enc.record_fs ≡ record_bytes es ++ rest
      → ReadBack f enc rest (inputs es)
  unfolding record_bytes read_payload
  read-record_bytes es f enc rest c short empty no_queue file =
      let b = event_bytes es in
      let f₁ : InputFormat = record f { write_queue_vec = f.write_queue_vec ++ b ∷ [] } in
      let d =
        decode_chunks-event_bytes es f₁ c (record { tables = empty.tables; total = empty.total }) in
      let count : length d.events ≡ length es = omega (
        arith,
        ap length d.same,
        length-map (λ (e : Event). e.mpi_inputs) d.events,
        length-map (λ (e : Event). e.mpi_inputs) es,
      ) in
      let decoded : decode_chunks (f.write_queue_vec ++ b ∷ []) f₁ ≡ ok d.format =
        ap (λ q. decode_chunks (q ++ b ∷ []) f₁) no_queue ∙ d.result in
      let fits : ltb (length (b ++ rest)) (length b) ≡ false =
        ground (arith, length-append b rest) in
      record {
        format = d.format;
        events = d.events;
        result =
            read-size f enc (length b) (b ++ rest) (omega (arith, length-event_bytes es))
              (file ∙ append_assoc (to_le 8 (length b)) b rest)
            ∙ rw
                (
                  fits,
                  plain,
                  take-append b rest,
                  drop-append b rest,
                  decoded,
                  length-event_bytes es,
                  count,
                )
                refl;
        holds = d.holds;
        same = d.same;
      }
