-- ===== src/Cdc/Chunk/RoundTrip.antt =====
-- src/rempi/rempi_encoder_cdc.cpp: `decode` of what `encode` has written.
use mathlib.Core.Path.{ap₂}
use re_mpi.ClockDelta.Compress.{unset}
use re_mpi.Common.{
  ℕ, zero, suc, ◌+◌, ◌*◌, ◌^◌, ◌≤◌, ◌<◌, ◌≡◌, ◌≢◌, refl, sym, ◌∙◌, ap, Bool, true, false, List, [],
  ◌∷◌, ◌++◌, append_assoc, append-nil, All-append, length-append, ◌==◌, ==_iff, length, All, ok,
  ◌>>=◌, arith,
}
use re_mpi.Common.Bytes.{Bytes, to_le, length-to_le}
use re_mpi.Common.Maps.{Map}
use re_mpi.Compression.LinearPrediction.{compress_by_linear_prediction, linear_prediction_words}
use re_mpi.Request.Merge.Footer.{word_bytes}
use re_mpi.Request.Merge.Footer.RoundTrip.{IsWord}
use re_mpi.ClockDelta.Binary.{compress}
use re_mpi.Cdc.Matched.{decode_matched_events}
use re_mpi.Cdc.Table.{Table, int_ltb, put_table}
use re_mpi.Cdc.Chunk.{
  sized, counted, compress_non_matched_events, compress_matched_events, encode_table, encode,
  joined, clock_orders, Decoded, decoded, with_previous_bools, unmatched_umap, decode_table, decode,
  decode_chunk,
}
use re_mpi.Cdc.Chunk.Fields.{
  IsVec, read_word_four, read_count-to_le, read_sized-sized, read_counted-counted,
  read_epoch-vectors, read_matched-bytes,
}

-- A table whose members fit into the fields of the record, the bytes of its matched events, and what
-- the decoder makes of them.
pub record IsWritable (t : Table) (bytes : Bytes) (indices : List ℕ) (bools : List Bool)
    (unmatched : Map ℕ) : Type 0 where
  pub id_int : t.matching_set_id < 2 ^ 32
  pub count_int : t.count < 2 ^ 31
  pub ranks : IsVec t.epoch_rank_vec
  pub clocks : IsVec t.epoch_clock_vec
  pub same : length t.epoch_rank_vec ≡ length t.epoch_clock_vec
  pub previous : IsVec (compress_by_linear_prediction (2 ^ 64) t.with_previous_vec)
  pub previous_words : All IsWord t.with_previous_vec
  pub index : IsVec t.matched_index_vec
  pub ids : IsVec (compress_by_linear_prediction (2 ^ 64) t.unmatched_events_id_vec)
  pub id_words : All IsWord t.unmatched_events_id_vec
  pub counts : IsVec t.unmatched_events_count_vec
  pub size : length bytes < 2 ^ 64
  pub compresses :
      compress unset true (clock_orders t.matched_events_ordered_map) (clock_orders t.events_vec)
      ≡ ok bytes
  pub decodes : decode_matched_events t.count bytes ≡ ok indices
  pub marks : with_previous_bools t.count t.with_previous_vec ≡ ok bools
  pub tests : unmatched_umap t.unmatched_events_id_vec t.unmatched_events_count_vec ≡ ok unmatched

-- The buffers of a table.
queue : Table → Bytes → List Bytes
queue t bytes =
    to_le 4 t.matching_set_id
    ∷ (to_le 4 t.count
        ∷ (sized t.epoch_rank_vec
            ++ (word_bytes t.epoch_clock_vec
                ∷ (counted (compress_by_linear_prediction (2 ^ 64) t.with_previous_vec)
                    ++ (counted t.matched_index_vec
                        ++ (sized (compress_by_linear_prediction (2 ^ 64) t.unmatched_events_id_vec)
                            ++ (sized t.unmatched_events_count_vec
                                ++ (to_le 8 (length bytes) ∷ (bytes ∷ [])))))))))

module _ (t : Table) (bytes : Bytes) (indices : List ℕ) (bools : List Bool) (unmatched : Map ℕ)
    (w : IsWritable t bytes indices bools unmatched) where
  encode_table-queue : encode_table unset t ≡ ok (queue t bytes)
  unfolding encode_table compress_non_matched_events compress_matched_events queue sized counted
  encode_table-queue =
      rw ((==_iff (length t.epoch_rank_vec) (length t.epoch_clock_vec)).1 w.same, w.compresses) refl

  -- What is decoded.
  result : Decoded
  result =
      decoded t.matching_set_id t.count t.epoch_rank_vec t.epoch_clock_vec t.with_previous_vec bools
        t.matched_index_vec unmatched indices

  decode_table-queue :
      (rest : List Bytes) → decode_table (joined (queue t bytes ++ rest)) ≡ ok (result, joined rest)
  unfolding decode_table joined queue sized counted result
  decode_table-queue rest =
      let previous = compress_by_linear_prediction (2 ^ 64) t.with_previous_vec in
      let ids = compress_by_linear_prediction (2 ^ 64) t.unmatched_events_id_vec in
      let tail0 = to_le 8 (length bytes) ++ (bytes ++ joined rest) in
      let tail1 =
        to_le 8 (length t.unmatched_events_count_vec * 8)
        ++ (word_bytes t.unmatched_events_count_vec ++ tail0) in
      let tail2 = to_le 8 (length ids * 8) ++ (word_bytes ids ++ tail1) in
      let tail3 =
        to_le 8 (length t.matched_index_vec)
        ++ (to_le 8 (length t.matched_index_vec * 8)
            ++ (word_bytes t.matched_index_vec ++ tail2)) in
      let tail4 =
        to_le 8 (length previous)
        ++ (to_le 8 (length previous * 8) ++ (word_bytes previous ++ tail3)) in
      let tail5 =
        to_le 8 (length t.epoch_rank_vec * 8)
        ++ (word_bytes t.epoch_rank_vec ++ (word_bytes t.epoch_clock_vec ++ tail4)) in
      rw
        (
          read_word_four t.matching_set_id (to_le 4 t.count ++ tail5) w.id_int,
          read_count-to_le t.count tail5 w.count_int,
          read_epoch-vectors t.epoch_rank_vec t.epoch_clock_vec tail4 w.ranks w.clocks w.same,
          read_counted-counted previous tail3 w.previous,
          (linear_prediction_words (2 ^ 64) (omega arith) t.with_previous_vec w.previous_words).0,
          w.marks,
          read_counted-counted t.matched_index_vec tail2 w.index,
          read_sized-sized ids tail1 w.ids,
          read_sized-sized t.unmatched_events_count_vec tail0 w.counts,
          (linear_prediction_words (2 ^ 64) (omega arith) t.unmatched_events_id_vec w.id_words).0,
          w.tests,
          read_matched-bytes t.count bytes indices (joined rest) w.size w.decodes,
        )
        refl

-- A table and what is decoded of it.
pub record HasDecoded (t : Table) (d : Decoded) : Type 0 where
  pub bytes : Bytes
  pub indices : List ℕ
  pub bools : List Bool
  pub unmatched : Map ℕ
  pub writable : IsWritable t bytes indices bools unmatched
  pub is :
      d
      ≡ decoded t.matching_set_id t.count t.epoch_rank_vec t.epoch_clock_vec t.with_previous_vec
          bools t.matched_index_vec unmatched indices

-- The tables of a chunk under their ids, and what is decoded of each.
abbrev pub AreDecoded : List (ℕ × Table) → List (ℕ × Decoded) → Type 0
AreDecoded [] [] = Unit
AreDecoded ((i, t) ∷ ts) ((j, d) ∷ ds) =
    (t.matching_set_id ≡ i) × (j ≡ i) × HasDecoded t d × AreDecoded ts ds
AreDecoded _ _ = ⊥

-- An id that comes behind another one.
abbrev pub IsBehind : ℕ → ℕ → Type 0
IsBehind i j = (i ≢ j) × (int_ltb j i ≡ false)

-- The keys of a `std::map`.
abbrev pub IsAscending {ℓ} : {T : Type ℓ} → List (ℕ × T) → Type 0
IsAscending [] = Unit
IsAscending ((i, t) ∷ ts) = All (λ e. IsBehind i e.0) ts × IsAscending ts

put_table-last :
    (id : ℕ) (d : Decoded) (ds : List (ℕ × Decoded))
    → All (λ e. IsBehind e.0 id) ds
    → put_table id d ds ≡ ds ++ ((id, d) ∷ [])
unfolding put_table
put_table-last id d [] h = refl
put_table-last id d ((j, e) ∷ ds) h =
    let differ : (j == id) ≡ false = let o = h.0.0 in ground arith in
    rw (differ, h.0.1) (ap (◌∷◌ (j, e)) (put_table-last id d ds h.1))

decode-queue :
    (fuel : ℕ) (t : Table) (bytes : Bytes) (rest : List Bytes) (tables : List (ℕ × Decoded))
    → decode (suc fuel) (joined (queue t bytes ++ rest)) tables
      ≡ decode_table (joined (queue t bytes ++ rest)) >>= λ r.
          decode fuel r.1 (put_table r.0.matching_set_id r.0 tables)
unfolding decode joined queue to_le
decode-queue fuel t bytes rest tables = refl

encode-cons :
    (i : ℕ) (t : Table) (ts : List (ℕ × Table)) (q qs : List Bytes)
    → encode_table unset t ≡ ok q
    → encode unset ts ≡ ok qs
    → encode unset ((i, t) ∷ ts) ≡ ok (q ++ qs)
unfolding encode
encode-cons i t ts q qs h k = rw (h, k) refl

-- The buffers of the tables.
record Queued (ts : List (ℕ × Table)) (ds : List (ℕ × Decoded)) : Type 0 where
  buffers : List Bytes
  encodes : encode unset ts ≡ ok buffers
  enough : length ts ≤ length (joined buffers)
  decodes :
      (fuel : ℕ) (before : List (ℕ × Decoded))
      → length ts ≤ fuel
      → All (λ b. All (λ e. IsBehind b.0 e.0) ts) before
      → decode fuel (joined buffers) before ≡ ok (before ++ ds)

first-IsBehind :
    (i : ℕ) (t : Table) (ts : List (ℕ × Table)) (before : List (ℕ × Decoded))
    → All (λ b. All (λ e. IsBehind b.0 e.0) ((i, t) ∷ ts)) before
    → All (λ b. IsBehind b.0 i) before
first-IsBehind i t ts [] h = tt
first-IsBehind i t ts (b ∷ before) h = (h.0.0, first-IsBehind i t ts before h.1)

others-IsBehind :
    (i : ℕ) (t : Table) (ts : List (ℕ × Table)) (before : List (ℕ × Decoded))
    → All (λ b. All (λ e. IsBehind b.0 e.0) ((i, t) ∷ ts)) before
    → All (λ b. All (λ e. IsBehind b.0 e.0) ts) before
others-IsBehind i t ts [] h = tt
others-IsBehind i t ts (b ∷ before) h = (h.0.1, others-IsBehind i t ts before h.1)

decode-step :
    (fuel i : ℕ) (t : Table) (d : Decoded) (ts : List (ℕ × Table)) (ds : List (ℕ × Decoded))
    → (h : HasDecoded t d) (rest : Queued ts ds) (before : List (ℕ × Decoded))
    → t.matching_set_id ≡ i
    → suc (length ts) ≤ fuel
    → All (λ e. IsBehind i e.0) ts
    → All (λ b. All (λ e. IsBehind b.0 e.0) ((i, t) ∷ ts)) before
    → decode fuel (joined (queue t h.bytes ++ rest.buffers)) before ≡ ok (before ++ ((i, d) ∷ ds))
unfolding result decoded
decode-step zero i t d ts ds h rest before same le asc behind = absurd (omega arith)
decode-step (suc fuel) i t d ts ds h rest before same le asc behind =
    let x = result t h.bytes h.indices h.bools h.unmatched h.writable in
    decode-queue fuel t h.bytes rest.buffers before
    ∙ ap (λ q. q >>= λ r. decode fuel r.1 (put_table r.0.matching_set_id r.0 before))
        (decode_table-queue t h.bytes h.indices h.bools h.unmatched h.writable rest.buffers)
    ∙ ap₂ (λ k y. decode fuel (joined rest.buffers) (put_table k y before)) same (sym h.is)
    ∙ ap (decode fuel (joined rest.buffers))
        (put_table-last i d before (first-IsBehind i t ts before behind))
    ∙ rest.decodes fuel (before ++ ((i, d) ∷ [])) (omega arith) (
        All-append (λ b. All (λ e. IsBehind b.0 e.0) ts) before ((i, d) ∷ [])
          (others-IsBehind i t ts before behind) (asc, tt))
    ∙ ap ok (append_assoc before ((i, d) ∷ []) ds)

length-joined :
    (xs ys : List Bytes) → length (joined (xs ++ ys)) ≡ length (joined xs) + length (joined ys)
unfolding joined
length-joined [] ys = omega arith
length-joined (x ∷ xs) ys =
    omega
      (arith, length-append x (joined (xs ++ ys)), length-append x (joined xs), length-joined xs ys)

pos-joined : (b : Bytes) (bs : List Bytes) → length b ≤ length (joined (b ∷ bs))
unfolding joined
pos-joined b bs = omega (arith, length-append b (joined bs))

length-queue :
    (t : Table) (bytes : Bytes) (rest : List Bytes)
    → suc (length (joined rest)) ≤ length (joined (queue t bytes ++ rest))
unfolding queue
length-queue t bytes rest = omega (
  arith,
  length-joined (queue t bytes) rest,
  pos-joined (to_le 4 t.matching_set_id) _,
  length-to_le 4 t.matching_set_id,
)

encode-Queued :
    (ts : List (ℕ × Table)) (ds : List (ℕ × Decoded))
    → AreDecoded ts ds
    → IsAscending ts
    → Queued ts ds
unfolding encode decode joined
encode-Queued [] [] h asc = record {
  buffers = [];
  encodes = refl;
  enough = omega arith;
  decodes = λ fuel before le behind. ap ok (sym (append-nil before));
}
encode-Queued [] (d ∷ ds) h asc = absurd h
encode-Queued (t ∷ ts) [] h asc = absurd h
encode-Queued ((i, t) ∷ ts) ((j, d) ∷ ds) h asc =
    let rest = encode-Queued ts ds h.3 asc.1 in
    let w = h.2 in
    record {
      buffers = queue t w.bytes ++ rest.buffers;
      encodes =
          encode-cons i t ts (queue t w.bytes) rest.buffers
            (encode_table-queue t w.bytes w.indices w.bools w.unmatched w.writable) rest.encodes;
      enough = let e = rest.enough in omega (arith, length-queue t w.bytes rest.buffers);
      decodes = λ fuel before le behind.
          decode-step fuel i t d ts ds w rest before h.0 le asc.0 behind
          ∙ ap (λ k. ok (before ++ ((k, d) ∷ ds))) (sym h.1);
    }

-- For the tables of a chunk, under ascending ids and with counts below `2 ^ 31`, vectors of fewer
-- than `2 ^ 31` numbers, and other members that fit into their fields, whose matched events can be
-- compressed, with the bit that is read behind the matched bits in their storage and unset, and
-- decoded: `encode` leaves buffers, and `decode` reads them, one after the other, to their end, and
-- makes of each table its members, its marks, its counts of unmatched events and its indices.
pub decode_chunk-encode :
    (ts : List (ℕ × Table)) (ds : List (ℕ × Decoded))
    → AreDecoded ts ds
    → IsAscending ts
    → (buffers : List Bytes) × (encode unset ts ≡ ok buffers)
      × (decode_chunk (joined buffers) ≡ ok ds)
unfolding decode_chunk
decode_chunk-encode ts ds h asc =
    let q = encode-Queued ts ds h asc in
    (q.buffers, q.encodes, q.decodes (length (joined q.buffers)) [] q.enough tt)
