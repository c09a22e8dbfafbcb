-- ===== src/Cdc/File/Replay.antt =====
-- src/rempi/rempi_encoder_cdc.cpp: a record file is read back.
use re_mpi.ClockDelta.Compress.{unset}
use re_mpi.Common.{ℕ, suc, ◌^◌, ◌<◌, ◌≡◌, List, [], ◌∷◌, ◌++◌, length, All, ok}
use re_mpi.Common.Bytes.{Bytes, to_le}
use re_mpi.Encoder.Basic.{Config}
use re_mpi.Request.Merge.Footer.RoundTrip.{IsChunk, chunks_bytes}
use re_mpi.Cdc.Table.{Table}
use re_mpi.Cdc.Chunk.{Decoded, encode, joined}
use re_mpi.Cdc.Chunk.RoundTrip.{AreDecoded, IsAscending}
use re_mpi.Cdc.File.{write_record_file, decompressed, write_chunks, read_chunks}

-- What zlib makes of buffers, and gets back of it.
pub record Zipped (cfg : Config) (queue : List Bytes) : Type 0 where
  pub deflated : List Bytes
  pub inflated : List Bytes
  pub compresses : cfg.compress_by_zlib_vec queue ≡ ok deflated
  pub chunk : IsChunk (joined deflated)
  pub decompresses : cfg.decompress_by_zlib_vec (joined deflated ∷ []) ≡ ok inflated
  pub same : joined inflated ≡ joined queue

-- The tables of a chunk, and what is decoded of them: its bytes are some, and less than `2 ^ 63`.
pub record IsWritten (ts : List (ℕ × Table)) (ds : List (ℕ × Decoded)) : Type 0 where
  pub are_decoded : AreDecoded ts ds
  pub ascending : IsAscending ts
  pub queue : List Bytes
  pub encodes : encode unset ts ≡ ok queue
  pub some_bytes : 0 < length (joined queue)
  pub small : length (joined queue) < 2 ^ 63

abbrev pub AreWritten : List (List (ℕ × Table)) → List (List (ℕ × Decoded)) → Type 0
AreWritten [] [] = Unit
AreWritten (ts ∷ tss) (ds ∷ dss) = IsWritten ts ds × AreWritten tss dss
AreWritten _ _ = ⊥

-- A chunk's buffers in the file.
record Stored (cfg : Config) (queue : List Bytes) : Type 0 where
  payload : Bytes
  back : List Bytes
  chunk : IsChunk payload
  writes :
      (file : Bytes)
      → write_record_file cfg queue file ≡ ok (file ++ (to_le 8 (length payload) ++ payload))
  unpacks : decompressed cfg payload ≡ ok back
  same : joined back ≡ joined queue

-- What chunks of tables leave in the file, and what is read of it.
pub record Replayed (cfg : Config) (tss : List (List (ℕ × Table))) (dss : List (List (ℕ × Decoded)))
    : Type 0 where
  pub payloads : List Bytes
  pub chunks : All IsChunk payloads
  pub writes : (file : Bytes) → write_chunks cfg unset tss file ≡ ok (file ++ chunks_bytes payloads)
  pub reads :
      (behind : Bytes)
      → read_chunks cfg (suc (length tss)) (chunks_bytes payloads ++ (to_le 8 0 ++ behind))
        ≡ ok (dss, behind)
