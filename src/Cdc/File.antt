-- ===== src/Cdc/File.antt =====
-- src/rempi/rempi_encoder_cdc.cpp: `write_record_file` and `read_record_file`, the chunks of a record.
pub mod Replay
use re_mpi.Common.{
  ℕ, zero, suc, ◌%◌, ◌^◌, Bool, Option, none, some, List, [], ◌∷◌, ◌++◌, ◌==◌, ltb, if◌then◌else◌,
  length, take, drop, Run, ok, abort, ◌>>=◌,
}
use re_mpi.Common.Bytes.{Bytes, to_le, from_le}
use re_mpi.Encoder.Basic.{Config}
use re_mpi.Cdc.Table.{Table}
use re_mpi.Cdc.Chunk.{Decoded, encode, joined, decode_chunk}

module _ (cfg : Config) where
  -- `write_record_file`: the buffers of `write_queue_vec` behind their size. A size of 0 is the separator.
  unfoldable pub write_record_file : (queue : List Bytes) → (file : Bytes) → Run Bytes
  unfolding joined to_le
  write_record_file queue file =
      if cfg.rempi_gzip
      then (cfg.compress_by_zlib_vec queue >>= λ compressed.
          if length (joined compressed) % 2 ^ 64 == 0
          then abort
          else ok (file ++ (to_le 8 (length (joined compressed)) ++ joined compressed)))
      else ok (file ++ (to_le 8 (length (joined queue)) ++ joined queue))

  -- What `read_record_file` puts into `write_queue_vec`.
  unfoldable pub decompressed : Bytes → Run (List Bytes)
  decompressed payload =
      if cfg.rempi_gzip then cfg.decompress_by_zlib_vec (payload ∷ []) else ok (payload ∷ [])

  -- The payload behind a size. Of a file that ends inside it, part of the buffer is never set.
  unfoldable pub read_payload : (chunk_size : ℕ) → Bytes → Run (Option (List Bytes) × Bytes)
  unfolding decompressed
  read_payload chunk_size rest =
      if chunk_size == 0
      then ok (none, rest)
      else if ltb (length rest) chunk_size
      then abort
      else (decompressed (take chunk_size rest) >>= λ queue. ok (some queue, drop chunk_size rest))

  -- `none` is `is_no_more_record`. No byte at all is an error, and of fewer than eight `chunk_size` is
  -- not set.
  unfoldable pub read_record_file : Bytes → Run (Option (List Bytes) × Bytes)
  unfolding read_payload from_le
  read_record_file file =
      if ltb (length file) 8 then abort else read_payload (from_le (take 8 file)) (drop 8 file)

  -- The chunks of a record, encoded and written one after the other.
  unfoldable pub write_chunks : (bit_behind : Bool) → List (List (ℕ × Table)) → Bytes → Run Bytes
  unfolding write_record_file
  write_chunks bit_behind [] file = ok file
  write_chunks bit_behind (tables ∷ chunks) file = encode bit_behind tables >>= λ queue.
      write_record_file queue file >>= write_chunks bit_behind chunks

  -- `decode` on what was read, and the rest of the record; nothing more at the separator.
  unfoldable pub decode_read :
      (Bytes → Run (List (List (ℕ × Decoded)) × Bytes))
      → Option (List Bytes) × Bytes
      → Run (List (List (ℕ × Decoded)) × Bytes)
  unfolding decode_chunk joined
  decode_read next (none, rest) = ok ([], rest)
  decode_read next (some queue, rest) =
      decode_chunk (joined queue) >>= λ tables. next rest >>= λ r. ok (tables ∷ r.0, r.1)

  -- The chunks of a record, read and decoded one after the other until the separator.
  unfoldable pub read_chunks : (fuel : ℕ) → Bytes → Run (List (List (ℕ × Decoded)) × Bytes)
  unfolding read_record_file decode_read
  read_chunks zero file = abort
  read_chunks (suc fuel) file = read_record_file file >>= decode_read (read_chunks fuel)
