-- ===== src/Request/Merge/Footer.antt =====
-- src/rempi/rempi_encoder_cdc.cpp: `write_footer` and `read_footer`, what stands behind the chunks of a
-- record file: the ranks that have sent, and the table of matching sets.
pub mod RoundTrip
use re_mpi.Common.{
  ℕ, zero, suc, ◌*◌, Option, none, some, List, [], ◌∷◌, ◌++◌, ◌==◌, ltb, ◌&&◌, true, false,
  if◌then◌else◌, map, length, take, drop, Run, ok, abort, ◌>>=◌,
}
use re_mpi.Common.Bytes.{Bytes, to_le, from_le, int_bytes, bytes_ints}
use re_mpi.Common.Maps.{Map}
use re_mpi.Request.{Config, Requests}
use re_mpi.Request.Merge.{get_matching_set_id_map, set_matching_set_id_map}

abbrev pub keys : Map ℕ → List ℕ
keys = map (λ e. e.0)

abbrev pub values : Map ℕ → List ℕ
values = map (λ e. e.1)

-- A buffer of `size_t`s, and its view.
unfoldable pub word_bytes : List ℕ → Bytes
unfolding to_le
word_bytes [] = []
word_bytes (x ∷ xs) = to_le 8 x ++ word_bytes xs

unfoldable pub bytes_words : (n : ℕ) → Bytes → List ℕ
unfolding from_le
bytes_words zero bytes = []
bytes_words (suc n) bytes = from_le (take 8 bytes) ∷ bytes_words n (drop 8 bytes)

-- The separator `all_epoch_rank_separator` is 0. `ranks` is `all_epoch_rank_uset`.
unfoldable pub footer : (ranks : List ℕ) → Map ℕ → Bytes
unfolding to_le int_bytes word_bytes
footer ranks table =
    to_le 8 0
    ++ (to_le 8 (length ranks)
        ++ (int_bytes ranks
            ++ (to_le 4 (length table) ++ (word_bytes (keys table) ++ int_bytes (values table)))))

unfoldable pub write_footer : Config → (ranks : List ℕ) → Requests → Bytes → Run Bytes
unfolding footer get_matching_set_id_map
write_footer c ranks s file =
    get_matching_set_id_map c s >>= λ table. ok (file ++ footer ranks table)

-- `read(fd, &chunk_size, sizeof(size_t))`: what is missing of the word keeps its old bytes.
unfoldable pub read_size : (old : ℕ) → Bytes → ℕ
unfolding from_le to_le
read_size old file = from_le (take 8 file ++ drop (length (take 8 file)) (to_le 8 old))

-- One turn of the loop over the chunks, which leaves the file behind the separator.
unfoldable pub skip_chunk : (chunk_size : ℕ) → Bytes → (ℕ → Bytes → Run Bytes) → Run Bytes
skip_chunk chunk_size rest next = elim (chunk_size == 0) [
  | true ↦ ok rest
  | false ↦ next chunk_size (drop chunk_size rest)
]

unfoldable pub skip_chunks : (fuel chunk_size : ℕ) → Bytes → Run Bytes
unfolding read_size skip_chunk
skip_chunks zero chunk_size file = abort
skip_chunks (suc fuel) chunk_size [] = abort
skip_chunks (suc fuel) chunk_size (b ∷ file) =
    skip_chunk (read_size chunk_size (b ∷ file)) (drop 8 (b ∷ file)) (skip_chunks fuel)

-- `read` into a buffer of `n` bytes; a short read is refused, or leaves a variable unset.
unfoldable pub read_bytes : (n : ℕ) → Bytes → Run (Bytes × Bytes)
read_bytes n file = if length (take n file) == n then ok (take n file, drop n file) else abort

unfoldable pub read_rank_list : (count : ℕ) → Bytes → Run Bytes
unfolding read_bytes
read_rank_list count file =
    if ltb 0 count then (read_bytes (count * 4) file >>= λ e. ok e.1) else ok file

unfoldable pub read_ranks : Bytes → Run Bytes
unfolding read_bytes read_rank_list from_le
read_ranks file = read_bytes 8 file >>= λ e. read_rank_list (from_le e.0) e.1

-- The two arrays of `n` entries.
unfoldable pub load_table : (n : ℕ) → Bytes → Requests → Run Requests
unfolding read_bytes bytes_words bytes_ints set_matching_set_id_map
load_table n file s = read_bytes (n * 8) file >>= λ ms. read_bytes (n * 4) ms.1 >>= λ ids.
    ok (set_matching_set_id_map (bytes_words n ms.0) (bytes_ints ids.0) s)

-- `length` is an `int`.
unfoldable pub read_table : (n : ℕ) → Bytes → Requests → Run Requests
unfolding load_table
read_table n file s = if ltb 0 n && ltb n 2147483648 then load_table n file s else ok s

unfoldable pub read_footer : Bytes → Requests → Run Requests
unfolding skip_chunks read_ranks read_bytes read_table from_le
read_footer file s = skip_chunks (suc (length file)) 1 file >>= λ ranks.
    read_ranks ranks >>= λ rest. read_bytes 4 rest >>= λ e. read_table (from_le e.0) e.1 s
