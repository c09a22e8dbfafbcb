-- ===== src/Request/Merge/Footer/RoundTrip.antt =====
-- src/rempi/rempi_encoder_cdc.cpp: the table of matching sets that a recording process writes is the one
-- that a replaying process has.
use re_mpi.Common.{
  ℕ, zero, suc, ◌*◌, ◌^◌, ◌<◌, ◌≤◌, ◌≡◌, refl, sym, ◌∙◌, ap, true, none, List, [], ◌∷◌, ◌++◌,
  ==_iff, ltb, arith, All, length, drop, ok, Run, ◌>>=◌, append_assoc, append-nil, length-append,
  take-append, drop-append, length-map,
}
use re_mpi.Common.Bytes.{
  Bytes, IsInt, to_le, from_le, int_bytes, bytes_ints, from_le-to_le_eight, length-to_le,
  length-int_bytes, bytes_ints-int_bytes,
}
use re_mpi.Common.Maps.{Map, IsMap, find, put, put_new, find-put}
use re_mpi.Request.{Config, Requests}
use re_mpi.Request.Info.{encode_rep}
use re_mpi.Request.Merge.{set_ids, set_matching_set_id_map, get_matching_set_id_map}
use re_mpi.Request.Merge.Together.{IsTogether, get_matching_set_id_map-Merged}
use re_mpi.Request.Merge.Footer.{
  keys, values, word_bytes, bytes_words, footer, write_footer, read_size, skip_chunk, skip_chunks,
  read_bytes, read_ranks, read_rank_list, load_table, read_table, read_footer,
}

-- The chunks of a record: sizes and contents.
unfoldable pub chunks_bytes : List Bytes → Bytes
unfolding to_le
chunks_bytes [] = []
chunks_bytes (p ∷ ps) = to_le 8 (length p) ++ (p ++ chunks_bytes ps)

abbrev pub IsChunk : Bytes → Type 0
IsChunk p = (0 < length p) × (length p < 2 ^ 64)

pub read_bytes-append :
    (n : ℕ) (xs rest : Bytes) → length xs ≡ n → read_bytes n (xs ++ rest) ≡ ok (xs, rest)
unfolding read_bytes
read_bytes-append n xs rest h =
    rw (sym h)
      (rw (take-append xs rest, drop-append xs rest, (==_iff (length xs) (length xs)).1 refl) refl)

read_size-to_le : (n old : ℕ) (rest : Bytes) → n < 2 ^ 64 → read_size old (to_le 8 n ++ rest) ≡ n
unfolding read_size to_le from_le
read_size-to_le n old rest h = omega arith

skip_chunks-end :
    (fuel old : ℕ) (rest : Bytes) → skip_chunks (suc fuel) old (to_le 8 0 ++ rest) ≡ ok rest
unfolding skip_chunks skip_chunk to_le read_size from_le
skip_chunks-end fuel old rest = refl

skip_chunk-pos :
    (n : ℕ) (rest : Bytes) (next : ℕ → Bytes → Run Bytes)
    → 0 < n
    → skip_chunk n rest next ≡ next n (drop n rest)
unfolding skip_chunk
skip_chunk-pos n rest next pos = ground arith

skip_chunks-size :
    (fuel n old : ℕ) (rest : Bytes)
    → 0 < n
    → n < 2 ^ 64
    → skip_chunks (suc fuel) old (to_le 8 n ++ rest) ≡ skip_chunks fuel n (drop n rest)
unfolding skip_chunks to_le
skip_chunks-size fuel n old rest pos h =
    ap (λ size. skip_chunk size rest (skip_chunks fuel)) (read_size-to_le n old rest h)
    ∙ skip_chunk-pos n rest (skip_chunks fuel) pos

skip_chunks-chunks :
    (ps : List Bytes) (fuel old : ℕ) (rest : Bytes)
    → All IsChunk ps
    → length ps < fuel
    → skip_chunks fuel old (chunks_bytes ps ++ (to_le 8 0 ++ rest)) ≡ ok rest
unfolding chunks_bytes
skip_chunks-chunks ps zero old rest h enough = absurd (omega arith)
skip_chunks-chunks [] (suc fuel) old rest h enough = skip_chunks-end fuel old rest
skip_chunks-chunks (p ∷ ps) (suc fuel) old rest h enough =
    ap (skip_chunks (suc fuel) old)
      (append_assoc (to_le 8 (length p)) (p ++ chunks_bytes ps) (to_le 8 0 ++ rest))
    ∙ skip_chunks-size fuel (length p) old ((p ++ chunks_bytes ps) ++ (to_le 8 0 ++ rest)) h.0.0
        h.0.1
    ∙ ap (skip_chunks fuel (length p)) (
        ap (drop (length p)) (append_assoc p (chunks_bytes ps) (to_le 8 0 ++ rest))
        ∙ drop-append p (chunks_bytes ps ++ (to_le 8 0 ++ rest)))
    ∙ skip_chunks-chunks ps fuel (length p) rest h.1 (omega arith)

length-chunks_bytes : (ps : List Bytes) → length ps ≤ length (chunks_bytes ps)
unfolding chunks_bytes to_le
length-chunks_bytes [] = omega arith
length-chunks_bytes (p ∷ ps) =
    omega (arith, length-append p (chunks_bytes ps), length-chunks_bytes ps)

abbrev pub IsWord : ℕ → Type 0
IsWord x = x < 2 ^ 64

pub bytes_words-word_bytes :
    (xs : List ℕ) → All IsWord xs → bytes_words (length xs) (word_bytes xs) ≡ xs
unfolding bytes_words word_bytes to_le
bytes_words-word_bytes [] h = refl
bytes_words-word_bytes (x ∷ xs) h =
    rw (bytes_words-word_bytes xs h.1) (ap (λ y. y ∷ xs) (from_le-to_le_eight x h.0))

pub length-word_bytes : (xs : List ℕ) → length (word_bytes xs) ≡ length xs * 8
unfolding word_bytes to_le
length-word_bytes [] = refl
length-word_bytes (x ∷ xs) = omega (arith, length-word_bytes xs)

-- The keys of the second table do not stand in the first.
abbrev Apart : Map ℕ → Map ℕ → Type 0
Apart t = All (λ e. find e.0 t ≡ none)

Apart-put : (k v : ℕ) (t m : Map ℕ) → find k m ≡ none → Apart t m → Apart (put k v t) m
unfolding find
Apart-put k v t [] new h = tt
Apart-put k v t ((j, w) ∷ m) new h =
    (ground (arith, find-put j k v t), Apart-put k v t m (ground arith) h.1)

set_ids-table : (m t : Map ℕ) → IsMap m → Apart t m → set_ids (keys m) (values m) t ≡ t ++ m
unfolding set_ids
set_ids-table [] t h apart = sym (append-nil t)
set_ids-table ((k, v) ∷ m) t h apart =
    set_ids-table m (put k v t) h.1 (Apart-put k v t m h.0 apart.1)
    ∙ ap (λ u. u ++ m) (put_new k v t apart.0)
    ∙ append_assoc t ((k, v) ∷ []) m

-- A table that fits the file's fields, and a set of ranks that does.
pub record IsStorable (ranks : List ℕ) (table : Map ℕ) : Type 0 where
  pub rank_ints : All IsInt ranks
  pub rank_count : length ranks < 2 ^ 64
  pub distinct : IsMap table
  pub msg_words : All IsWord (keys table)
  pub set_ints : All IsInt (values table)
  pub count : length table < 2147483648

read_rank_list-append :
    (ranks : List ℕ) (rest : Bytes)
    → read_rank_list (length ranks) (int_bytes ranks ++ rest) ≡ ok rest
unfolding read_rank_list int_bytes
read_rank_list-append [] rest = refl
read_rank_list-append (r ∷ ranks) rest =
    let some_ranks : ltb 0 (suc (length ranks)) ≡ true = ground arith in
    rw some_ranks (
      ap (λ q. q >>= λ e. ok e.1)
        (read_bytes-append (suc (length ranks) * 4) (int_bytes (r ∷ ranks)) rest
          (omega (arith, length-int_bytes (r ∷ ranks)))))

read_ranks-append :
    (ranks : List ℕ) (rest : Bytes)
    → length ranks < 2 ^ 64
    → read_ranks (to_le 8 (length ranks) ++ (int_bytes ranks ++ rest)) ≡ ok rest
unfolding read_ranks
read_ranks-append ranks rest h =
    ap (λ r. r >>= λ e. read_rank_list (from_le e.0) e.1)
      (read_bytes-append 8 (to_le 8 (length ranks)) (int_bytes ranks ++ rest)
        (length-to_le 8 (length ranks)))
    ∙ ap (λ n. read_rank_list n (int_bytes ranks ++ rest)) (from_le-to_le_eight (length ranks) h)
    ∙ read_rank_list-append ranks rest

Apart-nil : (m : Map ℕ) → Apart [] m
unfolding find
Apart-nil [] = tt
Apart-nil ((k, v) ∷ m) = (refl, Apart-nil m)

-- What the two arrays put into a state without a table.
set_matching_set_id_map-table :
    (table : Map ℕ) (s : Requests)
    → IsMap table
    → s.set_of_msg ≡ []
    → set_matching_set_id_map (keys table) (values table) s ≡ record s { set_of_msg = table }
unfolding set_matching_set_id_map
set_matching_set_id_map-table table s distinct empty =
    ap (λ t. record s { set_of_msg = set_ids (keys table) (values table) t }) empty
    ∙ ap (λ t. record s { set_of_msg = t }) (set_ids-table table [] distinct (Apart-nil table))

load_table-append :
    (table : Map ℕ) (s : Requests)
    → IsMap table
    → All IsWord (keys table)
    → All IsInt (values table)
    → s.set_of_msg ≡ []
    → load_table (length table) (word_bytes (keys table) ++ int_bytes (values table)) s
      ≡ ok (record s { set_of_msg = table })
unfolding load_table set_matching_set_id_map
load_table-append table s distinct words ints empty =
    ap
      (λ q. q >>= λ ms. read_bytes (length table * 4) ms.1 >>= λ ids.
        ok (set_matching_set_id_map (bytes_words (length table) ms.0) (bytes_ints ids.0) s))
      (read_bytes-append (length table * 8) (word_bytes (keys table)) (int_bytes (values table))
        (omega (arith, length-word_bytes (keys table), length-map (λ (e : ℕ × ℕ). e.0) table)))
    ∙ ap
        (λ q. q >>= λ ids. ok (
          set_matching_set_id_map (bytes_words (length table) (word_bytes (keys table)))
            (bytes_ints ids.0) s))
        (ap (read_bytes (length table * 4)) (sym (append-nil (int_bytes (values table))))
          ∙ read_bytes-append (length table * 4) (int_bytes (values table)) [] (
              omega
                (arith, length-int_bytes (values table), length-map (λ (e : ℕ × ℕ). e.1) table)))
    ∙ ap (λ ms. ok (set_matching_set_id_map ms (bytes_ints (int_bytes (values table))) s))
        (ap (λ n. bytes_words n (word_bytes (keys table)))
            (sym (length-map (λ (e : ℕ × ℕ). e.0) table))
          ∙ bytes_words-word_bytes (keys table) words)
    ∙ ap (λ ids. ok (set_matching_set_id_map (keys table) ids s))
        (bytes_ints-int_bytes (values table) ints)
    ∙ ap ok (set_matching_set_id_map-table table s distinct empty)

read_table-append :
    (table : Map ℕ) (s : Requests)
    → IsMap table
    → All IsWord (keys table)
    → All IsInt (values table)
    → length table < 2147483648
    → s.set_of_msg ≡ []
    → read_table (length table) (word_bytes (keys table) ++ int_bytes (values table)) s
      ≡ ok (record s { set_of_msg = table })
unfolding read_table
read_table-append [] s distinct words ints small empty =
    ap (λ t. ok (record s { set_of_msg = t })) empty
read_table-append (e ∷ table) s distinct words ints small empty =
    let positive : ltb 0 (length (e ∷ table)) ≡ true = ground arith in
    let fits : ltb (length (e ∷ table)) 2147483648 ≡ true = ground arith in
    rw (positive, fits) (load_table-append (e ∷ table) s distinct words ints empty)

pub from_le-to_le_four : (x : ℕ) → x < 2147483648 → from_le (to_le 4 x) ≡ x
unfolding from_le to_le
from_le-to_le_four x h = omega arith

-- The footer behind chunks of which none is empty.
read_footer-footer :
    (ps : List Bytes) (ranks : List ℕ) (table : Map ℕ) (s : Requests)
    → All IsChunk ps
    → IsStorable ranks table
    → s.set_of_msg ≡ []
    → read_footer (chunks_bytes ps ++ footer ranks table) s ≡ ok (record s { set_of_msg = table })
unfolding read_footer footer
read_footer-footer ps ranks table s chunks h empty =
    let arrays = word_bytes (keys table) ++ int_bytes (values table) in
    let tail = to_le 8 (length ranks) ++ (int_bytes ranks ++ (to_le 4 (length table) ++ arrays)) in
    let file = chunks_bytes ps ++ (to_le 8 0 ++ tail) in
    ap
      (λ q. q >>= λ r.
        read_ranks r >>= λ rest. read_bytes 4 rest >>= λ e. read_table (from_le e.0) e.1 s)
      (skip_chunks-chunks ps (suc (length file)) 1 tail chunks (
        omega (arith, length-append (chunks_bytes ps) (to_le 8 0 ++ tail), length-chunks_bytes ps)))
    ∙ ap (λ q. q >>= λ rest. read_bytes 4 rest >>= λ e. read_table (from_le e.0) e.1 s)
        (read_ranks-append ranks (to_le 4 (length table) ++ arrays) h.rank_count)
    ∙ ap (λ q. q >>= λ e. read_table (from_le e.0) e.1 s)
        (read_bytes-append 4 (to_le 4 (length table)) arrays (length-to_le 4 (length table)))
    ∙ ap (λ n. read_table n arrays s) (from_le-to_le_four (length table) h.count)
    ∙ read_table-append table s h.distinct h.msg_words h.set_ints h.count empty

-- What a recording process with the tables `s` hands to a replaying process in the state `t`.
pub record Handed (c : Config) (ps : List Bytes) (ranks : List ℕ) (s t : Requests) : Type 0 where
  pub table : Map ℕ
  pub file : Bytes
  pub written : write_footer c ranks s (chunks_bytes ps) ≡ ok file
  pub loaded : read_footer file t ≡ ok (record t { set_of_msg = table })
  pub together : IsTogether table s.msgs_of_call s.set_of_call

-- For the REP encoding, a record file of nonempty chunks, and a replaying process without a table: if
-- the merged table has no duplicate and fits the fields of the file, then writing the footer succeeds,
-- and reading it back gives the replaying process the merged table, in which the messages of each call
-- that has a set share one.
pub read_footer-write_footer :
    (c : Config) (ps : List Bytes) (ranks : List ℕ) (s t : Requests)
    → c.encode ≡ encode_rep
    → All IsChunk ps
    → ((table : Map ℕ) → get_matching_set_id_map c s ≡ ok table → IsStorable ranks table)
    → t.set_of_msg ≡ []
    → Handed c ps ranks s t
unfolding write_footer
read_footer-write_footer c ps ranks s t rep chunks storable empty =
    let w = get_matching_set_id_map-Merged c s rep in
    let table = w.moved.table in
    record {
      table = table;
      file = chunks_bytes ps ++ footer ranks table;
      written = ap (λ q. q >>= λ m. ok (chunks_bytes ps ++ footer ranks m)) w.moved.returns;
      loaded = read_footer-footer ps ranks table t chunks (storable table w.moved.returns) empty;
      together = w.together;
    }
