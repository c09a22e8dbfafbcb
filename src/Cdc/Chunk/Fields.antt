-- ===== src/Cdc/Chunk/Fields.antt =====
-- src/rempi/rempi_encoder_cdc.cpp: each field of a table, read back from its bytes.
use re_mpi.Common.{
  ltb, true, ℕ, ◌*◌, ◌/◌, ◌^◌, ◌<◌, ◌≡◌, refl, ◌∙◌, ap, List, ◌++◌, length, All, ok, ◌>>=◌, arith,
}
use re_mpi.Common.Bytes.{Bytes, to_le, from_le, length-to_le, from_le-to_le_eight}
use re_mpi.Request.Merge.Footer.{word_bytes, bytes_words, read_bytes}
use re_mpi.Request.Merge.Footer.RoundTrip.{
  IsWord, read_bytes-append, bytes_words-word_bytes, length-word_bytes,
}
use re_mpi.Cdc.Matched.{decode_matched_events}
use re_mpi.Cdc.Chunk.{
  read_word, read_count, read_vec, read_sized, read_counted, read_epoch, read_matched,
}

from_le-to_le_four : (x : ℕ) → x < 2 ^ 32 → from_le (to_le 4 x) ≡ x
unfolding from_le to_le
from_le-to_le_four x h = omega arith

pub read_word_four :
    (x : ℕ) (rest : Bytes) → x < 2 ^ 32 → read_word 4 (to_le 4 x ++ rest) ≡ ok (x, rest)
unfolding read_word
read_word_four x rest h =
    ap (λ q. q >>= λ r. ok (from_le r.0, r.1))
      (read_bytes-append 4 (to_le 4 x) rest (length-to_le 4 x))
    ∙ ap (λ y. ok (y, rest)) (from_le-to_le_four x h)

pub read_count-to_le :
    (x : ℕ) (rest : Bytes) → x < 2 ^ 31 → read_count (to_le 4 x ++ rest) ≡ ok (x, rest)
unfolding read_count
read_count-to_le x rest h =
    let in_range : ltb x (2 ^ 31) ≡ true = ground arith in
    rw (read_word_four x rest (omega arith), in_range) refl

pub read_word_eight :
    (x : ℕ) (rest : Bytes) → x < 2 ^ 64 → read_word 8 (to_le 8 x ++ rest) ≡ ok (x, rest)
unfolding read_word
read_word_eight x rest h =
    ap (λ q. q >>= λ r. ok (from_le r.0, r.1))
      (read_bytes-append 8 (to_le 8 x) rest (length-to_le 8 x))
    ∙ ap (λ y. ok (y, rest)) (from_le-to_le_eight x h)

-- A vector of words that is not longer than the decoder can copy.
pub record IsVec (xs : List ℕ) : Type 0 where
  pub words : All IsWord xs
  pub fits : length xs < 2 ^ 31

pub read_vec-word_bytes :
    (xs : List ℕ) (rest : Bytes)
    → IsVec xs
    → read_vec (length xs * 8) (word_bytes xs ++ rest) ≡ ok (xs, rest)
unfolding read_vec
read_vec-word_bytes xs rest v =
    let h = v.words in
    let few = v.fits in
    let in_range : ltb (length xs * 8 / 8) (2 ^ 31) ≡ true = ground arith in
    rw in_range (
      ap (λ q. q >>= λ r. ok (bytes_words (length xs * 8 / 8) r.0, r.1))
        (read_bytes-append (length xs * 8) (word_bytes xs) rest (length-word_bytes xs)))
    ∙ ap (λ n. ok (bytes_words n (word_bytes xs), rest)) {x = length xs * 8 / 8} {y = length xs}
        (omega arith)
    ∙ ap (λ ys. ok (ys, rest)) (bytes_words-word_bytes xs h)

pub read_sized-sized :
    (xs : List ℕ) (rest : Bytes)
    → IsVec xs
    → read_sized (to_le 8 (length xs * 8) ++ (word_bytes xs ++ rest)) ≡ ok (xs, rest)
unfolding read_sized
read_sized-sized xs rest h =
    ap (λ q. q >>= λ size. read_vec size.0 size.1)
      (read_word_eight (length xs * 8) (word_bytes xs ++ rest) (let f = h.fits in omega arith))
    ∙ read_vec-word_bytes xs rest h

pub read_counted-counted :
    (xs : List ℕ) (rest : Bytes)
    → IsVec xs
    → read_counted (to_le 8 (length xs) ++ (to_le 8 (length xs * 8) ++ (word_bytes xs ++ rest)))
      ≡ ok (xs, rest)
unfolding read_counted
read_counted-counted xs rest h =
    ap (λ q. q >>= λ length. read_sized length.1)
      (read_word_eight (length xs) (to_le 8 (length xs * 8) ++ (word_bytes xs ++ rest))
        (let f = h.fits in omega arith))
    ∙ read_sized-sized xs rest h

pub read_epoch-vectors :
    (ranks clocks : List ℕ) (rest : Bytes)
    → IsVec ranks
    → IsVec clocks
    → length ranks ≡ length clocks
    → read_epoch (to_le 8 (length ranks * 8) ++ (word_bytes ranks ++ (word_bytes clocks ++ rest)))
      ≡ ok ((ranks, clocks), rest)
unfolding read_epoch
read_epoch-vectors ranks clocks rest h k same =
    ap
      (λ q. q >>= λ size.
        read_vec size.0 size.1 >>= λ rs. read_vec size.0 rs.1 >>= λ cs. ok ((rs.0, cs.0), cs.1))
      (read_word_eight (length ranks * 8) (word_bytes ranks ++ (word_bytes clocks ++ rest))
        (let f = h.fits in omega arith))
    ∙ ap (λ q. q >>= λ rs. read_vec (length ranks * 8) rs.1 >>= λ cs. ok ((rs.0, cs.0), cs.1))
        (read_vec-word_bytes ranks (word_bytes clocks ++ rest) h)
    ∙ ap (λ n. read_vec (n * 8) (word_bytes clocks ++ rest) >>= λ cs. ok ((ranks, cs.0), cs.1)) same
    ∙ ap (λ q. q >>= λ cs. ok ((ranks, cs.0), cs.1)) (read_vec-word_bytes clocks rest k)

pub read_matched-bytes :
    (n : ℕ) (bytes : Bytes) (indices : List ℕ) (rest : Bytes)
    → length bytes < 2 ^ 64
    → decode_matched_events n bytes ≡ ok indices
    → read_matched n (to_le 8 (length bytes) ++ (bytes ++ rest)) ≡ ok (indices, rest)
unfolding read_matched
read_matched-bytes n bytes indices rest h k =
    ap
      (λ q. q >>= λ size. read_bytes size.0 size.1 >>= λ compressed.
        decode_matched_events n compressed.0 >>= λ is. ok (is, compressed.1))
      (read_word_eight (length bytes) (bytes ++ rest) h)
    ∙ ap
        (λ q.
          q >>= λ compressed. decode_matched_events n compressed.0 >>= λ is. ok (is, compressed.1))
        (read_bytes-append (length bytes) bytes rest refl)
    ∙ ap (λ q. q >>= λ is. ok (is, rest)) k
