-- ===== src/Cdc/Matched/Replayed.antt =====
-- src/rempi/rempi_encoder_cdc.cpp, rempi_clock_delta_compression.cpp: the indices that `decode` makes
-- of what `compress` has left.
use mathlib.Core.List.{reverse}
use mathlib.Core.Path.{ap₂}
use re_mpi.ClockDelta.Compress.{unset}
use re_mpi.Common.{
  ◌≤◌, ℕ, zero, suc, ◌+◌, ◌^◌, ◌<◌, ◌≡◌, refl, sym, ◌∙◌, ap, Bool, true, false, Option, none, some,
  List, [], ◌∷◌, ◌++◌, map, length, get_elem?, replicate, All, All-append, leb, ok, ◌>>=◌, arith,
  length-append, length-map, length-replicate,
}
use re_mpi.Common.Maps.{Map, find}
use re_mpi.Common.Bytes.{Bytes, IsInt}
use re_mpi.Common.Ranges.{count, upto, count-upto_le, count-upto_lt}
use re_mpi.ClockDelta.{Edit, edit_ignore, edit_remove, edit_add}
use re_mpi.ClockDelta.Restore.{columns}
use re_mpi.ClockDelta.Binary.{
  vector_bytes, signed, pair_up, visit, clock_deltas, ids, deltas, convert_to_diff_binary, compress,
}
use re_mpi.ClockDelta.Binary.Script.{removed, added, edited, IsScript}
use re_mpi.Cdc.Indices.{
  Cell, original, sequential, memorize, indices, zip, to_int, permutate_all,
  cdc_prepare_decode_indices,
}
use re_mpi.Cdc.Indices.Render.{edited-cons, count-columns}
use re_mpi.Cdc.Indices.Loop.{permuted}
use re_mpi.Cdc.Matched.{decode_vectors, decode_matched_events}
use re_mpi.Cdc.Matched.Named.{IsOrder}
use re_mpi.Cdc.Matched.Script.{compress-Scripted}
use re_mpi.Cdc.Matched.Words.{decode_vectors_words, length-vector_bytes}
use re_mpi.Cdc.Matched.Places.{length-indices, indices-at, count-get_elem?}

signed-IsInt : (remove : Bool) (n : ℕ) → IsInt (signed remove n)
unfolding signed
signed-IsInt remove n = ground arith

-- An id that is pushed is one of the entry, and its delta is an int.
abbrev IsPushed : List Edit → ℕ × ℕ → Type 0
IsPushed s m = (0 < edited m.0 s) × IsInt m.1

pair_up-IsPushed :
    (passed s : List Edit) (c : ℕ) (remove : Bool) (pending : Map ℕ) (o : Option ℕ)
    → 0 < edited c s
    → All (IsPushed s) (pair_up passed c remove pending o).1
unfolding pair_up
pair_up-IsPushed passed s c remove pending none h = tt
pair_up-IsPushed passed s c remove pending (some place) h = ((h, signed-IsInt remove _), tt)

visit-IsPushed :
    (passed : List Edit) (pending : Map ℕ) (e : Edit)
    → All (IsPushed (e ∷ [])) (visit passed pending e).1
unfolding visit
visit-IsPushed passed pending (edit_ignore c) = tt
visit-IsPushed passed pending (edit_remove c) =
    pair_up-IsPushed passed (edit_remove c ∷ []) c true pending (find c pending)
      (unfold removed added in ground arith)
visit-IsPushed passed pending (edit_add c) =
    pair_up-IsPushed passed (edit_add c ∷ []) c false pending (find c pending)
      (unfold removed added in ground arith)

IsPushed-more :
    (s t : List Edit) (ms : List (ℕ × ℕ))
    → ((c : ℕ) → 0 < edited c s → 0 < edited c t)
    → All (IsPushed s) ms
    → All (IsPushed t) ms
IsPushed-more s t [] h k = tt
IsPushed-more s t (m ∷ ms) h k = ((h m.0 k.0.0, k.0.1), IsPushed-more s t ms h k.1)

clock_deltas-IsPushed :
    (passed : List Edit) (pending : Map ℕ) (s : List Edit)
    → All (IsPushed s) (clock_deltas passed pending s)
unfolding clock_deltas
clock_deltas-IsPushed passed pending [] = tt
clock_deltas-IsPushed passed pending (e ∷ s) =
    All-append (IsPushed (e ∷ s)) (visit passed pending e).1
      (clock_deltas (passed ++ (e ∷ [])) (visit passed pending e).0 s)
      (IsPushed-more (e ∷ []) (e ∷ s) (visit passed pending e).1
        (λ c lt. omega (arith, edited-cons c e s)) (visit-IsPushed passed pending e))
      (IsPushed-more s (e ∷ s) (clock_deltas (passed ++ (e ∷ [])) (visit passed pending e).0 s)
        (λ c lt. omega (arith, edited-cons c e s))
        (clock_deltas-IsPushed (passed ++ (e ∷ [])) (visit passed pending e).0 s))

length-pair_up :
    (passed : List Edit) (c : ℕ) (remove : Bool) (pending : Map ℕ) (o : Option ℕ)
    → length (pair_up passed c remove pending o).1 ≤ 1
unfolding pair_up
length-pair_up passed c remove pending none = omega arith
length-pair_up passed c remove pending (some place) = omega arith

length-visit :
    (passed : List Edit) (pending : Map ℕ) (e : Edit) → length (visit passed pending e).1 ≤ 1
unfolding visit pair_up
length-visit passed pending (edit_ignore c) = omega arith
length-visit passed pending (edit_remove c) = length-pair_up passed c true pending (find c pending)
length-visit passed pending (edit_add c) = length-pair_up passed c false pending (find c pending)

length-clock_deltas :
    (passed : List Edit) (pending : Map ℕ) (s : List Edit)
    → length (clock_deltas passed pending s) ≤ length s
unfolding clock_deltas
length-clock_deltas passed pending [] = omega arith
length-clock_deltas passed pending (e ∷ s) = omega (
  arith,
  length-append (visit passed pending e).1
      (clock_deltas (passed ++ (e ∷ [])) (visit passed pending e).0 s),
  length-visit passed pending e,
  length-clock_deltas (passed ++ (e ∷ [])) (visit passed pending e).0 s,
)

zip-ids-deltas : (ms : List (ℕ × ℕ)) → zip (ids ms) (deltas ms) ≡ ms
unfolding zip
zip-ids-deltas [] = refl
zip-ids-deltas (m ∷ ms) = ap (◌∷◌ m) (zip-ids-deltas ms)

sequential-upto : (first n : ℕ) → map original (upto first n) ≡ sequential first n
unfolding sequential upto
sequential-upto first zero = refl
sequential-upto first (suc n) = ap (◌∷◌ (original first)) (sequential-upto (suc first) n)

memorize-below : (n : ℕ) (xs : List ℕ) → All (λ x. x < n) xs → memorize n xs ≡ ok tt
unfolding memorize
memorize-below n [] h = refl
memorize-below n (x ∷ xs) h =
    let t : leb n x ≡ false = ground arith in rw t (memorize-below n xs h.1)

pushed-below :
    (n : ℕ) (s : List Edit) (ms : List (ℕ × ℕ))
    → IsScript s
    → columns s ≡ upto 0 n
    → All (IsPushed s) ms
    → All (λ x. x < n) (ids ms)
pushed-below n s [] is over h = tt
pushed-below n s (m ∷ ms) is over h =
    let k = is m.0 in
    let e = ap (count m.0) over in
    let pushed = h.0.0 in
    (
      omega
          (arith, count-columns m.0 s, count-upto_lt m.0 0 n (omega (arith, count-columns m.0 s))),
      pushed-below n s ms is over h.1,
    )

below-IsInt : (n : ℕ) (xs : List ℕ) → n < 2 ^ 29 → All (λ x. x < n) xs → All IsInt xs
below-IsInt n [] lt h = tt
below-IsInt n (x ∷ xs) lt h = (omega (arith, h.0), below-IsInt n xs lt h.1)

deltas-IsInt : (s : List Edit) (ms : List (ℕ × ℕ)) → All (IsPushed s) ms → All IsInt (deltas ms)
deltas-IsInt s [] h = tt
deltas-IsInt s (m ∷ ms) h = (h.0.1, deltas-IsInt s ms h.1)

-- The indices of a chunk.
pub record Replayed (n : ℕ) (observed : List ℕ) : Type 0 where
  pub bytes : Bytes
  pub compressed : compress unset true (upto 0 n) observed ≡ ok bytes
  pub fits : length bytes < 2 ^ 35
  pub permutated_indices : List ℕ
  pub decoded : decode_matched_events n bytes ≡ ok permutated_indices
  pub size : length permutated_indices ≡ n
  pub places : (i l : ℕ) → get_elem? observed i ≡ some l → get_elem? permutated_indices l ≡ some i

prepare-moves :
    (n : ℕ) (id_vec delay_vec : List ℕ) (ms : List (ℕ × ℕ)) (cells : List Cell)
    → map to_int id_vec ≡ ids ms
    → map to_int delay_vec ≡ deltas ms
    → All (λ x. x < n) (ids ms)
    → permutate_all ms (sequential 0 n) ≡ ok cells
    → cdc_prepare_decode_indices n id_vec delay_vec ≡ ok (indices 0 cells (replicate n 0))
unfolding cdc_prepare_decode_indices
prepare-moves n id_vec delay_vec ms cells e f below h =
    ap₂
      (λ xs ys. memorize n xs >>= λ _.
        permutate_all (zip xs ys) (sequential 0 n) >>= λ cs. ok (indices 0 cs (replicate n 0)))
      e f
    ∙ ap
        (λ r. r >>= λ _. permutate_all (zip (ids ms) (deltas ms)) (sequential 0 n) >>= λ cs.
          ok (indices 0 cs (replicate n 0)))
        (memorize-below n (ids ms) below)
    ∙ ap (λ ps. permutate_all ps (sequential 0 n) >>= λ cs. ok (indices 0 cs (replicate n 0)))
        (zip-ids-deltas ms)
    ∙ ap (λ r. r >>= λ cs. ok (indices 0 cs (replicate n 0))) h

-- For a chunk of fewer than `2 ^ 29` received messages, observed in any order, each with its place
-- in the clock order, when the bit that is read behind the matched bits lies in their storage and
-- is unset: `compress` leaves bytes, and what `decode` makes of them has for each message, at its
-- place in the clock order, its place in the observed order.
pub compress-Replayed :
    (n : ℕ) (observed : List ℕ) → n < 2 ^ 29 → IsOrder n observed → Replayed n observed
unfolding decode_matched_events convert_to_diff_binary
compress-Replayed n observed small order =
    let w = compress-Scripted n observed order in
    let s = reverse w.diff in
    let ms = clock_deltas [] [] s in
    let pushed = clock_deltas-IsPushed [] [] s in
    let below = pushed-below n s ms w.is_script w.goes_over pushed in
    let bytes = convert_to_diff_binary true w.diff in
    let words =
      decode_vectors_words (ids ms) (deltas ms) (below-IsInt n (ids ms) small below)
        (deltas-IsInt s ms pushed)
        (length-map (λ (m : ℕ × ℕ). m.1) ms ∙ sym (length-map (λ (m : ℕ × ℕ). m.0) ms)) in
    let (cells, moved, values) = permuted s w.is_script (let b = w.bound in omega arith) in
    let start : map original (columns s) ≡ sequential 0 n =
      ap (map original) w.goes_over ∙ sequential-upto 0 n in
    let vec = decode_vectors bytes in
    record {
      bytes = bytes;
      compressed = w.returns true;
      fits =
          let b = w.bound in
          omega (
            arith,
            length-append {0} (vector_bytes true (ids ms)) (vector_bytes true (deltas ms)),
            length-vector_bytes (ids ms),
            length-vector_bytes (deltas ms),
            length-map (λ (m : ℕ × ℕ). m.0) ms,
            length-map (λ (m : ℕ × ℕ). m.1) ms,
            length-clock_deltas [] [] s,
          );
      permutated_indices = indices 0 cells (replicate n 0);
      decoded =
          prepare-moves n vec.0 vec.1 ms cells words.0 words.1 below
            (ap (permutate_all ms) (sym start) ∙ moved);
      size = length-indices 0 cells (replicate n 0) ∙ length-replicate n 0;
      places = λ i l h.
          let seen = values ∙ w.gives in
          indices-at 0 cells (replicate n 0) i l (ap (λ xs. get_elem? xs i) seen ∙ h)
            (let e = ap (count l) seen in
              let o = order.once l in omega (arith, count-upto_le l 0 n))
            (let o = order.once l in
              omega (
                arith,
                length-replicate {A = ℕ} n 0,
                count-get_elem? observed i l h,
                count-upto_lt l 0 n (omega (arith, count-get_elem? observed i l h)),
              ))
          ∙ ap some {x = 0 + i} {y = i} (omega arith);
    }
