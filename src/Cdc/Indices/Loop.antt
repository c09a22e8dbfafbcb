-- ===== src/Cdc/Indices/Loop.antt =====
-- src/rempi/rempi_encoder_cdc.cpp: the loop of `cdc_prepare_decode_indices` undoes the loop of
-- `convert_to_diff_binary`.
use mathlib.Core.Path.{fun_ext}
use re_mpi.Common.{
  ℕ, ◌^◌, ◌<◌, ◌≡◌, refl, sym, ◌∙◌, ap, List, [], ◌∷◌, ◌++◌, append_assoc, append-nil, map, length,
  ok, ◌>>=◌, >>=_assoc, arith,
}
use re_mpi.Common.Maps.{Map}
use re_mpi.ClockDelta.{Edit}
use re_mpi.ClockDelta.Restore.{columns}
use re_mpi.ClockDelta.Binary.{visit, clock_deltas}
use re_mpi.ClockDelta.Binary.Script.{IsScript, IsPending, empty-IsPending}
use re_mpi.Cdc.Indices.{Cell, original, value, permutate, permutate_all}
use re_mpi.Cdc.Indices.Render.{render, render-nil, results, values-render}
use re_mpi.Cdc.Indices.Visit.{visit-Visited}

permutate_all-append :
    (ms ns : List (ℕ × ℕ)) (cells : List Cell)
    → permutate_all (ms ++ ns) cells ≡ permutate_all ms cells >>= permutate_all ns
unfolding permutate_all
permutate_all-append [] ns cells = refl
permutate_all-append ((id, delay) ∷ ms) ns cells =
    ap (λ k. permutate id delay cells >>= k) (fun_ext (permutate_all-append ms ns))
    ∙ sym (>>=_assoc (permutate id delay cells) (permutate_all ms) (permutate_all ns))

permutate_all-clock_deltas :
    (script passed : List Edit) (pending : Map ℕ) (rest : List Edit)
    → IsScript script
    → script ≡ passed ++ rest
    → length script < 2 ^ 31
    → IsPending passed pending
    → permutate_all (clock_deltas passed pending rest) (render passed script)
      ≡ ok (render script script)
unfolding clock_deltas permutate_all
permutate_all-clock_deltas script passed pending [] is parts bound p =
    ap (λ q. ok (render q script)) (sym (parts ∙ append-nil passed))
permutate_all-clock_deltas script passed pending (e ∷ rest) is parts bound p =
    let v = visit-Visited script passed pending e rest is parts bound p in
    permutate_all-append (visit passed pending e).1
      (clock_deltas (passed ++ (e ∷ [])) (visit passed pending e).0 rest) (render passed script)
    ∙ ap
        (λ r.
          r >>= permutate_all (clock_deltas (passed ++ (e ∷ [])) (visit passed pending e).0 rest))
        v.cells
    ∙ permutate_all-clock_deltas script (passed ++ (e ∷ [])) (visit passed pending e).0 rest is
        (parts ∙ sym (append_assoc passed (e ∷ []) rest)) bound v.next

-- A diff, from its start to its end, that moves each message at most once: the rounds over its ids and
-- deltas turn the messages that it goes over into those that it gives.
pub permuted :
    (script : List Edit)
    → IsScript script
    → length script < 2 ^ 31
    → (cells : List Cell) × (permutate_all
          (clock_deltas [] [] script)
          (map original (columns script))
        ≡ ok cells)
      × (map value cells ≡ results script)
permuted script is bound = (
  render script script,
  ap (permutate_all (clock_deltas [] [] script)) (sym (render-nil script))
      ∙ permutate_all-clock_deltas script [] [] script is refl bound empty-IsPending,
  values-render script script (λ c lt. let s = is c in ground arith),
)
