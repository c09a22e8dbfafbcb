-- ===== src/Cdc/Indices/Round.antt =====
-- src/rempi/rempi_encoder_cdc.cpp: a round of the loop of `cdc_prepare_decode_indices` goes from the
-- list before to the list after the second entry of an id.
use mathlib.Core.Path.{subst}
use re_mpi.Common.{
  ℕ, ◌^◌, ◌<◌, ◌≡◌, ◌≢◌, refl, sym, ◌∙◌, ap, Bool, true, false, List, [], ◌∷◌, ◌++◌, append_assoc,
  if◌then◌else◌, length, ℕ_discrete, All-append, ok, arith,
}
use re_mpi.ClockDelta.{Edit, edit_remove, edit_add}
use re_mpi.ClockDelta.Binary.{signed}
use re_mpi.ClockDelta.Binary.Script.{kept, edited}
use re_mpi.Cdc.Indices.{Cell, original, inserted, permutate, is_at}
use re_mpi.Cdc.Indices.Moved.{permutate-forward, permutate-backward}
use re_mpi.Cdc.Indices.Render.{
  is_moved, render, entry_cells, render-append, render-same, render-Lacks, length-render,
}

-- The cells of a diff around the two entries of an id, `first` and `second`.
abbrev around : (rb ra rr first second : List Cell) → List Cell
around rb ra rr first second = rb ++ (first ++ (ra ++ (second ++ rr)))

abbrev removed_cells : ℕ → Bool → List Cell
removed_cells c b = if b then [] else original c ∷ []

abbrev added_cells : ℕ → Bool → List Cell
added_cells c b = if b then inserted c ∷ [] else []

-- Between the two entries of an id and around them: none of the parts moves it.
module _ (before after rest : List Edit) (c : ℕ) (passed passed' : List Edit)
    (was : is_moved passed c ≡ false) (is : is_moved passed' c ≡ true)
    (same : (d : ℕ) → c ≢ d → is_moved passed d ≡ is_moved passed' d)
    (none_before : edited c before ≡ 0) (none_after : edited c after ≡ 0)
    (none_rest : edited c rest ≡ 0) (kept_before : kept c before ≡ 0)
    (kept_after : kept c after ≡ 0) (bound : length after < 2 ^ 31) where
  part-same : (s : List Edit) → edited c s ≡ 0 → render passed s ≡ render passed' s
  part-same s h = render-same passed passed' s (λ d lt. elim (ℕ_discrete c d) [
    | yes e ↦ absurd (let k = subst (λ x. edited x s ≡ 0) e h in omega arith)
    | no e ↦ same d e
  ])

  parts : List Edit → List Cell → List Cell → List Cell
  parts p first second = around (render p before) (render p after) (render p rest) first second

  shape :
      (p : List Edit) (f e : Edit)
      → render p (before ++ (f ∷ (after ++ (e ∷ rest))))
        ≡ parts p (entry_cells p f) (entry_cells p e)
  unfolding render parts
  shape p f e =
      render-append p before (f ∷ (after ++ (e ∷ rest)))
      ∙ ap (λ r. render p before ++ (entry_cells p f ++ r)) (render-append p after (e ∷ rest))

  parts-same : (first second : List Cell) → parts passed first second ≡ parts passed' first second
  unfolding parts
  parts-same first second =
      rw (part-same before none_before, part-same after none_after, part-same rest none_rest) refl

  pub later-forward :
      permutate c
        (signed false (length (render passed after)))
        (render passed (before ++ (edit_remove c ∷ (after ++ (edit_add c ∷ rest)))))
      ≡ ok (render passed' (before ++ (edit_remove c ∷ (after ++ (edit_add c ∷ rest)))))
  unfolding entry_cells parts
  later-forward =
      ap (permutate c (signed false (length (render passed after)))) (
        shape passed (edit_remove c) (edit_add c)
        ∙ ap (λ b. parts passed (removed_cells c b) (added_cells c b)) was)
      ∙ permutate-forward c (render passed before) (render passed after) (render passed rest)
          (render-Lacks passed c before kept_before (omega arith))
          (omega (arith, length-render passed after))
      ∙ ap ok (
          parts-same [] (inserted c ∷ [])
          ∙ ap (λ b. parts passed' (removed_cells c b) (added_cells c b)) (sym is)
          ∙ sym (shape passed' (edit_remove c) (edit_add c)))

  pub later-backward :
      permutate c
        (signed true (length (render passed after)))
        (render passed (before ++ (edit_add c ∷ (after ++ (edit_remove c ∷ rest)))))
      ≡ ok (render passed' (before ++ (edit_add c ∷ (after ++ (edit_remove c ∷ rest)))))
  unfolding entry_cells parts
  later-backward =
      ap (permutate c (signed true (length (render passed after)))) (
        shape passed (edit_add c) (edit_remove c)
        ∙ ap (λ b. parts passed (added_cells c b) (removed_cells c b)) was
        ∙ sym (
            append_assoc (render passed before) (render passed after)
              (original c ∷ render passed rest)))
      ∙ permutate-backward c (render passed before) (render passed after) (render passed rest)
          (All-append (λ k. is_at c k ≡ false) (render passed before) (render passed after)
            (render-Lacks passed c before kept_before (omega arith))
            (render-Lacks passed c after kept_after (omega arith)))
          (omega (arith, length-render passed after))
      ∙ ap ok (
          parts-same (inserted c ∷ []) []
          ∙ ap (λ b. parts passed' (added_cells c b) (removed_cells c b)) (sym is)
          ∙ sym (shape passed' (edit_add c) (edit_remove c)))
