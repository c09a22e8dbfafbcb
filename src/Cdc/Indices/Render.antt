-- ===== src/Cdc/Indices/Render.antt =====
-- src/rempi/rempi_encoder_cdc.cpp: the list of `cdc_prepare_decode_indices` behind a part of a diff.
use mathlib.Core.List.{reverse, reverse-cons}
use re_mpi.Common.{
  ℕ, suc, ◌+◌, ◌≤◌, ◌<◌, ◌≡◌, refl, sym, ◌∙◌, ap, Bool, true, not, List, [], ◌∷◌, ◌++◌,
  append_assoc, append-nil, map, ltb, if◌then◌else◌, length, arith,
}
use re_mpi.Common.Maps.{Map, find}
use re_mpi.Common.Ranges.{count}
use re_mpi.ClockDelta.{Edit, edit_ignore, edit_remove, edit_add}
use re_mpi.ClockDelta.Restore.{columns}
use re_mpi.ClockDelta.Binary.{count_delta, is_counted, is_pending}
use re_mpi.ClockDelta.Binary.Script.{kept, removed, added, edited, IsScript}
use re_mpi.Cdc.Indices.{Cell, original, inserted, value, is_at}
use re_mpi.Cdc.Indices.Moved.{Lacks}

-- Both entries of an id have been passed.
abbrev pub is_moved : (passed : List Edit) (id : ℕ) → Bool
is_moved passed id = ltb 1 (edited id passed)

unfoldable pub entry_cells : (passed : List Edit) → Edit → List Cell
unfolding removed added
entry_cells passed (edit_ignore c) = original c ∷ []
entry_cells passed (edit_remove c) = if is_moved passed c then [] else original c ∷ []
entry_cells passed (edit_add c) = if is_moved passed c then inserted c ∷ [] else []

-- A removed message is still at its place until it is moved.
unfoldable pub render : (passed : List Edit) → List Edit → List Cell
unfolding entry_cells
render passed [] = []
render passed (e ∷ es) = entry_cells passed e ++ render passed es

pub render-append :
    (passed s t : List Edit) → render passed (s ++ t) ≡ render passed s ++ render passed t
unfolding render
render-append passed [] t = refl
render-append passed (e ∷ s) t =
    ap (λ r. entry_cells passed e ++ r) (render-append passed s t)
    ∙ sym (append_assoc (entry_cells passed e) (render passed s) (render passed t))

entry_cells-same :
    (passed passed' : List Edit) (e : Edit)
    → ((c : ℕ) → 0 < edited c (e ∷ []) → is_moved passed c ≡ is_moved passed' c)
    → entry_cells passed e ≡ entry_cells passed' e
unfolding entry_cells
entry_cells-same passed passed' (edit_ignore c) h = refl
entry_cells-same passed passed' (edit_remove c) h =
    ap (λ b. if b then [] else original c ∷ []) (h c (unfold removed added in ground arith))
entry_cells-same passed passed' (edit_add c) h =
    ap (λ b. if b then inserted c ∷ [] else []) (h c (unfold removed added in ground arith))

pub edited-cons :
    (id : ℕ) (e : Edit) (es : List Edit) → edited id (e ∷ es) ≡ edited id (e ∷ []) + edited id es
unfolding removed added
edited-cons id (edit_ignore c) es = omega arith
edited-cons id (edit_remove c) es = ground arith
edited-cons id (edit_add c) es = ground arith

-- Only the ids of a part matter for what it shows.
pub render-same :
    (passed passed' s : List Edit)
    → ((c : ℕ) → 0 < edited c s → is_moved passed c ≡ is_moved passed' c)
    → render passed s ≡ render passed' s
unfolding render
render-same passed passed' [] h = refl
render-same passed passed' (e ∷ s) h =
    ap (λ r. r ++ render passed s)
      (entry_cells-same passed passed' e (λ c lt. h c (omega (arith, edited-cons c e s))))
    ∙ ap (λ r. entry_cells passed' e ++ r)
        (render-same passed passed' s (λ c lt. h c (omega (arith, edited-cons c e s))))

-- What the inner loop counts is what is shown.
pub count_delta-render :
    (passed : List Edit) (pending : Map ℕ) (s : List Edit)
    → ((c : ℕ) → 0 < edited c s → is_pending (find c pending) ≡ not (is_moved passed c))
    → count_delta pending s ≡ length (render passed s)
unfolding count_delta is_counted render entry_cells
count_delta-render passed pending [] h = refl
count_delta-render passed pending (edit_ignore c ∷ s) h = ap suc (
    count_delta-render passed pending s
      (λ d lt. h d (omega (arith, edited-cons d (edit_ignore c) s))))
count_delta-render passed pending (edit_remove c ∷ s) h = ground (
  arith,
  h c (unfold removed added in ground arith),
  count_delta-render passed pending s
      (λ d lt. h d (omega (arith, edited-cons d (edit_remove c) s))),
)
count_delta-render passed pending (edit_add c ∷ s) h = ground (
  arith,
  h c (unfold removed added in ground arith),
  count_delta-render passed pending s (λ d lt. h d (omega (arith, edited-cons d (edit_add c) s))),
)

pub render-Lacks :
    (passed : List Edit) (id : ℕ) (s : List Edit)
    → kept id s ≡ 0
    → removed id s ≡ 0
    → Lacks id (render passed s)
unfolding render entry_cells kept removed is_at
render-Lacks passed id [] h k = tt
render-Lacks passed id (edit_ignore c ∷ s) h k =
    (ground arith, render-Lacks passed id s (ground arith) k)
render-Lacks passed id (edit_remove c ∷ s) h k = ground (arith, render-Lacks passed id s h)
render-Lacks passed id (edit_add c ∷ s) h k = ground (arith, render-Lacks passed id s h k)

pub length-render : (passed s : List Edit) → length (render passed s) ≤ length s
unfolding render entry_cells
length-render passed [] = omega arith
length-render passed (edit_ignore c ∷ s) = omega (arith, length-render passed s)
length-render passed (edit_remove c ∷ s) = ground (arith, length-render passed s)
length-render passed (edit_add c ∷ s) = ground (arith, length-render passed s)

-- The ids that a diff gives.
unfoldable pub results : List Edit → List ℕ
results [] = []
results (edit_ignore c ∷ s) = c ∷ results s
results (edit_remove c ∷ s) = results s
results (edit_add c ∷ s) = c ∷ results s

pub render-nil : (s : List Edit) → render [] s ≡ map original (columns s)
unfolding render entry_cells columns removed added
render-nil [] = refl
render-nil (edit_ignore c ∷ s) = ap (◌∷◌ (original c)) (render-nil s)
render-nil (edit_remove c ∷ s) = ap (◌∷◌ (original c)) (render-nil s)
render-nil (edit_add c ∷ s) = render-nil s

-- When all ids have been moved, the results are left.
pub values-render :
    (passed s : List Edit)
    → ((c : ℕ) → 0 < edited c s → is_moved passed c ≡ true)
    → map value (render passed s) ≡ results s
unfolding render entry_cells results value
values-render passed [] h = refl
values-render passed (edit_ignore c ∷ s) h =
    ap (◌∷◌ c)
      (values-render passed s (λ d lt. h d (omega (arith, edited-cons d (edit_ignore c) s))))
values-render passed (edit_remove c ∷ s) h =
    rw (h c (unfold removed added in ground arith))
      (values-render passed s (λ d lt. h d (omega (arith, edited-cons d (edit_remove c) s))))
values-render passed (edit_add c ∷ s) h = rw (h c (unfold removed added in ground arith)) (
    ap (◌∷◌ c) (values-render passed s (λ d lt. h d (omega (arith, edited-cons d (edit_add c) s)))))

columns-append : (s t : List Edit) → columns (s ++ t) ≡ columns s ++ columns t
unfolding columns
columns-append [] t = refl
columns-append (edit_ignore c ∷ s) t = ap (◌∷◌ c) (columns-append s t)
columns-append (edit_remove c ∷ s) t = ap (◌∷◌ c) (columns-append s t)
columns-append (edit_add c ∷ s) t = columns-append s t

results-append : (s t : List Edit) → results (s ++ t) ≡ results s ++ results t
unfolding results
results-append [] t = refl
results-append (edit_ignore c ∷ s) t = ap (◌∷◌ c) (results-append s t)
results-append (edit_remove c ∷ s) t = results-append s t
results-append (edit_add c ∷ s) t = ap (◌∷◌ c) (results-append s t)

-- One entry after others that are taken in turn from the end.
columns-snoc :
    (e : Edit) (s : List Edit) → reverse (columns s) ++ columns (e ∷ []) ≡ reverse (columns (e ∷ s))
unfolding columns
columns-snoc (edit_ignore c) s = sym (reverse-cons c (columns s))
columns-snoc (edit_remove c) s = sym (reverse-cons c (columns s))
columns-snoc (edit_add c) s = append-nil (reverse (columns s))

results-snoc :
    (e : Edit) (s : List Edit) → reverse (results s) ++ results (e ∷ []) ≡ reverse (results (e ∷ s))
unfolding results
results-snoc (edit_ignore c) s = sym (reverse-cons c (results s))
results-snoc (edit_remove c) s = append-nil (reverse (results s))
results-snoc (edit_add c) s = sym (reverse-cons c (results s))

pub columns-reverse : (s : List Edit) → columns (reverse s) ≡ reverse (columns s)
unfolding columns
columns-reverse [] = refl
columns-reverse (e ∷ s) =
    ap columns (reverse-cons e s)
    ∙ columns-append (reverse s) (e ∷ [])
    ∙ ap (λ r. r ++ columns (e ∷ [])) (columns-reverse s)
    ∙ columns-snoc e s

pub results-reverse : (s : List Edit) → results (reverse s) ≡ reverse (results s)
unfolding results
results-reverse [] = refl
results-reverse (e ∷ s) =
    ap results (reverse-cons e s)
    ∙ results-append (reverse s) (e ∷ [])
    ∙ ap (λ r. r ++ results (e ∷ [])) (results-reverse s)
    ∙ results-snoc e s

pub count-columns : (id : ℕ) (s : List Edit) → count id (columns s) ≡ kept id s + removed id s
unfolding count columns kept removed
count-columns id [] = omega arith
count-columns id (edit_ignore c ∷ s) = ground (arith, count-columns id s)
count-columns id (edit_remove c ∷ s) = ground (arith, count-columns id s)
count-columns id (edit_add c ∷ s) = count-columns id s

count-results : (id : ℕ) (s : List Edit) → count id (results s) ≡ kept id s + added id s
unfolding count results kept added
count-results id [] = omega arith
count-results id (edit_ignore c ∷ s) = ground (arith, count-results id s)
count-results id (edit_remove c ∷ s) = count-results id s
count-results id (edit_add c ∷ s) = ground (arith, count-results id s)

pub length-columns-results : (s : List Edit) → length s ≤ length (columns s) + length (results s)
unfolding columns results
length-columns-results [] = omega arith
length-columns-results (edit_ignore c ∷ s) = omega (arith, length-columns-results s)
length-columns-results (edit_remove c ∷ s) = omega (arith, length-columns-results s)
length-columns-results (edit_add c ∷ s) = omega (arith, length-columns-results s)

-- A diff goes over messages that all differ and gives the same ones.
pub columns-results-IsScript :
    (s : List Edit)
    → ((c : ℕ) → count c (columns s) ≤ 1)
    → ((c : ℕ) → count c (results s) ≡ count c (columns s))
    → IsScript s
columns-results-IsScript s h k c =
    let once = h c in
    let same = k c in
    (
      omega (arith, count-columns c s, count-results c s),
      omega (arith, count-columns c s, count-results c s),
    )
