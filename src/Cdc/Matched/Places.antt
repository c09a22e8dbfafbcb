-- ===== src/Cdc/Matched/Places.antt =====
-- src/rempi/rempi_encoder_cdc.cpp: the last loop of `cdc_prepare_decode_indices` writes each value's
-- place.
use mathlib.Core.Option.{none-ne-some, some-injective}
use re_mpi.Common.{
  ℕ, zero, suc, ◌+◌, ◌≤◌, ◌<◌, ◌≡◌, ◌≢◌, refl, ◌∙◌, ap, some, List, [], ◌∷◌, map, length, get_elem?,
  set, arith,
}
use re_mpi.Common.Ranges.{count}
use re_mpi.Cdc.Indices.{Cell, value, indices}

set-other : (vec : List ℕ) (v x l : ℕ) → v ≢ l → get_elem? (set vec v x) l ≡ get_elem? vec l
set-other [] v x l h = refl
set-other (y ∷ vec) zero x zero h = absurd (h refl)
set-other (y ∷ vec) zero x (suc l) h = refl
set-other (y ∷ vec) (suc v) x zero h = refl
set-other (y ∷ vec) (suc v) x (suc l) h = set-other vec v x l (λ e. h (ap suc e))

set_self : (vec : List ℕ) (v x : ℕ) → v < length vec → get_elem? (set vec v x) v ≡ some x
set_self [] v x h = absurd (omega arith)
set_self (y ∷ vec) zero x h = refl
set_self (y ∷ vec) (suc v) x h = set_self vec v x (omega arith)

length-set : (vec : List ℕ) (v x : ℕ) → length (set vec v x) ≡ length vec
length-set [] v x = refl
length-set (y ∷ vec) zero x = refl
length-set (y ∷ vec) (suc v) x = ap suc (length-set vec v x)

pub length-indices :
    (n : ℕ) (cells : List Cell) (vec : List ℕ) → length (indices n cells vec) ≡ length vec
unfolding indices
length-indices n [] vec = refl
length-indices n (c ∷ cells) vec =
    length-indices (suc n) cells (set vec (value c) n) ∙ length-set vec (value c) n

indices-other :
    (n : ℕ) (cells : List Cell) (vec : List ℕ) (l : ℕ)
    → count l (map value cells) ≡ 0
    → get_elem? (indices n cells vec) l ≡ get_elem? vec l
unfolding indices count
indices-other n [] vec l h = refl
indices-other n (c ∷ cells) vec l h =
    indices-other (suc n) cells (set vec (value c) n) l (ground arith)
    ∙ set-other vec (value c) n l (λ e. ground arith)

pub count-get_elem? : (xs : List ℕ) (i l : ℕ) → get_elem? xs i ≡ some l → 0 < count l xs
unfolding count
count-get_elem? [] i l h = absurd (none-ne-some l h)
count-get_elem? (x ∷ xs) zero l h = ground arith
count-get_elem? (x ∷ xs) (suc i) l h = ground (arith, count-get_elem? xs i l h)

pub indices-at :
    (n : ℕ) (cells : List Cell) (vec : List ℕ) (i l : ℕ)
    → get_elem? (map value cells) i ≡ some l
    → count l (map value cells) ≤ 1
    → l < length vec
    → get_elem? (indices n cells vec) l ≡ some (n + i)
unfolding indices count
indices-at n [] vec i l h once lt = absurd (none-ne-some l h)
indices-at n (c ∷ cells) vec zero l h once lt =
    let same = some-injective (value c) l h in
    indices-other (suc n) cells (set vec (value c) n) l (ground arith)
    ∙ ap (λ v. get_elem? (set vec v n) l) same
    ∙ set_self vec l n lt
    ∙ ap some {x = n} {y = n + 0} (omega arith)
indices-at n (c ∷ cells) vec (suc i) l h once lt =
    indices-at (suc n) cells (set vec (value c) n) i l h
      (ground (arith, count-get_elem? (map value cells) i l h))
      (let e = length-set vec (value c) n in omega arith)
    ∙ ap some {x = suc n + i} {y = n + suc i} (omega arith)
