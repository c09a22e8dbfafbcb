-- ===== src/Common/Ranges.antt =====
-- How often a number is in a list, and the lists that have each number below a bound once.
use re_mpi.Common.{
  ℕ, zero, suc, ◌+◌, ◌≤◌, ◌<◌, ◌≡◌, refl, ◌∙◌, ap, some, List, [], ◌∷◌, ◌++◌, map, ◌==◌,
  if◌then◌else◌, length, get_elem?, arith,
}
use mathlib.Core.List.{reverse, reverse-cons, Memᴰ}

unfoldable pub count : ℕ → List ℕ → ℕ
count x [] = 0
count x (y ∷ ys) = if y == x then suc (count x ys) else count x ys

pub count-append : (x : ℕ) (xs ys : List ℕ) → count x (xs ++ ys) ≡ count x xs + count x ys
unfolding count
count-append x [] ys = omega arith
count-append x (y ∷ xs) ys = ground (arith, count-append x xs ys)

pub count-reverse : (x : ℕ) (xs : List ℕ) → count x (reverse xs) ≡ count x xs
unfolding count
count-reverse x [] = refl
count-reverse x (y ∷ xs) =
    ap (count x) (reverse-cons y xs)
    ∙ count-append x (reverse xs) (y ∷ [])
    ∙ (ground (arith, count-reverse x xs))

-- `first`, `first + 1` and so on, `n` numbers.
unfoldable pub upto : (first n : ℕ) → List ℕ
upto first zero = []
upto first (suc n) = first ∷ upto (suc first) n

pub length-upto : (first n : ℕ) → length (upto first n) ≡ n
unfolding upto
length-upto first zero = refl
length-upto first (suc n) = ap suc (length-upto (suc first) n)

pub get_elem?-upto : (first n i : ℕ) → i < n → get_elem? (upto first n) i ≡ some (first + i)
unfolding upto
get_elem?-upto first zero i h = absurd (omega arith)
get_elem?-upto first (suc n) zero h = ap some {x = first} {y = first + 0} (omega arith)
get_elem?-upto first (suc n) (suc i) h =
    get_elem?-upto (suc first) n i (omega arith)
    ∙ ap some {x = suc first + i} {y = first + suc i} (omega arith)

pub get_elem?-upto-some :
    (first n i a : ℕ) → get_elem? (upto first n) i ≡ some a → (i < n) × (a ≡ first + i)
unfolding upto
get_elem?-upto-some first zero i a h = absurd (cc)
get_elem?-upto-some first (suc n) zero a h = ground arith
get_elem?-upto-some first (suc n) (suc i) a h =
    let r = get_elem?-upto-some (suc first) n i a h in (omega (arith, r.0), omega (arith, r.1))

pub count-upto_low : (x first n : ℕ) → x < first → count x (upto first n) ≡ 0
unfolding count upto
count-upto_low x first zero h = refl
count-upto_low x first (suc n) h = ground (arith, count-upto_low x (suc first) n)

pub count-upto_le : (x first n : ℕ) → count x (upto first n) ≤ 1
unfolding count upto
count-upto_le x first zero = omega arith
count-upto_le x first (suc n) =
    ground (arith, count-upto_low x (suc first) n, count-upto_le x (suc first) n)

pub upto_snoc : (first n : ℕ) → upto first (suc n) ≡ upto first n ++ ((first + n) ∷ [])
unfolding upto
upto_snoc first zero = ap (λ k. k ∷ []) {x = first} {y = first + 0} (omega arith)
upto_snoc first (suc n) = ap (◌∷◌ first) (
    upto_snoc (suc first) n
    ∙ ap (λ k. upto (suc first) n ++ (k ∷ [])) {x = suc first + n} {y = first + suc n}
        (omega arith))

pub count-Memᴰ : (x : ℕ) (xs : List ℕ) → Memᴰ x xs → 0 < count x xs
unfolding count
count-Memᴰ x [] m = elim m [ ]
count-Memᴰ x (y ∷ ys) (Memᴰ.head e) = ground arith
count-Memᴰ x (y ∷ ys) (Memᴰ.tail m) = ground (arith, count-Memᴰ x ys m)

pub count-upto_lt : (x first n : ℕ) → 0 < count x (upto first n) → x < first + n
unfolding count upto
count-upto_lt x first zero h = absurd (omega arith)
count-upto_lt x first (suc n) h = ground (arith, count-upto_lt x (suc first) n)

pub map-upto-suc {ℓ} :
    {A : Type ℓ} (f : ℕ → A) (first n : ℕ)
    → map f (upto (suc first) n) ≡ map (λ k. f (suc k)) (upto first n)
unfolding upto
map-upto-suc f first zero = refl
map-upto-suc f first (suc n) = ap (◌∷◌ (f (suc first))) (map-upto-suc f (suc first) n)

-- Each place of a list in turn.
pub map-get_elem? {ℓ} :
    {A : Type ℓ} (xs : List A) → map (get_elem? xs) (upto 0 (length xs)) ≡ map some xs
unfolding upto
map-get_elem? [] = refl
map-get_elem? (x ∷ xs) =
    ap (◌∷◌ (some x)) (map-upto-suc (get_elem? (x ∷ xs)) 0 (length xs) ∙ map-get_elem? xs)
