-- ===== src/ClockDelta/Compress/Orders.antt =====
-- src/rempi/rempi_clock_delta_compression.cpp: the loop of `compress` finds each message's column.
pub mod Turn
use mathlib.Core.List.{Memᴰ}
use mathlib.Core.Path.{subst}
use mathlib.Core.Option.{some-injective, none-ne-some}
use re_mpi.Common.{
  ℕ, zero, suc, ◌+◌, ◌-◌, ◌<◌, ◌≤◌, ◌≡◌, ◌≢◌, ◌⊎◌, refl, sym, ◌∙◌, ap, Bool, true, false,
  Bool-cases, Option, Option-cases, none, some, List, [], ◌∷◌, ◌==◌, ==_iff, ltb, if◌then◌else◌,
  length, get_elem?, set, drop, inl, inr, Run, ok, ◌>>=◌, arith,
}
use re_mpi.ClockDelta.Compress.{find_matched_clock_column, leading}

-- The events of the map, in the order of their clocks.
abbrev pub IsIncreasing : List ℕ → Type 0
IsIncreasing clocked =
    (i j a b : ℕ) → i < j → get_elem? clocked i ≡ some a → get_elem? clocked j ≡ some b → a < b

pub get_elem?-drop {ℓ} :
    {A : Type ℓ} (m k : ℕ) (xs : List A) → get_elem? (drop m xs) k ≡ get_elem? xs (m + k)
get_elem?-drop zero k xs = ap (get_elem? xs) {x = k} {y = zero + k} (omega arith)
get_elem?-drop (suc m) k [] = refl
get_elem?-drop (suc m) k (x ∷ xs) =
    get_elem?-drop m k xs ∙ ap (get_elem? (x ∷ xs)) {x = suc (m + k)} {y = suc m + k} (omega arith)

find-at :
    (left k : ℕ) (ups : List ℕ)
    → get_elem? ups k ≡ some left
    → ((j b : ℕ) → j < k → get_elem? ups j ≡ some b → b ≢ left)
    → find_matched_clock_column left ups ≡ ok k
unfolding find_matched_clock_column
find-at left k [] h other = absurd (none-ne-some left h)
find-at left zero (u ∷ ups) h other =
    let same : (left == u) ≡ true = (==_iff left u).1 (sym (some-injective u left h)) in
    rw same refl
find-at left (suc k) (u ∷ ups) h other =
    let first = other 0 u (omega arith) refl in
    let differ : (left == u) ≡ false = ground arith in
    rw (differ, find-at left k ups h (λ j b lt e. other (suc j) b (omega arith) e)) refl

-- The search from a position that is not behind the event's finds it.
pub find_matched-from :
    (clocked : List ℕ) (left c m : ℕ)
    → IsIncreasing clocked
    → get_elem? clocked c ≡ some left
    → m ≤ c
    → find_matched_clock_column left (drop m clocked) ≡ ok (c - m)
find_matched-from clocked left c m inc h le =
    find-at left (c - m) (drop m clocked)
      (get_elem?-drop m (c - m) clocked
        ∙ ap (get_elem? clocked) {x = m + (c - m)} {y = c} (omega arith)
        ∙ h)
      (λ j b lt e same.
        let here = sym (get_elem?-drop m j clocked) ∙ e in
        let less = inc (m + j) c b left (omega arith) here h in omega arith)

pub get_elem?-set :
    (bits : List Bool) (i c : ℕ)
    → get_elem? (set bits i true) c ≡ some true
    → (c ≡ i) ⊎ (get_elem? bits c ≡ some true)
get_elem?-set [] i c h = inr h
get_elem?-set (b ∷ bits) zero zero h = inl refl
get_elem?-set (b ∷ bits) zero (suc c) h = inr h
get_elem?-set (b ∷ bits) (suc i) zero h = inr h
get_elem?-set (b ∷ bits) (suc i) (suc c) h = elim (get_elem?-set bits i c h) [
  | inl e ↦ inl (ap suc e)
  | inr e ↦ inr e
]

-- The loop of `update_start_it` passes matched columns only.
leading-true : (bits : List Bool) (k : ℕ) → k < leading bits → get_elem? bits k ≡ some true
unfolding leading
leading-true [] k h = absurd (omega arith)
leading-true (false ∷ bits) k h = absurd (omega arith)
leading-true (true ∷ bits) zero h = refl
leading-true (true ∷ bits) (suc k) h = leading-true bits k (omega arith)

pub passed-true :
    (bits : List Bool) (start c : ℕ)
    → start ≤ c
    → c < start + leading (drop start bits)
    → get_elem? bits c ≡ some true
passed-true bits start c le lt =
    ap (get_elem? bits) {x = c} {y = start + (c - start)} (omega arith)
    ∙ sym (get_elem?-drop start (c - start) bits)
    ∙ leading-true (drop start bits) (c - start) (omega arith)
