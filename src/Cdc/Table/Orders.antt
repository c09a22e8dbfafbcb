-- ===== src/Cdc/Table/Orders.antt =====
-- src/rempi/rempi_encoder_cdc.cpp: the clock orders that `format` gives the events of a table.
use mathlib.Core.Option.{none-ne-some, some-injective}
use re_mpi.Common.{
  ℕ, zero, suc, ◌+◌, ◌≤◌, ◌<◌, ◌≡◌, ◌≢◌, refl, ◌∙◌, ap, some, List, [], ◌∷◌, map, ◌==◌,
  if◌then◌else◌, length, length-map, get_elem?, set, All, arith, ◌^◌,
}
use re_mpi.Common.Ranges.{count, upto, count-upto_le, count-upto_lt}
use re_mpi.Event.{Event, minus_one}
use re_mpi.Cdc.Matched.Named.{IsOrder}
use re_mpi.Cdc.Table.{insert_event, sort_events, with_places, set_clock_order, number}

abbrev pub clocks : List Event → List ℕ
clocks = map (λ e. e.clock_order)

abbrev pub places : List (ℕ × Event) → List ℕ
places = map (λ s. s.0)

count-insert_event :
    (c : ℕ) (x : ℕ × Event) (ys : List (ℕ × Event))
    → count c (places (insert_event x ys)) ≡ count c (places (x ∷ ys))
unfolding insert_event count
count-insert_event c x [] = refl
count-insert_event c x (y ∷ ys) = ground (arith, count-insert_event c x ys)

count-sort_events :
    (c : ℕ) (xs : List (ℕ × Event)) → count c (places (sort_events xs)) ≡ count c (places xs)
unfolding sort_events count
count-sort_events c [] = refl
count-sort_events c (x ∷ xs) =
    count-insert_event c x (sort_events xs) ∙ (ground (arith, count-sort_events c xs))

places-with_places :
    (first : ℕ) (es : List Event) → places (with_places first es) ≡ upto first (length es)
unfolding with_places upto
places-with_places first [] = refl
places-with_places first (e ∷ es) = ap (◌∷◌ first) (places-with_places (suc first) es)

length-insert_event :
    (x : ℕ × Event) (ys : List (ℕ × Event)) → length (insert_event x ys) ≡ suc (length ys)
unfolding insert_event
length-insert_event x [] = refl
length-insert_event x (y ∷ ys) = ground (arith, length-insert_event x ys)

pub length-sort_events : (xs : List (ℕ × Event)) → length (sort_events xs) ≡ length xs
unfolding sort_events
length-sort_events [] = refl
length-sort_events (x ∷ xs) =
    length-insert_event x (sort_events xs) ∙ ap suc (length-sort_events xs)

pub length-with_places : (first : ℕ) (es : List Event) → length (with_places first es) ≡ length es
unfolding with_places
length-with_places first [] = refl
length-with_places first (e ∷ es) = ap suc (length-with_places (suc first) es)

-- The places of the sorted events are those of the vector, each once.
pub count-places :
    (c : ℕ) (es : List Event)
    → count c (places (sort_events (with_places 0 es))) ≡ count c (upto 0 (length es))
count-places c es = count-sort_events c (with_places 0 es) ∙ ap (count c) (places-with_places 0 es)

clocks-set_clock_order :
    (place order : ℕ) (es : List Event)
    → clocks (set_clock_order place order es) ≡ set (clocks es) place order
unfolding set_clock_order
clocks-set_clock_order place order [] = refl
clocks-set_clock_order zero order (e ∷ es) = refl
clocks-set_clock_order (suc place) order (e ∷ es) =
    ap (◌∷◌ e.clock_order) (clocks-set_clock_order place order es)

count-set :
    (vec : List ℕ) (p x y c : ℕ)
    → get_elem? vec p ≡ some y
    → count c (set vec p x) + (if y == c then 1 else 0) ≡ count c vec + (if x == c then 1 else 0)
unfolding count
count-set [] p x y c h = absurd (none-ne-some y h)
count-set (v ∷ vec) zero x y c h = let e = some-injective v y h in ground arith
count-set (v ∷ vec) (suc p) x y c h = ground (arith, count-set vec p x y c h)

pub get_elem?-set_other {ℓ} :
    {A : Type ℓ} (vec : List A) (p q : ℕ) (x : A)
    → p ≢ q
    → get_elem? (set vec p x) q ≡ get_elem? vec q
get_elem?-set_other [] p q x h = refl
get_elem?-set_other (v ∷ vec) zero zero x h = absurd (h refl)
get_elem?-set_other (v ∷ vec) zero (suc q) x h = refl
get_elem?-set_other (v ∷ vec) (suc p) zero x h = refl
get_elem?-set_other (v ∷ vec) (suc p) (suc q) x h =
    get_elem?-set_other vec p q x (λ e. h (ap suc e))

-- Each turn of the loop replaces one clock order that has not been set.
count-number :
    (c order : ℕ) (sorted : List (ℕ × Event)) (es : List Event)
    → ((p : ℕ) → count p (places sorted) ≤ 1)
    → ((p : ℕ) → 0 < count p (places sorted) → get_elem? (clocks es) p ≡ some minus_one)
    → count c (clocks (number order sorted es)) + (if minus_one == c then length sorted else 0)
      ≡ count c (clocks es) + count c (upto order (length sorted))
unfolding number count upto
count-number c order [] es once fresh = ground arith
count-number c order ((p, e) ∷ sorted) es once fresh =
    let es' = set_clock_order p order es in
    let same = clocks-set_clock_order p order es in
    let step = count-set (clocks es) p order minus_one c (fresh p (ground arith)) in
    let moved = ap (count c) same in
    let rest =
      count-number c (suc order) sorted es' (λ q. let o = once q in ground arith)
        (λ q lt.
          ap (λ v. get_elem? v q) same
          ∙ get_elem?-set_other (clocks es) p q order (λ e. let o = once q in ground arith)
          ∙ fresh q (ground arith)) in
    ground (arith, rest, step, moved)

length-set_clock_order : (p o : ℕ) (es : List Event) → length (set_clock_order p o es) ≡ length es
unfolding set_clock_order
length-set_clock_order p o [] = refl
length-set_clock_order zero o (e ∷ es) = refl
length-set_clock_order (suc p) o (e ∷ es) = ap suc (length-set_clock_order p o es)

length-number :
    (o : ℕ) (sorted : List (ℕ × Event)) (es : List Event) → length (number o sorted es) ≡ length es
unfolding number
length-number o [] es = refl
length-number o ((p, e) ∷ sorted) es =
    length-number (suc o) sorted (set_clock_order p o es) ∙ length-set_clock_order p o es

-- An event whose clock order has not been set.
abbrev pub IsFresh : Event → Type 0
IsFresh e = e.clock_order ≡ minus_one

fresh-at :
    (es : List Event) (p : ℕ)
    → All IsFresh es
    → p < length es
    → get_elem? (clocks es) p ≡ some minus_one
fresh-at [] p h lt = absurd (omega arith)
fresh-at (e ∷ es) zero h lt = ap some h.0
fresh-at (e ∷ es) (suc p) h lt = fresh-at es p h.1 (omega arith)

count-fresh :
    (c : ℕ) (es : List Event)
    → All IsFresh es
    → count c (clocks es) ≡ (if minus_one == c then length es else 0)
unfolding count
count-fresh c [] h = ground arith
count-fresh c (e ∷ es) h = let f = h.0 in ground (arith, count-fresh c es h.1)

pub number-IsOrder :
    (es : List Event)
    → All IsFresh es
    → length es < 2 ^ 29
    → IsOrder (length es) (clocks (number 0 (sort_events (with_places 0 es)) es))
number-IsOrder es fresh small =
    let sorted = sort_events (with_places 0 es) in
    let size : length sorted ≡ length es =
      length-sort_events (with_places 0 es) ∙ length-with_places 0 es in
    record {
      once = λ c.
          let total =
            count-number c 0 sorted es
              (λ p. omega (arith, count-places p es, count-upto_le p 0 (length es)))
              (λ p lt. fresh-at es p fresh (
                omega (
                  arith,
                  count-places p es,
                  count-upto_lt p 0 (length es) (omega (arith, count-places p es)),
                ))) in
          let upto-size = ap (λ k. count c (upto 0 k)) size in
          ground (arith, total, size, upto-size, count-fresh c es fresh);
      size =
          length-map (λ (e : Event). e.clock_order) (number 0 sorted es)
          ∙ length-number 0 sorted es;
    }
