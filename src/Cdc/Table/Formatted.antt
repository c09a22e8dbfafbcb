-- ===== src/Cdc/Table/Formatted.antt =====
-- src/rempi/rempi_encoder_cdc.cpp: a table behind `format`, and what `decode` makes of its events.
use mathlib.Core.Option.{none-ne-some, some-injective}
use mathlib.Core.Path.{subst, ap₂}
use re_mpi.Common.{
  ℕ, zero, suc, ◌+◌, ◌^◌, ◌≤◌, ◌<◌, ◌≡◌, ◌≢◌, refl, sym, ◌∙◌, ap, false, Option, some, List, [],
  ◌∷◌, ◌++◌, map, length, get_elem?, All, arith,
}
use re_mpi.Common.Maps.{Map}
use re_mpi.Common.Ranges.{count, count-upto_le}
use re_mpi.Event.{Event, get_msg_id, get_rank}
use re_mpi.Cdc.Matched.Named.{IsOrder}
use re_mpi.Cdc.Table.{
  Table, compare_events, sort_events, with_places, set_clock_order, number, ordered,
}
use re_mpi.Cdc.Table.Orders.{clocks, places, IsFresh, count-places, number-IsOrder}
use re_mpi.Cdc.Table.Sorted.{HasInts, IsSorted, sort_events-All, sort_events-IsSorted}

pub All-at {ℓ κ} :
    {A : Type ℓ} (P : A → Type κ) (xs : List A) (i : ℕ) (a : A)
    → All P xs
    → get_elem? xs i ≡ some a
    → P a
All-at P [] i a h e = absurd (none-ne-some a e)
All-at P (x ∷ xs) zero a h e = subst P (some-injective x a e) h.0
All-at P (x ∷ xs) (suc i) a h e = All-at P xs i a h.1 e

IsSorted-at :
    (xs : List (ℕ × Event)) (i j : ℕ) (x y : ℕ × Event)
    → IsSorted xs
    → i < j
    → get_elem? xs i ≡ some x
    → get_elem? xs j ≡ some y
    → compare_events y.1 x.1 ≡ false
IsSorted-at [] i j x y s lt h k = absurd (none-ne-some x h)
IsSorted-at (z ∷ xs) i zero x y s lt h k = absurd (omega arith)
IsSorted-at (z ∷ xs) zero (suc j) x y s lt h k =
    subst (λ w. compare_events y.1 w.1 ≡ false) (some-injective z x h)
      (All-at (λ w. compare_events w.1 z.1 ≡ false) xs j y s.0 k)
IsSorted-at (z ∷ xs) (suc i) (suc j) x y s lt h k = IsSorted-at xs i j x y s.1 (omega arith) h k

-- An entry of the map `matched_events_ordered_map`.
record Ordered (order : ℕ) (sorted : List (ℕ × Event)) (i : ℕ) (a : Event) : Type 0 where
  place : ℕ
  event : Event
  here : get_elem? sorted i ≡ some (place, event)
  same : a ≡ record event { clock_order = order + i }

ordered-at :
    (order : ℕ) (sorted : List (ℕ × Event)) (i : ℕ) (a : Event)
    → get_elem? (ordered order sorted) i ≡ some a
    → Ordered order sorted i a
unfolding ordered
ordered-at order [] i a h = absurd (none-ne-some a h)
ordered-at order ((p, e) ∷ sorted) zero a h = record {
  place = p;
  event = e;
  here = refl;
  same =
      sym (some-injective (record e { clock_order = order }) a h)
      ∙ ap (λ (k : ℕ). record e { clock_order = k }) {x = order} {y = order + 0} (omega arith);
}
ordered-at order ((p, e) ∷ sorted) (suc i) a h =
    let r = ordered-at (suc order) sorted i a h in
    record {
      place = r.place;
      event = r.event;
      here = r.here;
      same =
          r.same
          ∙ ap (λ (k : ℕ). record r.event { clock_order = k }) {x = suc order + i}
              {y = order + suc i} (omega arith);
    }

set_clock_order-other :
    (p q order : ℕ) (es : List Event)
    → p ≢ q
    → get_elem? (set_clock_order p order es) q ≡ get_elem? es q
unfolding set_clock_order
set_clock_order-other p q order [] h = refl
set_clock_order-other zero zero order (e ∷ es) h = absurd (h refl)
set_clock_order-other zero (suc q) order (e ∷ es) h = refl
set_clock_order-other (suc p) zero order (e ∷ es) h = refl
set_clock_order-other (suc p) (suc q) order (e ∷ es) h =
    set_clock_order-other p q order es (λ x. h (ap suc x))

set_clock_order_self :
    (p order : ℕ) (es : List Event) (e : Event)
    → get_elem? es p ≡ some e
    → get_elem? (set_clock_order p order es) p ≡ some (record e { clock_order = order })
unfolding set_clock_order
set_clock_order_self p order [] e h = absurd (none-ne-some e h)
set_clock_order_self zero order (f ∷ es) e h =
    ap (λ (x : Event). some (record x { clock_order = order })) (some-injective f e h)
set_clock_order_self (suc p) order (f ∷ es) e h = set_clock_order_self p order es e h

number-other :
    (order : ℕ) (sorted : List (ℕ × Event)) (es : List Event) (q : ℕ)
    → count q (places sorted) ≡ 0
    → get_elem? (number order sorted es) q ≡ get_elem? es q
unfolding number count
number-other order [] es q h = refl
number-other order ((p, e) ∷ sorted) es q h =
    number-other (suc order) sorted (set_clock_order p order es) q (ground arith)
    ∙ set_clock_order-other p q order es (λ x. ground arith)

count-places-at :
    (sorted : List (ℕ × Event)) (i p : ℕ) (e : Event)
    → get_elem? sorted i ≡ some (p, e)
    → 0 < count p (places sorted)
unfolding count
count-places-at [] i p e h = absurd (none-ne-some (p, e) h)
count-places-at (x ∷ sorted) zero p e h =
    let same = ap (λ y. y.0) (some-injective x (p, e) h) in ground arith
count-places-at (x ∷ sorted) (suc i) p e h = ground (arith, count-places-at sorted i p e h)

-- The event at its place in the vector gets the order that it has among the sorted events.
number-at :
    (order : ℕ) (sorted : List (ℕ × Event)) (es : List Event) (i p : ℕ) (e : Event)
    → ((q : ℕ) → count q (places sorted) ≤ 1)
    → get_elem? sorted i ≡ some (p, e)
    → get_elem? es p ≡ some e
    → get_elem? (number order sorted es) p ≡ some (record e { clock_order = order + i })
unfolding number count
number-at order [] es i p e once h k = absurd (none-ne-some (p, e) h)
number-at order ((q, f) ∷ sorted) es zero p e once h k =
    let same = ap (λ y. y.0) (some-injective (q, f) (p, e) h) in
    number-other (suc order) sorted (set_clock_order q order es) p (let o = once p in ground arith)
    ∙ ap (λ x. get_elem? (set_clock_order x order es) p) same
    ∙ set_clock_order_self p order es e k
    ∙ ap (λ (x : ℕ). some (record e { clock_order = x })) {x = order} {y = order + 0} (omega arith)
number-at order ((q, f) ∷ sorted) es (suc i) p e once h k =
    number-at (suc order) sorted (set_clock_order q order es) i p e
      (λ r. let o = once r in ground arith) h
      (set_clock_order-other q p order es
          (λ x. let o = once p in ground (arith, count-places-at sorted i p e h))
        ∙ k)
    ∙ ap (λ (x : ℕ). some (record e { clock_order = x })) {x = suc order + i} {y = order + suc i}
        (omega arith)

pub with_places-at :
    (f : ℕ → Option Event) (first : ℕ) (es : List Event)
    → ((i : ℕ) → f (first + i) ≡ get_elem? es i)
    → All (λ s. f s.0 ≡ some s.1) (with_places first es)
unfolding with_places
with_places-at f first [] h = tt
with_places-at f first (e ∷ es) h = (
  ap f {x = first} {y = first + 0} (omega arith) ∙ h 0,
  with_places-at f (suc first) es
      (λ i. ap f {x = suc first + i} {y = first + suc i} (omega arith) ∙ h (suc i)),
)

pub with_places-HasInts :
    (first : ℕ) (es : List Event) → All HasInts es → All (λ x. HasInts x.1) (with_places first es)
unfolding with_places
with_places-HasInts first [] h = tt
with_places-HasInts first (e ∷ es) h = (h.0, with_places-HasInts (suc first) es h.1)

compare-same :
    (a b e f : Event) (i j : ℕ)
    → a ≡ record e { clock_order = i }
    → b ≡ record f { clock_order = j }
    → compare_events b a ≡ compare_events f e
unfolding compare_events get_msg_id get_rank
compare-same a b e f i j h k = ap₂ compare_events k h

-- The table behind the loop body of `format`.
abbrev pub formatted : Map ℕ → List (ℕ × Event) → Table → Table
formatted umap sorted t = record t {
  events_vec = number 0 sorted t.events_vec;
  matched_events_ordered_map = ordered 0 sorted;
  epoch_umap = umap;
  epoch_rank_vec = t.epoch_rank_vec ++ map (λ e. e.0) umap;
  epoch_clock_vec = t.epoch_clock_vec ++ map (λ e. e.1) umap;
}

-- What `format` leaves in a table of `n` events.
pub record Formatted (n : ℕ) (t : Table) : Type 0 where
  pub order : IsOrder n (clocks t.events_vec)
  pub sorted :
      (i j : ℕ) (a b : Event)
      → i < j
      → get_elem? t.matched_events_ordered_map i ≡ some a
      → get_elem? t.matched_events_ordered_map j ≡ some b
      → compare_events b a ≡ false
  pub same :
      (i : ℕ) (a : Event)
      → get_elem? t.matched_events_ordered_map i ≡ some a
      → (p : ℕ) × (get_elem? t.events_vec p ≡ some a) × (a.clock_order ≡ i)

pub format_sorted-Formatted :
    (t : Table)
    → All IsFresh t.events_vec
    → All HasInts t.events_vec
    → length t.events_vec < 2 ^ 29
    → (umap : Map ℕ)
    → Formatted (length t.events_vec) (formatted umap (sort_events (with_places 0 t.events_vec)) t)
format_sorted-Formatted t fresh ints small umap =
    let es = t.events_vec in
    let sorted = sort_events (with_places 0 es) in
    let once =
      λ (q : ℕ). subst (λ k. k ≤ 1) (sym (count-places q es)) (count-upto_le q 0 (length es)) in
    let at =
      sort_events-All (λ s. get_elem? es s.0 ≡ some s.1) (with_places 0 es)
        (with_places-at (get_elem? es) 0 es
          (λ i. ap (get_elem? es) {x = 0 + i} {y = i} (omega arith))) in
    let sorted_ok = sort_events-IsSorted (with_places 0 es) (with_places-HasInts 0 es ints) in
    record {
      order = number-IsOrder es fresh small;
      sorted = λ i j a b lt h k.
          let x = ordered-at 0 sorted i a h in
          let y = ordered-at 0 sorted j b k in
          compare-same a b x.event y.event (0 + i) (0 + j) x.same y.same
          ∙ IsSorted-at sorted i j (x.place, x.event) (y.place, y.event) sorted_ok lt x.here y.here;
      same = λ i a h.
          let x = ordered-at 0 sorted i a h in
          (
            x.place,
            number-at 0 sorted es i x.place x.event once x.here
                  (All-at (λ s. get_elem? es s.0 ≡ some s.1) sorted i (x.place, x.event) at x.here)
                ∙ ap some (sym x.same),
            ap (λ e. e.clock_order) x.same ∙ omega arith,
          );
    }
