-- ===== src/Cdc/Matched/Script.antt =====
-- src/rempi/rempi_clock_delta_compression.cpp: the diff of `compress` with clock orders for ids, where
-- the clock orders are the columns.
use mathlib.Core.List.{
  reverse, reverse-cons, reverse-reverse, Memᴰ, head-eq_of_cons-eq, tail-eq_of_cons-eq,
}
use mathlib.Core.Option.{none-ne-some, some-injective}
use mathlib.Core.Path.{ap₂}
use re_mpi.Common.{
  ℕ, zero, suc, ◌+◌, ◌≤◌, ◌≡◌, inl, refl, sym, ◌∙◌, ap, some, List, [], ◌∷◌, ◌++◌, map, map-append,
  length, get_elem?, ok, ok-injective, ◌>>=◌, arith, Bool,
}
use re_mpi.Common.Maps.{Map, find}
use re_mpi.Common.Ranges.{
  count, upto, upto_snoc, length-upto, get_elem?-upto-some, count-upto_le, count-upto_lt,
  map-get_elem?,
}
use re_mpi.ClockDelta.{Edit, edit_ignore, edit_remove, edit_add, add_node, convert_to_diff_reversed}
use re_mpi.ClockDelta.Restore.{columns, apply, down}
use re_mpi.ClockDelta.Compress.{
  unset, compress_to_diff, initial, seq_order_id, order_of, change_to_seq_order_id,
}
use re_mpi.ClockDelta.Compress.Diff.{initial-IsSearch, orders-Compressed}
use re_mpi.ClockDelta.Binary.{compress, convert_to_diff_binary}
use re_mpi.ClockDelta.Binary.Script.{IsScript}
use re_mpi.Cdc.Indices.Render.{
  results, columns-reverse, results-reverse, columns-results-IsScript, length-columns-results,
}
use re_mpi.Cdc.Matched.Named.{IsOrder, upto-IsIncreasing, placed, compress_loop-Named}

get_elem?-Memᴰ : (xs : List ℕ) (i l : ℕ) → get_elem? xs i ≡ some l → Memᴰ l xs
get_elem?-Memᴰ [] i l h = absurd (none-ne-some l h)
get_elem?-Memᴰ (x ∷ xs) zero l h = Memᴰ.head (sym (some-injective x l h))
get_elem?-Memᴰ (x ∷ xs) (suc i) l h = Memᴰ.tail (get_elem?-Memᴰ xs i l h)

seq_order_id-add :
    (observed : List ℕ) (orders : Map ℕ) (row l : ℕ)
    → get_elem? observed row ≡ some l
    → find l orders ≡ some l
    → seq_order_id observed orders (edit_add row) ≡ ok (edit_add l)
unfolding seq_order_id order_of
seq_order_id-add observed orders row l there name = ground (arith, there, name)

-- The diff with clock orders for rows.
record Renamed (n : ℕ) (observed : List ℕ) (orders : Map ℕ) (diff : List Edit) (ls : List ℕ)
    : Type 0 where
  script : List Edit
  returns : change_to_seq_order_id observed orders diff ≡ ok script
  same : columns script ≡ columns diff
  gives : results script ≡ ls

change_to_seq_order_id-Renamed :
    (n : ℕ) (observed : List ℕ) (orders : Map ℕ) (diff : List Edit) (ls : List ℕ)
    → ((l : ℕ) → Memᴰ l observed → find l orders ≡ some l)
    → apply (get_elem? (upto 0 n)) (get_elem? observed) diff ≡ map some ls
    → Renamed n observed orders diff ls
unfolding change_to_seq_order_id seq_order_id order_of apply columns results
change_to_seq_order_id-Renamed n observed orders [] [] names h = record {
  script = [];
  returns = refl;
  same = refl;
  gives = refl;
}
change_to_seq_order_id-Renamed n observed orders [] (l ∷ ls) names h = absurd (cc)
change_to_seq_order_id-Renamed n observed orders (edit_ignore c ∷ diff) [] names h = absurd (cc)
change_to_seq_order_id-Renamed n observed orders (edit_ignore c ∷ diff) (l ∷ ls) names h =
    let e = get_elem?-upto-some 0 n c l (head-eq_of_cons-eq h) in
    let rest =
      change_to_seq_order_id-Renamed n observed orders diff ls names (tail-eq_of_cons-eq h) in
    record {
      script = edit_ignore c ∷ rest.script;
      returns = ap (λ r. r >>= λ fs. ok (edit_ignore c ∷ fs)) rest.returns;
      same = ap (◌∷◌ c) rest.same;
      gives = ap₂ ◌∷◌ {x = c} {y = l} (let same = e.1 in omega arith) rest.gives;
    }
change_to_seq_order_id-Renamed n observed orders (edit_remove c ∷ diff) ls names h =
    let rest = change_to_seq_order_id-Renamed n observed orders diff ls names h in
    record {
      script = edit_remove c ∷ rest.script;
      returns = ap (λ r. r >>= λ fs. ok (edit_remove c ∷ fs)) rest.returns;
      same = ap (◌∷◌ c) rest.same;
      gives = rest.gives;
    }
change_to_seq_order_id-Renamed n observed orders (edit_add row ∷ diff) [] names h = absurd (cc)
change_to_seq_order_id-Renamed n observed orders (edit_add row ∷ diff) (l ∷ ls) names h =
    let there = head-eq_of_cons-eq h in
    let name = names l (get_elem?-Memᴰ observed row l there) in
    let rest =
      change_to_seq_order_id-Renamed n observed orders diff ls names (tail-eq_of_cons-eq h) in
    record {
      script = edit_add l ∷ rest.script;
      returns =
          ap (λ r. r >>= λ f. change_to_seq_order_id observed orders diff >>= λ fs. ok (f ∷ fs))
            (seq_order_id-add observed orders row l there name)
          ∙ ap (λ r. r >>= λ fs. ok (edit_add l ∷ fs)) rest.returns;
      same = rest.same;
      gives = ap (◌∷◌ l) rest.gives;
    }

map-reverse {ℓ} : {A : Type ℓ} (f : ℕ → A) (xs : List ℕ) → map f (reverse xs) ≡ reverse (map f xs)
map-reverse f [] = refl
map-reverse f (x ∷ xs) =
    ap (map f) (reverse-cons x xs)
    ∙ map-append f (reverse xs) (x ∷ [])
    ∙ ap (λ r. r ++ (f x ∷ [])) (map-reverse f xs)
    ∙ sym (reverse-cons (f x) (map f xs))

reverse-down : (n : ℕ) → reverse (down n) ≡ upto 0 n
unfolding down upto
reverse-down zero = refl
reverse-down (suc n) =
    reverse-cons n (down n)
    ∙ ap (λ r. r ++ (n ∷ [])) (reverse-down n)
    ∙ ap (λ k. upto 0 n ++ (k ∷ [])) {x = n} {y = 0 + n} (omega arith)
    ∙ sym (upto_snoc 0 n)

down_observed :
    (observed : List ℕ)
    → map (get_elem? observed) (down (length observed)) ≡ map some (reverse observed)
down_observed observed =
    let n = length observed in
    ap (map (get_elem? observed)) (sym (reverse-reverse (down n)) ∙ ap reverse (reverse-down n))
    ∙ map-reverse (get_elem? observed) (upto 0 n)
    ∙ ap reverse (map-get_elem? observed)
    ∙ sym (map-reverse some observed)

-- The diff that is made binary, from its start to its end.
pub record Scripted (n : ℕ) (observed : List ℕ) : Type 0 where
  pub diff : List Edit
  pub returns :
      (linear_prediction : Bool)
      → compress unset linear_prediction (upto 0 n) observed
        ≡ ok (convert_to_diff_binary linear_prediction diff)
  pub goes_over : columns (reverse diff) ≡ upto 0 n
  pub gives : results (reverse diff) ≡ observed
  pub is_script : IsScript (reverse diff)
  pub bound : length (reverse diff) ≤ n + n

order-IsScript :
    (n : ℕ) (observed : List ℕ) (s : List Edit)
    → IsOrder n observed
    → columns s ≡ upto 0 n
    → results s ≡ observed
    → IsScript s × (length s ≤ n + n)
order-IsScript n observed s order over gives = (
  columns-results-IsScript s (λ c. let e = ap (count c) over in omega (arith, count-upto_le c 0 n))
      (λ c. ap (count c) gives ∙ order.once c ∙ ap (count c) (sym over)),
  let size = order.size in
      omega (arith, length-columns-results s, ap length over, ap length gives, length-upto 0 n),
)

pub compress-Scripted : (n : ℕ) (observed : List ℕ) → IsOrder n observed → Scripted n observed
unfolding compress compress_to_diff
compress-Scripted n observed order =
    let clocked = upto 0 n in
    let columns_n = length-upto 0 n in
    let here =
      placed n [] observed
        (λ c. let e = order.once c in unfold count in omega (arith, count-upto_le c 0 n))
        (λ c lt. let e = order.once c in omega (arith, count-upto_lt c 0 n (omega arith))) in
    let w =
      orders-Compressed clocked observed observed (upto-IsIncreasing n) here
        (order.size ∙ sym columns_n) in
    let o =
      compress_loop-Named clocked 0 [] observed (initial clocked) (upto-IsIncreasing n)
        (initial-IsSearch clocked) here in
    let m = length clocked in
    let made = convert_to_diff_reversed (add_node m m o.final.start_column o.final.leaves) in
    let equal : made ≡ w.diff = ok-injective (
      sym (
        ap (λ q. q >>= λ s. ok (convert_to_diff_reversed (add_node m m s.start_column s.leaves)))
          o.returns)
      ∙ w.returns) in
    let r =
      change_to_seq_order_id-Renamed n observed o.final.map_clock_to_order w.diff (reverse observed)
        (λ l m. o.names l (inl m))
        (w.restores.gives
          ∙ ap (λ k. map (get_elem? observed) (down k)) (columns_n ∙ sym order.size)
          ∙ down_observed observed) in
    let over : columns (reverse r.script) ≡ upto 0 n =
      columns-reverse r.script
      ∙ ap reverse (r.same ∙ w.restores.goes_over ∙ ap down columns_n)
      ∙ reverse-down n in
    let gives : results (reverse r.script) ≡ observed =
      results-reverse r.script ∙ ap reverse r.gives ∙ reverse-reverse observed in
    let parts = order-IsScript n observed (reverse r.script) order over gives in
    record {
      diff = r.script;
      returns = λ linear_prediction.
          ap
            (λ q. q >>= λ s.
              change_to_seq_order_id observed s.map_clock_to_order
                (convert_to_diff_reversed (add_node m m s.start_column s.leaves))
              >>= λ diff. ok (convert_to_diff_binary linear_prediction diff))
            o.returns
          ∙ ap
              (λ d. change_to_seq_order_id observed o.final.map_clock_to_order d >>= λ diff.
                ok (convert_to_diff_binary linear_prediction diff))
              equal
          ∙ ap (λ q. q >>= λ diff. ok (convert_to_diff_binary linear_prediction diff)) r.returns;
      goes_over = over;
      gives = gives;
      is_script = parts.0;
      bound = parts.1;
    }
