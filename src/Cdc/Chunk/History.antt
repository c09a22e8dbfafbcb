-- ===== src/Cdc/Chunk/History.antt =====
-- src/rempi/rempi_encoder_cdc.cpp: what a table keeps of its matching set's events, and what `decode`
-- makes of it.
use mathlib.Core.Path.{subst}
use mathlib.Core.Option.{some-ne-none}
use re_mpi.Common.{
  ℕ, ◌%◌, ◌^◌, ◌<◌, ◌≡◌, refl, ◌∙◌, ap, true, false, Option, none, some, List, [], ◌∷◌, map,
  Bool-cases, inl, inr, ◌==◌, ltb, if◌then◌else◌, length, All, ok, arith,
}
use re_mpi.Common.Maps.{Map, find, put, find-put}
use re_mpi.Event.{Event, get_index}
use re_mpi.Cdc.Matched.{sign_extend}
use re_mpi.Cdc.Table.{Table, new_table}
use re_mpi.Cdc.Table.Kept.{
  IsRising, IsKept, count_at, add_events, add_events-tests, matched, with_next, tests_before,
}
use re_mpi.Cdc.Table.Grown.{add_events-Grown}
use re_mpi.Cdc.Chunk.{put_all, unmatched_umap}

or_else : Option ℕ → Option ℕ → Option ℕ
or_else none o = o
or_else (some c) o = some c

count_at-above : (j : ℕ) (ids counts : List ℕ) → All (λ k. j < k) ids → count_at j ids counts ≡ none
unfolding count_at
count_at-above j [] counts h = refl
count_at-above j (k ∷ ids) [] h = refl
count_at-above j (k ∷ ids) (c ∷ counts) h =
    let lt = h.0 in ground (arith, count_at-above j ids counts h.1)

or_else-put :
    (i j c : ℕ) (o : Option ℕ) (f : Option ℕ)
    → ((j == i) ≡ true → o ≡ none)
    → or_else o (if j == i then some c else f) ≡ or_else (if j == i then some c else o) f
unfolding or_else
or_else-put i j c none f h = ground arith
or_else-put i j c (some d) f h = elim (Bool-cases (j == i)) [
  | inl test ↦ absurd (some-ne-none d (h test))
  | inr test ↦ rw test refl
]

find-put_all :
    (i : ℕ) (ids counts : List ℕ) (m : Map ℕ)
    → IsRising ids
    → length ids ≡ length counts
    → find i (put_all ids counts m) ≡ or_else (count_at i ids counts) (find i m)
unfolding put_all count_at or_else
find-put_all i [] counts m r s = refl
find-put_all i (j ∷ ids) [] m r s = absurd (omega arith)
find-put_all i (j ∷ ids) (c ∷ counts) m r s =
    find-put_all i ids counts (put j c m) r.1 (omega arith)
    ∙ ap (or_else (count_at i ids counts)) (find-put i j c m)
    ∙ or_else-put i j c (count_at i ids counts) (find i m) (λ same.
      subst (λ k. count_at k ids counts ≡ none) {x = j} {y = i} (ground arith)
        (count_at-above j ids counts r.0))

or_else-none : (o : Option ℕ) → or_else o none ≡ o
unfolding or_else
or_else-none none = refl
or_else-none (some c) = refl

find-unmatched_umap :
    (ids counts : List ℕ)
    → IsRising ids
    → length ids ≡ length counts
    → (m : Map ℕ) × (unmatched_umap ids counts ≡ ok m)
      × ((i : ℕ) → find i m ≡ count_at i ids counts)
unfolding unmatched_umap find count_at
find-unmatched_umap [] [] r s = ([], refl, λ i. refl)
find-unmatched_umap (j ∷ ids) [] r s = absurd (omega arith)
find-unmatched_umap ids (c ∷ counts) r s =
    let enough : ltb (length (c ∷ counts)) (length ids) ≡ false = ground arith in
    (
      put_all ids (c ∷ counts) [],
      rw enough refl,
      λ i. find-put_all i ids (c ∷ counts) [] r s ∙ or_else-none (count_at i ids (c ∷ counts)),
    )

-- What the table of a matching set keeps of its events.
pub record History (id : ℕ) (es : List Event) (t : Table) : Type 0 where
  pub events : t.events_vec ≡ matched es
  pub index : t.matched_index_vec ≡ map (λ e. sign_extend (get_index e)) (matched es)
  pub previous : t.with_previous_vec ≡ with_next 0 (matched es)
  pub count : t.count ≡ length (matched es) % 2 ^ 32
  pub same : t.matching_set_id ≡ id
  pub tests :
      (m : Map ℕ) × (unmatched_umap t.unmatched_events_id_vec t.unmatched_events_count_vec ≡ ok m)
      × ((i : ℕ) → find i m ≡ tests_before i 0 es none)

new_table-IsKept : (id : ℕ) → IsKept (new_table id)
unfolding new_table
new_table-IsKept id = record { rising = tt; low = tt; same = refl }

-- Fewer than `2 ^ 31` events of a matching set, whichever, are added to a table that is new. The table
-- has the matched ones in order, their indices of requests, and the places of those that their call goes
-- on behind. The map that the decoder makes of its two other vectors always exists, and it has under
-- each number the sum of the counts of the events that were not matched and were added when so many had
-- been matched, and nothing where there was none.
pub add_events-History :
    (id : ℕ) (es : List Event) → length es < 2 ^ 31 → History id es (add_events es (new_table id))
unfolding new_table count_at
add_events-History id es few =
    let t = add_events es (new_table id) in
    let g = add_events-Grown es (new_table id) (omega arith) in
    let kept = (add_events-tests 0 es (new_table id) (new_table-IsKept id)).0 in
    let (m, returns, there) =
      find-unmatched_umap t.unmatched_events_id_vec t.unmatched_events_count_vec kept.rising
        kept.same in
    record {
      events = g.events;
      index = g.index;
      previous = g.previous;
      count = g.count ∙ omega arith;
      same = g.id;
      tests = (
        m,
        returns,
        λ i. there i ∙ (add_events-tests i es (new_table id) (new_table-IsKept id)).1,
      );
    }
