-- ===== src/Cdc/Chunk/Recorded.antt =====
-- src/rempi/rempi_encoder_cdc.cpp: a table from `format` over `encode` to `decode`.
use mathlib.Core.Path.{subst, ap₂}
use re_mpi.ClockDelta.Compress.{unset}
use re_mpi.Common.{
  ℕ, zero, suc, ◌+◌, ◌^◌, ◌≤◌, ◌<◌, ◌≡◌, refl, sym, ◌∙◌, ap, Bool, true, false, List, [], ◌∷◌, ◌++◌,
  map, ltb, ◌==◌, length, length-map, length-replicate, set, replicate, All, ok, arith, Bool-cases,
  inl, inr, ok-injective, when-ok,
}
use re_mpi.Common.Maps.{Map, find, put}
use re_mpi.Common.Ranges.{upto}
use re_mpi.Event.{Event, get_msg_id, get_rank}
use re_mpi.Compression.LinearPrediction.{compress_loop, compress_by_linear_prediction}
use re_mpi.Request.Merge.Footer.RoundTrip.{IsWord}
use re_mpi.ClockDelta.Binary.{compress}
use re_mpi.Cdc.Indices.{to_int}
use re_mpi.Cdc.Matched.{sign_extend, decode_matched_events}
use re_mpi.Cdc.Table.{Table, sort_events, with_places, ordered, follows, update_epoch}
use re_mpi.Cdc.Table.Orders.{clocks, length-sort_events, length-with_places}
use re_mpi.Cdc.Table.Sorted.{sort_events-All}
use re_mpi.Cdc.Table.Epoch.{HasClock}
use re_mpi.Cdc.Table.Formatted.{formatted}
use re_mpi.Cdc.Table.Restored.{IsFilled, Restored, format_table-Restored}
use re_mpi.Cdc.Chunk.{clock_orders, decoded, mark_all, with_previous_bools, put_all, unmatched_umap}
use re_mpi.Cdc.Chunk.Fields.{IsVec}
use re_mpi.Cdc.Chunk.RoundTrip.{IsWritable, HasDecoded}

compress_loop-IsWord :
    (t1 t2 : ℕ) (vec : List ℕ)
    → All IsWord (compress_loop (2 ^ 64) t1 t2 vec)
      × (length (compress_loop (2 ^ 64) t1 t2 vec) ≡ length vec)
unfolding compress_loop
compress_loop-IsWord t1 t2 [] = (tt, refl)
compress_loop-IsWord t1 t2 (t0 ∷ vec) =
    let rest = compress_loop-IsWord t0 t1 vec in ((omega arith, rest.0), ap suc rest.1)

compress-IsVec :
    (vec : List ℕ) → length vec < 2 ^ 31 → IsVec (compress_by_linear_prediction (2 ^ 64) vec)
unfolding compress_by_linear_prediction
compress-IsVec vec h =
    let w = compress_loop-IsWord 0 0 vec in
    record { words = w.0; fits = let e = w.1 in omega arith }

clock_orders-ordered :
    (k : ℕ) (sorted : List (ℕ × Event)) → clock_orders (ordered k sorted) ≡ upto k (length sorted)
unfolding ordered upto
clock_orders-ordered k [] = refl
clock_orders-ordered k ((p, e) ∷ sorted) = ap (◌∷◌ k) (clock_orders-ordered (suc k) sorted)

-- The marks of indices within the vector.
record Marked (is : List ℕ) (bits : List Bool) : Type 0 where
  bools : List Bool
  marks : mark_all is bits ≡ ok bools

length-set : (bits : List Bool) (i : ℕ) → length (set bits i true) ≡ length bits
length-set [] i = refl
length-set (b ∷ bits) zero = refl
length-set (b ∷ bits) (suc i) = ap suc (length-set bits i)

mark_all-Marked :
    (n : ℕ) (is : List ℕ) (bits : List Bool)
    → n < 2 ^ 32
    → All (λ i. i < n) is
    → length bits ≡ n
    → Marked is bits
unfolding mark_all
mark_all-Marked n [] bits small h size = record { bools = bits; marks = refl }
mark_all-Marked n (i ∷ is) bits small h size =
    let inside : ltb (to_int i) (length bits) ≡ true = let lt = h.0 in ground arith in
    let rest =
      mark_all-Marked n is (set bits (to_int i) true) small h.1
        (length-set bits (to_int i) ∙ size) in
    record { bools = rest.bools; marks = rw inside rest.marks }

with_previous_bools-Marked :
    (n : ℕ) (is : List ℕ)
    → n < 2 ^ 32
    → All (λ i. i < n) is
    → (bools : List Bool) × (with_previous_bools n is ≡ ok bools)
unfolding with_previous_bools
with_previous_bools-Marked n [] small h = ([], refl)
with_previous_bools-Marked n (i ∷ is) small h =
    let m = mark_all-Marked n (i ∷ is) (replicate n false) small h (length-replicate n false) in
    (m.bools, m.marks)

unmatched_umap-returns :
    (ids counts : List ℕ)
    → length ids ≡ length counts
    → (m : Map ℕ) × (unmatched_umap ids counts ≡ ok m)
unfolding unmatched_umap
unmatched_umap-returns ids [] same = ([], refl)
unmatched_umap-returns ids (c ∷ counts) same =
    let enough : ltb (length (c ∷ counts)) (length ids) ≡ false = ground arith in
    (put_all ids (c ∷ counts) [], rw enough refl)

-- Ranks and clocks that are words, of no more ranks than events.
abbrev AreWords : Map ℕ → Type 0
AreWords = All (λ e. IsWord e.0 × IsWord e.1)

put-AreWords :
    (k v : ℕ) (m : Map ℕ)
    → IsWord k
    → IsWord v
    → AreWords m
    → AreWords (put k v m) × (length (put k v m) ≤ suc (length m))
unfolding put
put-AreWords k v [] hk hv h = (((hk, hv), tt), omega arith)
put-AreWords k v ((j, w) ∷ m) hk hv h = elim (Bool-cases (j == k)) [
  | inl same ↦ rw same (((hk, hv), h.1), omega arith)
  | inr other ↦
      (let rest = put-AreWords k v m hk hv h.1 in rw other ((h.0, rest.0), omega (arith, rest.1)))
]

sign_extend-IsWord : (x : ℕ) → x < 2 ^ 32 → IsWord (sign_extend x)
unfolding sign_extend
sign_extend-IsWord x h = ground arith

abbrev AreInts : List (ℕ × Event) → Type 0
AreInts = All (λ x. (get_msg_id x.1 < 2 ^ 32) × (get_rank x.1 < 2 ^ 32))

update_epoch-AreWords :
    (xs : List (ℕ × Event)) (umap final : Map ℕ)
    → AreInts xs
    → AreWords umap
    → update_epoch xs umap ≡ ok final
    → AreWords final × (length final ≤ length xs + length umap)
unfolding update_epoch
update_epoch-AreWords [] umap final h k e =
    let same = ok-injective e in (subst AreWords same k, omega (arith, ap length same))
update_epoch-AreWords ((p, x) ∷ xs) umap final h k e =
    let key = sign_extend (get_rank x) in
    let value = sign_extend (get_msg_id x) in
    let put_ok =
      put-AreWords key value umap (sign_extend-IsWord (get_rank x) h.0.1)
        (sign_extend-IsWord (get_msg_id x) h.0.0) k in
    let rest =
      update_epoch-AreWords xs (put key value umap) final h.1 put_ok.0
        (when-ok (follows (get_msg_id x) (find key umap)) (update_epoch xs (put key value umap))
          e).1 in
    (rest.0, omega (arith, rest.1, put_ok.1))

keys-words : (m : Map ℕ) → AreWords m → All IsWord (map (λ e. e.0) m)
keys-words [] h = tt
keys-words (e ∷ m) h = (h.0.0, keys-words m h.1)

values-words : (m : Map ℕ) → AreWords m → All IsWord (map (λ e. e.1) m)
values-words [] h = tt
values-words (e ∷ m) h = (h.0.1, values-words m h.1)

-- A table as `add` leaves it, with members that fit into the fields of the record.
pub record IsAdded (t : Table) : Type 0 where
  pub filled : IsFilled t
  pub id_int : t.matching_set_id < 2 ^ 32
  pub counted : t.count ≡ length t.events_vec
  pub previous : All (λ i. i < length t.events_vec) t.with_previous_vec
  pub previous_fits : length t.with_previous_vec < 2 ^ 31
  pub index : IsVec t.matched_index_vec
  pub ids : IsVec t.unmatched_events_id_vec
  pub counts : IsVec t.unmatched_events_count_vec
  pub tests : length t.unmatched_events_id_vec ≡ length t.unmatched_events_count_vec
  pub no_ranks : t.epoch_rank_vec ≡ []
  pub no_clocks : t.epoch_clock_vec ≡ []

keys-IsVec : (m : Map ℕ) → AreWords m → length m < 2 ^ 31 → IsVec (map (λ e. e.0) m)
keys-IsVec m h lt = record {
  words = keys-words m h;
  fits = let e = length-map (λ (e : ℕ × ℕ). e.0) m in omega arith;
}

values-IsVec : (m : Map ℕ) → AreWords m → length m < 2 ^ 31 → IsVec (map (λ e. e.1) m)
values-IsVec m h lt = record {
  words = values-words m h;
  fits = let e = length-map (λ (e : ℕ × ℕ). e.1) m in omega arith;
}

below-words : (n : ℕ) (is : List ℕ) → n < 2 ^ 32 → All (λ i. i < n) is → All IsWord is
below-words n [] small h = tt
below-words n (i ∷ is) small h = (omega (arith, h.0), below-words n is small h.1)

with_places-AreInts :
    (first : ℕ) (es : List Event) → All HasClock es → AreInts (with_places first es)
unfolding with_places
with_places-AreInts first [] h = tt
with_places-AreInts first (e ∷ es) h =
    ((omega (arith, h.0.0), h.0.1), with_places-AreInts (suc first) es h.1)

-- What the decoder makes of a table that has been formatted and encoded.
pub record Recorded (t : Table) : Type 0 where
  pub restored : Restored t
  pub bools : List Bool
  pub marks : with_previous_bools t.count t.with_previous_vec ≡ ok bools
  pub unmatched : Map ℕ
  pub tests : unmatched_umap t.unmatched_events_id_vec t.unmatched_events_count_vec ≡ ok unmatched
  pub has_decoded : HasDecoded restored.table (
      decoded t.matching_set_id t.count
        (map (λ e. e.0) restored.umap)
        (map (λ e. e.1) restored.umap)
        t.with_previous_vec
        bools
        t.matched_index_vec
        unmatched
        restored.indices)

formatted-IsWritable :
    (t : Table) (r : Restored t) (bools : List Bool) (unmatched : Map ℕ)
    → IsAdded t
    → with_previous_bools t.count t.with_previous_vec ≡ ok bools
    → unmatched_umap t.unmatched_events_id_vec t.unmatched_events_count_vec ≡ ok unmatched
    → IsWritable
        (formatted r.umap (sort_events (with_places 0 t.events_vec)) t)
        r.bytes
        r.indices
        bools
        unmatched
formatted-IsWritable t r bools unmatched a marks tests =
    let es = t.events_vec in
    let sorted = sort_events (with_places 0 es) in
    let small = a.filled.small in
    let n_sorted : length sorted ≡ length es =
      length-sort_events (with_places 0 es) ∙ length-with_places 0 es in
    let ints =
      sort_events-All (λ x. (get_msg_id x.1 < 2 ^ 32) × (get_rank x.1 < 2 ^ 32)) (with_places 0 es)
        (with_places-AreInts 0 es a.filled.clocked) in
    let words = update_epoch-AreWords sorted [] r.umap ints tt r.updates in
    let fits : length r.umap < 2 ^ 31 = omega (arith, words.1, n_sorted) in
    let ranks = ap (λ q. q ++ map (λ e. e.0) r.umap) a.no_ranks in
    let clocks_eq = ap (λ q. q ++ map (λ e. e.1) r.umap) a.no_clocks in
    record {
      id_int = a.id_int;
      count_int = let c = a.counted in omega arith;
      ranks = subst IsVec (sym ranks) (keys-IsVec r.umap words.0 fits);
      clocks = subst IsVec (sym clocks_eq) (values-IsVec r.umap words.0 fits);
      same =
          ap length ranks
          ∙ length-map (λ (e : ℕ × ℕ). e.0) r.umap
          ∙ sym (ap length clocks_eq ∙ length-map (λ (e : ℕ × ℕ). e.1) r.umap);
      previous = compress-IsVec t.with_previous_vec a.previous_fits;
      previous_words = below-words (length es) t.with_previous_vec (omega arith) a.previous;
      index = a.index;
      ids = compress-IsVec t.unmatched_events_id_vec a.ids.fits;
      id_words = a.ids.words;
      counts = a.counts;
      size = let f = r.fits in omega arith;
      compresses =
          ap₂ (compress unset true) (clock_orders-ordered 0 sorted ∙ ap (upto 0) n_sorted)
            (ap (λ x. clocks x.events_vec) (sym r.shape))
          ∙ r.compresses;
      decodes = ap (λ n. decode_matched_events n r.bytes) a.counted ∙ r.decodes;
      marks = marks;
      tests = tests;
    }

pub format_table-Recorded : (t : Table) → IsAdded t → Recorded t
unfolding decoded
format_table-Recorded t a =
    let r = format_table-Restored t a.filled in
    let (bools, marks) =
      with_previous_bools-Marked (length t.events_vec) t.with_previous_vec
        (let small = a.filled.small in omega arith) a.previous in
    let marked = ap (λ n. with_previous_bools n t.with_previous_vec) a.counted ∙ marks in
    let (unmatched, tests) =
      unmatched_umap-returns t.unmatched_events_id_vec t.unmatched_events_count_vec a.tests in
    record {
      restored = r;
      bools = bools;
      marks = marked;
      unmatched = unmatched;
      tests = tests;
      has_decoded =
          subst
            (λ x. HasDecoded x (
              decoded t.matching_set_id t.count (map (λ e. e.0) r.umap) (map (λ e. e.1) r.umap)
                t.with_previous_vec bools t.matched_index_vec unmatched r.indices))
            (sym r.shape)
            (record {
              bytes = r.bytes;
              indices = r.indices;
              bools = bools;
              unmatched = unmatched;
              writable = formatted-IsWritable t r bools unmatched a marked tests;
              is =
                  ap₂
                    (λ rs cs.
                      decoded t.matching_set_id t.count rs cs t.with_previous_vec bools
                        t.matched_index_vec unmatched r.indices)
                    (sym (ap (λ q. q ++ map (λ e. e.0) r.umap) a.no_ranks))
                    (sym (ap (λ q. q ++ map (λ e. e.1) r.umap) a.no_clocks));
            });
    }
