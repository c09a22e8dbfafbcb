-- ===== src/Cdc/Table/Restored.antt =====
-- src/rempi/rempi_encoder_cdc.cpp, rempi_clock_delta_compression.cpp: the events of a chunk from `format`
-- over `compress` to the indices of the decoder.
use mathlib.Core.Option.{none-ne-some, some-injective}
use re_mpi.ClockDelta.Compress.{unset}
use re_mpi.Common.{
  ℕ, zero, suc, ◌^◌, ◌≤◌, ◌<◌, ◌≡◌, refl, ◌∙◌, ap, true, false, some, List, [], ◌∷◌, length,
  get_elem?, All, ok, arith,
}
use re_mpi.Common.Bytes.{Bytes}
use re_mpi.Common.Maps.{Map, find}
use re_mpi.Common.Ranges.{upto}
use re_mpi.Event.{Event}
use re_mpi.ClockDelta.Binary.{compress}
use re_mpi.Cdc.Matched.{decode_matched_events}
use re_mpi.Cdc.Matched.Replayed.{compress-Replayed}
use re_mpi.Cdc.Table.{
  Table, sort_events, with_places, is_truncated, update_epoch, format_sorted, format_table,
}
use re_mpi.Cdc.Table.Orders.{clocks, IsFresh}
use re_mpi.Cdc.Table.Sorted.{HasInts, sort_events-All, sort_events-IsSorted}
use re_mpi.Cdc.Table.Formatted.{Formatted, formatted, format_sorted-Formatted, with_places-HasInts}
use re_mpi.Cdc.Table.Epoch.{
  rank_key, clock, HasClock, Differ, AllDiffer, Line, update_epoch-nil-Line, sorted-AreRising,
  sort_events-AllDiffer,
}

-- Of any two events of one rank, the clocks differ or are not known.
abbrev pub AllUnlike : List Event → Type 0
AllUnlike [] = Unit
AllUnlike (e ∷ es) = All (Differ e) es × AllUnlike es

-- A table as `add` fills it, of a chunk that does not end within the messages of one call.
pub record IsFilled (t : Table) : Type 0 where
  pub fresh : All IsFresh t.events_vec
  pub clocked : All HasClock t.events_vec
  pub unlike : AllUnlike t.events_vec
  pub whole : is_truncated t.events_vec ≡ false
  pub small : length t.events_vec < 2 ^ 29
  pub new : t.epoch_umap ≡ []

-- What is recorded of a table, and what the decoder makes of it.
pub record Restored (t : Table) : Type 0 where
  pub table : Table
  pub formats : format_table t ≡ ok table
  pub umap : Map ℕ
  pub updates : update_epoch (sort_events (with_places 0 t.events_vec)) [] ≡ ok umap
  pub shape : table ≡ formatted umap (sort_events (with_places 0 t.events_vec)) t
  pub is_formatted : Formatted (length t.events_vec) table
  pub covers :
      All
        (λ x. (c : ℕ) × (find (rank_key x.1) table.epoch_umap ≡ some c) × (clock x.1 ≤ c))
        (sort_events (with_places 0 t.events_vec))
  pub bytes : Bytes
  pub compresses :
      compress unset true (upto 0 (length t.events_vec)) (clocks table.events_vec) ≡ ok bytes
  pub fits : length bytes < 2 ^ 35
  pub indices : List ℕ
  pub decodes : decode_matched_events (length t.events_vec) bytes ≡ ok indices
  pub places :
      (l : ℕ) (a : Event)
      → get_elem? table.matched_events_ordered_map l ≡ some a
      → (p : ℕ) × (get_elem? indices l ≡ some p) × (get_elem? table.events_vec p ≡ some a)

HasClock-HasInts : (es : List Event) → All HasClock es → All HasInts es
HasClock-HasInts [] h = tt
HasClock-HasInts (e ∷ es) h = ((omega (arith, h.0.0), h.0.1), HasClock-HasInts es h.1)

with_places-All :
    (P : Event → Type 0) (first : ℕ) (es : List Event)
    → All P es
    → All (λ x. P x.1) (with_places first es)
unfolding with_places
with_places-All P first [] h = tt
with_places-All P first (e ∷ es) h = (h.0, with_places-All P (suc first) es h.1)

with_places-AllDiffer :
    (first : ℕ) (es : List Event) → AllUnlike es → AllDiffer (with_places first es)
unfolding with_places
with_places-AllDiffer first [] h = tt
with_places-AllDiffer first (e ∷ es) h =
    (with_places-All (Differ e) (suc first) es h.0, with_places-AllDiffer (suc first) es h.1)

epoch-Line : (t : Table) → IsFilled t → Line (sort_events (with_places 0 t.events_vec)) []
epoch-Line t filled =
    let es = t.events_vec in
    let xs = sort_events (with_places 0 es) in
    update_epoch-nil-Line xs (
      sorted-AreRising xs
        (sort_events-All (λ x. HasClock x.1) (with_places 0 es)
          (with_places-All HasClock 0 es filled.clocked))
        (sort_events-AllDiffer (with_places 0 es) (with_places-AllDiffer 0 es filled.unlike))
        (sort_events-IsSorted (with_places 0 es)
          (with_places-HasInts 0 es (HasClock-HasInts es filled.clocked))))

format_table-formatted :
    (t : Table) (umap : Map ℕ)
    → is_truncated t.events_vec ≡ false
    → update_epoch (sort_events (with_places 0 t.events_vec)) t.epoch_umap ≡ ok umap
    → format_table t ≡ ok (formatted umap (sort_events (with_places 0 t.events_vec)) t)
unfolding format_table format_sorted
format_table-formatted t umap whole h = rw (whole, h) refl

get_elem?-clocks :
    (es : List Event) (p : ℕ) (a : Event)
    → get_elem? es p ≡ some a
    → get_elem? (clocks es) p ≡ some a.clock_order
get_elem?-clocks [] p a h = absurd (none-ne-some a h)
get_elem?-clocks (e ∷ es) zero a h = ap (λ (x : Event). some x.clock_order) (some-injective e a h)
get_elem?-clocks (e ∷ es) (suc p) a h = get_elem?-clocks es p a h

-- For a table of fewer than `2 ^ 29` matched events, with clocks that are not negative and that
-- differ for any two messages of one rank where they are known, and whose last event ends its call.
-- `format` returns: it puts the events into the order of their clocks and ranks and numbers them in
-- it, and no message's clock is above the epoch line of its rank. When the bit that is read behind
-- the matched bits lies in their storage and is unset, `compress` leaves bytes, and what `decode`
-- makes of them leads from each event's place in the order of the clocks to its place in the order
-- in which the events were added.
pub format_table-Restored : (t : Table) → IsFilled t → Restored t
format_table-Restored t filled =
    let es = t.events_vec in
    let line = epoch-Line t filled in
    let f =
      format_sorted-Formatted t filled.fresh (HasClock-HasInts es filled.clocked) filled.small
        line.final in
    let t' = formatted line.final (sort_events (with_places 0 es)) t in
    let r = compress-Replayed (length es) (clocks t'.events_vec) filled.small f.order in
    record {
      table = t';
      formats =
          format_table-formatted t line.final filled.whole
            (ap (update_epoch (sort_events (with_places 0 es))) filled.new ∙ line.returns);
      umap = line.final;
      updates = line.returns;
      shape = refl;
      is_formatted = f;
      covers = line.covers;
      bytes = r.bytes;
      compresses = r.compressed;
      fits = r.fits;
      indices = r.permutated_indices;
      decodes = r.decoded;
      places = λ l a h.
          let (p, there, order) = f.same l a h in
          (p, r.places p l (get_elem?-clocks t'.events_vec p a there ∙ ap some order), there);
    }
