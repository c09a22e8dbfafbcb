-- ===== src/Cdc/Table/Grown.antt =====
-- src/rempi/rempi_encoder_cdc.cpp: what matched events add to the table of their matching set.
use mathlib.Core.Path.{ap₂}
use re_mpi.Common.{
  ℕ, suc, ◌+◌, ◌%◌, ◌^◌, ◌<◌, ◌≡◌, refl, sym, ◌∙◌, ap, Bool-cases, inl, inr, List, [], ◌∷◌, ◌++◌,
  append_assoc, append-nil, map, ◌==◌, if◌then◌else◌, length, length-append, arith,
}
use re_mpi.Event.{Event, get_flag, get_index, get_with_next}
use re_mpi.Cdc.Matched.{sign_extend}
use re_mpi.Cdc.Table.{Table, back_is, add_matched, add_unmatched, add_to_table}
use re_mpi.Cdc.Table.Kept.{add_events, matched, with_next}

-- The members that matched events add to.
pub record Grown (ms : List Event) (t t' : Table) : Type 0 where
  pub events : t'.events_vec ≡ t.events_vec ++ ms
  pub index : t'.matched_index_vec ≡ t.matched_index_vec ++ map (λ e. sign_extend (get_index e)) ms
  pub previous : t'.with_previous_vec ≡ t.with_previous_vec ++ with_next (length t.events_vec) ms
  pub count : t'.count ≡ (t.count + length ms) % 2 ^ 32
  pub id : t'.matching_set_id ≡ t.matching_set_id
  pub ranks : t'.epoch_rank_vec ≡ t.epoch_rank_vec

with_next-cons :
    (e : Event) (es : List Event) (n : ℕ) (ps : List ℕ)
    → (if get_with_next e == 0 then ps else ps ++ (n ∷ [])) ++ with_next (suc n) es
      ≡ ps ++ with_next n (e ∷ es)
unfolding with_next
with_next-cons e es n ps = elim (Bool-cases (get_with_next e == 0)) [
  | inl test ↦ rw test refl
  | inr test ↦ rw test (append_assoc ps (n ∷ []) (with_next (suc n) es))
]

matched-Grown :
    (e : Event) (es : List Event) (t t' : Table)
    → Grown (matched es) (add_matched e t) t'
    → Grown (e ∷ matched es) t t'
unfolding add_matched
matched-Grown e es t t' g = record {
  events = g.events ∙ append_assoc t.events_vec (e ∷ []) (matched es);
  index =
      g.index
      ∙ append_assoc t.matched_index_vec (sign_extend (get_index e) ∷ [])
          (map (λ x. sign_extend (get_index x)) (matched es));
  previous =
      g.previous
      ∙ ap
          (λ n.
            (if get_with_next e == 0
              then t.with_previous_vec
              else t.with_previous_vec ++ (length t.events_vec ∷ []))
            ++ with_next n (matched es))
          {x = length (t.events_vec ++ (e ∷ []))} {y = suc (length t.events_vec)}
          (omega (arith, length-append t.events_vec (e ∷ [])))
      ∙ with_next-cons e (matched es) (length t.events_vec) t.with_previous_vec;
  count = g.count ∙ omega arith;
  id = g.id;
  ranks = g.ranks;
}

-- An unmatched event leaves those members.
record Same (t t' : Table) : Type 0 where
  events : t'.events_vec ≡ t.events_vec
  index : t'.matched_index_vec ≡ t.matched_index_vec
  previous : t'.with_previous_vec ≡ t.with_previous_vec
  count : t'.count ≡ t.count
  id : t'.matching_set_id ≡ t.matching_set_id
  ranks : t'.epoch_rank_vec ≡ t.epoch_rank_vec

add_unmatched-Same : (e : Event) (t : Table) → Same t (add_unmatched e t).0
unfolding add_unmatched
add_unmatched-Same e t =
    elim (Bool-cases (back_is (length t.events_vec) t.unmatched_events_id_vec)) [
      | inl back ↦ rw back (record {
        events = refl;
        index = refl;
        previous = refl;
        count = refl;
        id = refl;
        ranks = refl;
      })
      | inr new ↦ rw new (record {
        events = refl;
        index = refl;
        previous = refl;
        count = refl;
        id = refl;
        ranks = refl;
      })
    ]

unmatched-Grown :
    (e : Event) (es : List Event) (t t' : Table)
    → Grown (matched es) (add_unmatched e t).0 t'
    → Grown (matched es) t t'
unmatched-Grown e es t t' g =
    let s = add_unmatched-Same e t in
    record {
      events = g.events ∙ ap (λ q. q ++ matched es) s.events;
      index = g.index ∙ ap (λ q. q ++ map (λ x. sign_extend (get_index x)) (matched es)) s.index;
      previous =
          g.previous ∙ ap₂ (λ q n. q ++ with_next n (matched es)) s.previous (ap length s.events);
      count = g.count ∙ ap (λ c. (c + length (matched es)) % 2 ^ 32) s.count;
      id = g.id ∙ s.id;
      ranks = g.ranks ∙ s.ranks;
    }

pub add_events-Grown :
    (es : List Event) (t : Table) → t.count < 2 ^ 32 → Grown (matched es) t (add_events es t)
unfolding add_events add_to_table matched with_next
add_events-Grown [] t h = record {
  events = sym (append-nil t.events_vec);
  index = sym (append-nil t.matched_index_vec);
  previous = sym (append-nil t.with_previous_vec);
  count = omega arith;
  id = refl;
  ranks = refl;
}
add_events-Grown (e ∷ es) t h = elim (Bool-cases (get_flag e == 1)) [
  | inl test ↦ rw test (
      matched-Grown e es t (add_events es (add_matched e t))
        (add_events-Grown es (add_matched e t) (unfold add_matched in omega arith)))
  | inr test ↦ rw test (
      unmatched-Grown e es t (add_events es (add_unmatched e t).0) (
        add_events-Grown es (add_unmatched e t).0
          (let s = (add_unmatched-Same e t).count in omega arith)))
]
