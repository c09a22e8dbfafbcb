-- ===== src/Cdc/Table/Kept.antt =====
-- src/rempi/rempi_encoder_cdc.cpp: what the table of a matching set keeps of the events that `add` is
-- given.
use mathlib.Core.Path.{subst, ap₂}
use re_mpi.Common.{
  ℕ, suc, ◌+◌, ◌%◌, ◌^◌, ◌≤◌, ◌<◌, ◌≡◌, refl, sym, ◌∙◌, ap, true, false, Bool-cases, Option, none,
  some, inl, inr, List, [], ◌∷◌, ◌++◌, append-nil, ◌==◌, if◌then◌else◌, length, length-append, All,
  All-append, arith,
}
use re_mpi.Event.{Event, get_event_counts, get_flag, get_with_next}
use re_mpi.Cdc.Matched.{sign_extend}
use re_mpi.Cdc.Table.{Table, back_is, add_back, add_matched, add_unmatched, add_to_table}

-- The events of one matching set, one after the other.
unfoldable pub add_events : List Event → Table → Table
unfolding add_to_table
add_events [] t = t
add_events (e ∷ es) t = add_events es (add_to_table e t).0

-- The matched events.
unfoldable pub matched : List Event → List Event
unfolding get_flag
matched [] = []
matched (e ∷ es) = if get_flag e == 1 then e ∷ matched es else matched es

-- The places of the matched events that their call goes on behind.
unfoldable pub with_next : (place : ℕ) → List Event → List ℕ
unfolding get_with_next
with_next place [] = []
with_next place (e ∷ es) =
    if get_with_next e == 0 then with_next (suc place) es else place ∷ with_next (suc place) es

abbrev count_more : ℕ → Option ℕ → ℕ
count_more x none = x
count_more x (some c) = (c + x) % 2 ^ 64

-- The counts of the events that were not matched, added up while `i` events had been matched.
unfoldable pub tests_before : (i so_far : ℕ) → List Event → Option ℕ → Option ℕ
unfolding get_flag get_event_counts
tests_before i so_far [] sum = sum
tests_before i so_far (e ∷ es) sum =
    tests_before i (if get_flag e == 1 then suc so_far else so_far) es (
      if get_flag e == 1
      then sum
      else if so_far == i
      then some (count_more (sign_extend (get_event_counts e)) sum)
      else sum)

-- The count under an id, in two vectors side by side.
unfoldable pub count_at : ℕ → List ℕ → List ℕ → Option ℕ
count_at i [] counts = none
count_at i (j ∷ ids) [] = none
count_at i (j ∷ ids) (c ∷ counts) = if j == i then some c else count_at i ids counts

abbrev pub IsRising : List ℕ → Type 0
IsRising [] = Unit
IsRising (j ∷ ids) = All (λ k. j < k) ids × IsRising ids

-- The ids rise to the number of matched events.
pub record IsAligned (n : ℕ) (ids counts : List ℕ) : Type 0 where
  pub rising : IsRising ids
  pub low : All (λ j. j ≤ n) ids
  pub same : length ids ≡ length counts

count_at-add_back :
    (i n x : ℕ) (ids counts : List ℕ)
    → IsRising ids
    → All (λ j. j ≤ n) ids
    → length ids ≡ length counts
    → back_is n ids ≡ true
    → count_at i ids (add_back x counts)
      ≡ (if n == i then some (count_more x (count_at i ids counts)) else count_at i ids counts)
unfolding count_at add_back back_is
count_at-add_back i n x [] counts r l s h = absurd (cc)
count_at-add_back i n x (j ∷ []) [] r l s h = absurd (omega arith)
count_at-add_back i n x (j ∷ []) (c ∷ []) r l s h = ground arith
count_at-add_back i n x (j ∷ []) (c ∷ d ∷ counts) r l s h = absurd (omega arith)
count_at-add_back i n x (j ∷ k ∷ ids) [] r l s h = absurd (omega arith)
count_at-add_back i n x (j ∷ k ∷ ids) (c ∷ []) r l s h = absurd (omega arith)
count_at-add_back i n x (j ∷ k ∷ ids) (c ∷ d ∷ counts) r l s h =
    let first = r.0.0 in
    let second = l.1.0 in
    ground
      (arith, first, second, count_at-add_back i n x (k ∷ ids) (d ∷ counts) r.1 l.1 (omega arith) h)

count_at-absent :
    (n : ℕ) (ids counts : List ℕ)
    → IsRising ids
    → All (λ j. j ≤ n) ids
    → back_is n ids ≡ false
    → count_at n ids counts ≡ none
unfolding count_at back_is
count_at-absent n [] counts r l h = refl
count_at-absent n (j ∷ ids) [] r l h = refl
count_at-absent n (j ∷ []) (c ∷ counts) r l h = ground arith
count_at-absent n (j ∷ k ∷ ids) (c ∷ counts) r l h =
    let first = r.0.0 in
    let second = l.1.0 in
    ground (arith, first, second, count_at-absent n (k ∷ ids) counts r.1 l.1 h)

count_at-snoc :
    (i n x : ℕ) (ids counts : List ℕ)
    → length ids ≡ length counts
    → count_at n ids counts ≡ none
    → count_at i (ids ++ (n ∷ [])) (counts ++ (x ∷ []))
      ≡ (if n == i then some (count_more x (count_at i ids counts)) else count_at i ids counts)
unfolding count_at
count_at-snoc i n x [] [] s h = ground arith
count_at-snoc i n x [] (c ∷ counts) s h = absurd (omega arith)
count_at-snoc i n x (j ∷ ids) [] s h = absurd (omega arith)
count_at-snoc i n x (j ∷ ids) (c ∷ counts) s h =
    ground (arith, count_at-snoc i n x ids counts (omega arith))

length-add_back : (x : ℕ) (counts : List ℕ) → length (add_back x counts) ≡ length counts
unfolding add_back
length-add_back x [] = refl
length-add_back x (c ∷ []) = refl
length-add_back x (c ∷ d ∷ counts) = ap suc (length-add_back x (d ∷ counts))

low-suc : (n : ℕ) (ids : List ℕ) → All (λ j. j ≤ n) ids → All (λ j. j ≤ suc n) ids
low-suc n [] h = tt
low-suc n (j ∷ ids) h = (omega (arith, h.0), low-suc n ids h.1)

-- An id that is not the last one is below the number of matched events.
below-IsRising :
    (n : ℕ) (ids : List ℕ)
    → IsRising ids
    → All (λ j. j ≤ n) ids
    → back_is n ids ≡ false
    → IsRising (ids ++ (n ∷ [])) × All (λ j. j < n) ids
unfolding back_is
below-IsRising n [] r l h = ((tt, tt), tt)
below-IsRising n (j ∷ []) r l h =
    let le = l.0 in let lt : j < n = ground arith in (((lt, tt), (tt, tt)), (lt, tt))
below-IsRising n (j ∷ k ∷ ids) r l h =
    let rest = below-IsRising n (k ∷ ids) r.1 l.1 h in
    let lt : j < n = let a = r.0.0 in let b = rest.1.0 in omega arith in
    ((All-append (λ m. j < m) (k ∷ ids) (n ∷ []) r.0 (lt, tt), rest.0), (lt, rest.1))

-- A table whose ids and counts agree.
abbrev pub IsKept : Table → Type 0
IsKept t = IsAligned (length t.events_vec) t.unmatched_events_id_vec t.unmatched_events_count_vec

abbrev pub tests_of : ℕ → Table → Option ℕ
tests_of i t = count_at i t.unmatched_events_id_vec t.unmatched_events_count_vec

record Step (e : Event) (t t' : Table) : Type 0 where
  kept : IsKept t'
  tests :
      (i : ℕ)
      → tests_of i t' ≡ (
          if get_flag e == 1
          then tests_of i t
          else if length t.events_vec == i
          then some (count_more (sign_extend (get_event_counts e)) (tests_of i t))
          else tests_of i t)
  events : t'.events_vec ≡ t.events_vec ++ matched (e ∷ [])

add_matched-Step : (e : Event) (t : Table) → get_flag e ≡ 1 → IsKept t → Step e t (add_matched e t)
unfolding add_matched matched
add_matched-Step e t flag k =
    let test : (get_flag e == 1) ≡ true = ground arith in
    record {
      kept = record {
        rising = k.rising;
        low =
            subst (λ n. All (λ j. j ≤ n) t.unmatched_events_id_vec) {x = suc (length t.events_vec)}
              {y = length (t.events_vec ++ (e ∷ []))}
              (omega (arith, length-append t.events_vec (e ∷ [])))
              (low-suc (length t.events_vec) t.unmatched_events_id_vec k.low);
        same = k.same;
      };
      tests = λ i. rw test refl;
      events = rw test refl;
    }

add_unmatched-Step :
    (e : Event) (t : Table) → (get_flag e == 1) ≡ false → IsKept t → Step e t (add_unmatched e t).0
unfolding add_unmatched matched
add_unmatched-Step e t test k =
    let n = length t.events_vec in
    let x = sign_extend (get_event_counts e) in
    let ids = t.unmatched_events_id_vec in
    let counts = t.unmatched_events_count_vec in
    elim (Bool-cases (back_is n ids)) [
      | inl back ↦ rw back (record {
        kept = record {
          rising = k.rising;
          low = k.low;
          same = k.same ∙ sym (length-add_back x counts);
        };
        tests = λ i. rw test (count_at-add_back i n x ids counts k.rising k.low k.same back);
        events = rw test (sym (append-nil t.events_vec));
      })
      | inr new ↦
          (let r = below-IsRising n ids k.rising k.low new in
            rw new (record {
              kept = record {
                rising = r.0;
                low = All-append (λ j. j ≤ n) ids (n ∷ []) k.low (omega arith);
                same =
                    let s = k.same in
                    omega
                      (arith, length-append {0} ids (n ∷ []), length-append {0} counts (x ∷ []));
              };
              tests = λ i. rw test (
                  count_at-snoc i n x ids counts k.same
                    (count_at-absent n ids counts k.rising k.low new));
              events = rw test (sym (append-nil t.events_vec));
            }))
    ]

add_to_table-Step : (e : Event) (t : Table) → IsKept t → Step e t (add_to_table e t).0
unfolding add_to_table
add_to_table-Step e t k = elim (Bool-cases (get_flag e == 1)) [
  | inl test ↦ rw test (add_matched-Step e t (ground arith) k)
  | inr test ↦ rw test (add_unmatched-Step e t test k)
]

length-matched :
    (es : List Event) (e : Event)
    → length (es ++ matched (e ∷ [])) ≡ (if get_flag e == 1 then suc (length es) else length es)
unfolding matched
length-matched es e = elim (Bool-cases (get_flag e == 1)) [
  | inl test ↦ rw test (omega (arith, length-append es (e ∷ [])))
  | inr test ↦ rw test (ap length (append-nil es))
]

pub add_events-tests :
    (i : ℕ) (es : List Event) (t : Table)
    → IsKept t
    → IsKept (add_events es t)
      × (tests_of i (add_events es t) ≡ tests_before i (length t.events_vec) es (tests_of i t))
unfolding add_events tests_before
add_events-tests i [] t k = (k, refl)
add_events-tests i (e ∷ es) t k =
    let s = add_to_table-Step e t k in
    let t' = (add_to_table e t).0 in
    let rest = add_events-tests i es t' s.kept in
    (
      rest.0,
      rest.1
          ∙ ap₂ (λ n sum. tests_before i n es sum)
              (ap length s.events ∙ length-matched t.events_vec e) (s.tests i),
    )
