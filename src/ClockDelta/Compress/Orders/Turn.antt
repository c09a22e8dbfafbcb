-- ===== src/ClockDelta/Compress/Orders/Turn.antt =====
-- src/rempi/rempi_clock_delta_compression.cpp: one turn of the loop of `compress`.
use mathlib.Core.List.{Memᴰ}
use mathlib.Core.Path.{subst}
use mathlib.Core.Option.{none-ne-some}
use re_mpi.Common.{
  ℕ, ◌+◌, ◌-◌, ◌<◌, ◌≤◌, ◌≡◌, ◌⊎◌, refl, sym, ◌∙◌, ap, true, false, Bool-cases, Option, none, some,
  List, [], ◌∷◌, ltb, get_elem?, set, drop, inl, inr, dec_lt, ok, ◌>>=◌, arith,
}
use re_mpi.ClockDelta.Compress.{
  unset, Search, next_start_search_it, leading, match_at, search_from, compress_one,
}
use re_mpi.ClockDelta.Compress.Orders.{IsIncreasing, find_matched-from, get_elem?-set, passed-true}

-- The column found last, which is the position of the iterator.
abbrev LastOk : List ℕ → List ℕ → ℕ → Option ℕ → Type 0
LastOk clocked seen search_it none = search_it ≡ 0
LastOk clocked seen search_it (some c) =
    (search_it ≡ c) × Memᴰ c seen × ((a : ℕ) × (get_elem? clocked c ≡ some a))

-- The variables of the loop, after messages in the columns `seen`.
pub record IsSearch (clocked seen : List ℕ) (s : Search) : Type 0 where
  pub starts : s.start_it ≡ s.start_column
  pub passed : (c : ℕ) → c < s.start_column → Memᴰ c seen
  pub marked : (c : ℕ) → get_elem? s.matched_bits c ≡ some true → Memᴰ c seen
  pub last : LastOk clocked seen s.search_it s.search_column

search_from-column :
    (clocked : List ℕ) (row left c m : ℕ) (s : Search)
    → IsIncreasing clocked
    → get_elem? clocked c ≡ some left
    → m ≤ c
    → search_from unset clocked row left (m, m) s ≡ ok (match_at row left c c s)
unfolding search_from
search_from-column clocked row left c m s inc h le =
    ap (λ q. q >>= λ count. ok (match_at row left (m + count) (m + count) s))
      (find_matched-from clocked left c m inc h le)
    ∙ ap (λ k. ok (match_at row left k k s)) {x = m + (c - m)} {y = c} (omega arith)

pub start-le :
    (clocked seen : List ℕ) (s : Search) (c : ℕ)
    → IsSearch clocked seen s
    → ¬ Memᴰ c seen
    → s.start_column ≤ c
start-le clocked seen s c k new = elim (dec_lt c s.start_column) [
  | yes lt ↦ absurd (new (k.passed c lt))
  | no ge ↦ omega arith
]

-- Where the search begins: at one position, as iterator and as column, not behind the event's column.
record Begins (c : ℕ) (from : ℕ × ℕ) : Type 0 where
  position : ℕ
  both : from ≡ (position, position)
  not_behind : position ≤ c

first_of :
    (clocked : List ℕ) (c left : ℕ)
    → get_elem? clocked c ≡ some left
    → (u : ℕ) × (get_elem? clocked 0 ≡ some u)
first_of [] c left h = absurd (none-ne-some left h)
first_of (u ∷ clocked) c left h = (u, refl)

module _ (clocked seen : List ℕ) (s : Search) (c left : ℕ) (inc : IsIncreasing clocked)
    (k : IsSearch clocked seen s) (here : get_elem? clocked c ≡ some left)
    (new : ¬ Memᴰ c seen) where
  from_start : Begins c (s.start_it, s.start_column)
  from_start = record {
    position = s.start_column;
    both = ap (λ i. (i, s.start_column)) k.starts;
    not_behind = start-le clocked seen s c k new;
  }

  -- An event that is not before the last one found is behind it.
  behind :
      (a last : ℕ)
      → Memᴰ last seen
      → get_elem? clocked last ≡ some a
      → ltb left a ≡ false
      → last + 1 ≤ c
  behind a last m there not_less = elim (dec_lt last c) [
    | yes lt ↦ omega arith
    | no ge ↦ absurd (elim (dec_lt c last) [
      | yes lt ↦ (let less = inc c last left a lt here there in ground arith)
      | no same ↦ new (subst (λ x. Memᴰ x seen) {x = last} {y = c} (omega arith) m)
    ])
  ]

  begins :
      (a : ℕ) (column : Option ℕ)
      → LastOk clocked seen s.search_it column
      → get_elem? clocked s.search_it ≡ some a
      → Begins c (next_start_search_it a left s.search_it s.start_it column s.start_column)
  unfolding next_start_search_it
  begins a none h there = from_start
  begins a (some last) h there = elim (Bool-cases (ltb left a)) [
    | inl e ↦ rw e from_start
    | inr e ↦ rw e (record {
      position = last + 1;
      both = ap (λ i. (i + 1, last + 1)) h.0;
      not_behind = behind a last h.1 (ap (get_elem? clocked) (sym h.0) ∙ there) e;
    })
  ]

  -- The iterator is not at the end.
  up_event :
      (column : Option ℕ)
      → LastOk clocked seen s.search_it column
      → (a : ℕ) × (get_elem? clocked s.search_it ≡ some a)
  up_event none h = let (u, e) = first_of clocked c left here in (u, ap (get_elem? clocked) h ∙ e)
  up_event (some last) h = (h.2.0, ap (get_elem? clocked) h.0 ∙ h.2.1)

  pub compress_one-match_at :
      (row : ℕ)
      → compress_one unset clocked row left (get_elem? clocked s.search_it) s
        ≡ ok (match_at row left c c s)
  unfolding compress_one
  compress_one-match_at row =
      let (a, there) = up_event s.search_column k.last in
      let b = begins a s.search_column k.last there in
      ap (λ o. compress_one unset clocked row left o s) there
      ∙ ap (λ from. search_from unset clocked row left from s) b.both
      ∙ search_from-column clocked row left c b.position s inc here b.not_behind

  marked_at : (x : ℕ) → (x ≡ c) ⊎ (get_elem? s.matched_bits x ≡ some true) → Memᴰ x (c ∷ seen)
  marked_at x (inl e) = Memᴰ.head e
  marked_at x (inr h) = Memᴰ.tail (k.marked x h)

  pub match_at-IsSearch : (row : ℕ) → IsSearch clocked (c ∷ seen) (match_at row left c c s)
  unfolding match_at
  match_at-IsSearch row =
      let bits = set s.matched_bits c true in
      let marked = λ (x : ℕ) (h : get_elem? bits x ≡ some true).
        marked_at x (get_elem?-set s.matched_bits c x h) in
      record {
        starts = ap (λ m. m + leading (drop s.start_column bits)) k.starts;
        passed = λ x lt. elim (dec_lt x s.start_column) [
          | yes old ↦ Memᴰ.tail (k.passed x old)
          | no later ↦ marked x (passed-true bits s.start_column x (omega arith) lt)
        ];
        marked = marked;
        last = (refl, Memᴰ.head refl, (left, here));
      }
