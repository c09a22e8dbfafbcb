-- ===== src/Cdc/Table/Sorted.antt =====
-- src/rempi/rempi_encoder_cdc.cpp: what `format` puts into the order of the clocks.
use re_mpi.Common.{
  ℕ, ◌+◌, ◌*◌, ◌%◌, ◌^◌, Bool-cases, inl, inr, ◌≡◌, true, false, List, [], ◌∷◌, ltb, All, arith,
}
use re_mpi.Common.Bytes.{IsInt}
use re_mpi.Event.{Event, get_msg_id, get_rank}
use re_mpi.Cdc.Table.{int_ltb, compare_events, insert_event, sort_events}

-- An event whose clock and source are ints.
abbrev pub HasInts : Event → Type 0
HasInts e = IsInt (get_msg_id e) × IsInt (get_rank e)

-- Clock and source as one number.
sort_key : Event → ℕ
sort_key e = (get_msg_id e + 2 ^ 31) % 2 ^ 32 * 2 ^ 32 + (get_rank e + 2 ^ 31) % 2 ^ 32

compare_events-sort_key :
    (a b : Event) → HasInts a → HasInts b → compare_events a b ≡ ltb (sort_key a) (sort_key b)
unfolding compare_events sort_key int_ltb
compare_events-sort_key a b h k = ground arith

-- No later event is before an event.
abbrev pub IsBefore : ℕ × Event → List (ℕ × Event) → Type 0
IsBefore x = All (λ y. compare_events y.1 x.1 ≡ false)

abbrev pub IsSorted : List (ℕ × Event) → Type 0
IsSorted [] = Unit
IsSorted (x ∷ xs) = IsBefore x xs × IsSorted xs

abbrev pub AreInts : List (ℕ × Event) → Type 0
AreInts = All (λ x. HasInts x.1)

before_trans :
    (a b c : Event)
    → HasInts a
    → HasInts b
    → HasInts c
    → compare_events b a ≡ false
    → compare_events c b ≡ false
    → compare_events c a ≡ false
before_trans a b c ha hb hc h k = ground (
  arith,
  compare_events-sort_key b a hb ha,
  compare_events-sort_key c b hc hb,
  compare_events-sort_key c a hc ha,
)

before_asym :
    (a b : Event) → HasInts a → HasInts b → compare_events a b ≡ true → compare_events b a ≡ false
before_asym a b ha hb h =
    ground (arith, compare_events-sort_key a b ha hb, compare_events-sort_key b a hb ha)

IsBefore-more :
    (x y : ℕ × Event) (ys : List (ℕ × Event))
    → HasInts x.1
    → HasInts y.1
    → AreInts ys
    → compare_events y.1 x.1 ≡ false
    → IsBefore y ys
    → IsBefore x ys
IsBefore-more x y [] hx hy hs h k = tt
IsBefore-more x y (z ∷ zs) hx hy hs h k =
    (before_trans x.1 y.1 z.1 hx hy hs.0 h k.0, IsBefore-more x y zs hx hy hs.1 h k.1)

pub insert_event-All {ℓ} :
    (P : ℕ × Event → Type ℓ) (x : ℕ × Event) (ys : List (ℕ × Event))
    → P x
    → All P ys
    → All P (insert_event x ys)
unfolding insert_event
insert_event-All P x [] h k = (h, tt)
insert_event-All P x (y ∷ ys) h k = elim (Bool-cases (compare_events y.1 x.1)) [
  | inl later ↦ rw later (k.0, insert_event-All P x ys h k.1)
  | inr here ↦ rw here (h, k)
]

insert_event-IsSorted :
    (x : ℕ × Event) (ys : List (ℕ × Event))
    → HasInts x.1
    → AreInts ys
    → IsSorted ys
    → IsSorted (insert_event x ys)
unfolding insert_event
insert_event-IsSorted x [] h hs k = (tt, tt)
insert_event-IsSorted x (y ∷ ys) h hs k = elim (Bool-cases (compare_events y.1 x.1)) [
  | inl later ↦ rw later (
    insert_event-All (λ z. compare_events z.1 y.1 ≡ false) x ys (before_asym y.1 x.1 hs.0 h later)
        k.0,
    insert_event-IsSorted x ys h hs.1 k.1,
  )
  | inr here ↦ rw here ((here, IsBefore-more x y ys h hs.0 hs.1 here k.0), k)
]

pub sort_events-All {ℓ} :
    (P : ℕ × Event → Type ℓ) (xs : List (ℕ × Event)) → All P xs → All P (sort_events xs)
unfolding sort_events
sort_events-All P [] h = tt
sort_events-All P (x ∷ xs) h = insert_event-All P x (sort_events xs) h.0 (sort_events-All P xs h.1)

pub sort_events-IsSorted : (xs : List (ℕ × Event)) → AreInts xs → IsSorted (sort_events xs)
unfolding sort_events
sort_events-IsSorted [] h = tt
sort_events-IsSorted (x ∷ xs) h =
    insert_event-IsSorted x (sort_events xs) h.0 (sort_events-All (λ y. HasInts y.1) xs h.1)
      (sort_events-IsSorted xs h.1)
