-- ===== src/Cdc/Table/Epoch.antt =====
-- src/rempi/rempi_encoder_cdc.cpp: the epoch line of a table, the last clock of each rank.
use mathlib.Core.Path.{subst}
use re_mpi.Common.{
  ℕ, ◌^◌, ◌≤◌, ◌<◌, ◌≡◌, ◌≢◌, ◌⊎◌, inl, inr, refl, sym, ◌∙◌, ap, Bool-cases, true, false, Option,
  none, some, List, [], ◌∷◌, All, ℕ_discrete, ok, arith,
}
use re_mpi.Common.Bytes.{IsInt}
use re_mpi.Common.Maps.{Map, find, put, find-put}
use re_mpi.Event.{Event, get_msg_id, get_rank}
use re_mpi.Cdc.Matched.{sign_extend}
use re_mpi.Cdc.Table.{int_ltb, compare_events, follows, update_epoch, insert_event, sort_events}
use re_mpi.Cdc.Table.Sorted.{IsBefore, IsSorted, insert_event-All, sort_events-All}

-- The key of an event's rank, and its clock, as numbers of 64 bits.
abbrev pub rank_key : Event → ℕ
rank_key e = sign_extend (get_rank e)

abbrev pub clock : Event → ℕ
clock e = sign_extend (get_msg_id e)

-- A clock that may stand behind the last one of its rank.
abbrev Fits : Event → Option ℕ → Type 0
Fits e none = Unit
Fits e (some last) = (last ≤ clock e) × (follows (get_msg_id e) (some last) ≡ true)

Fits-follows : (e : Event) (o : Option ℕ) → Fits e o → follows (get_msg_id e) o ≡ true
unfolding follows
Fits-follows e none h = refl
Fits-follows e (some last) h = h.1

abbrev AllFit : List (ℕ × Event) → Map ℕ → Type 0
AllFit xs umap = All (λ x. Fits x.1 (find (rank_key x.1) umap)) xs

abbrev FitsBehind : ℕ × Event → ℕ × Event → Type 0
FitsBehind x y = rank_key x.1 ≡ rank_key y.1 → Fits y.1 (some (clock x.1))

-- Two events of one rank, one before the other.
abbrev pub AreRising : List (ℕ × Event) → Type 0
AreRising [] = Unit
AreRising (x ∷ xs) = All (FitsBehind x) xs × AreRising xs

find-put_other :
    (x y : Event) (umap : Map ℕ)
    → rank_key x ≢ rank_key y
    → find (rank_key y) (put (rank_key x) (clock x) umap) ≡ find (rank_key y) umap
find-put_other x y umap h = ground (arith, find-put (rank_key y) (rank_key x) (clock x) umap)

find-put_self :
    (x y : Event) (umap : Map ℕ)
    → rank_key x ≡ rank_key y
    → find (rank_key y) (put (rank_key x) (clock x) umap) ≡ some (clock x)
find-put_self x y umap h = ground (arith, find-put (rank_key y) (rank_key x) (clock x) umap)

put-AllFit :
    (x : ℕ × Event) (xs : List (ℕ × Event)) (umap : Map ℕ)
    → All (FitsBehind x) xs
    → AllFit xs umap
    → AllFit xs (put (rank_key x.1) (clock x.1) umap)
put-AllFit x [] umap h k = tt
put-AllFit x (y ∷ ys) umap h k = (
  elim (ℕ_discrete (rank_key x.1) (rank_key y.1)) [
    | yes same ↦ subst (Fits y.1) (sym (find-put_self x.1 y.1 umap same)) (h.0 same)
    | no other ↦ subst (Fits y.1) (sym (find-put_other x.1 y.1 umap other)) k.0
  ],
  put-AllFit x ys umap h.1 k.1,
)

-- The epoch line that the events leave, from a map on.
pub record Line (xs : List (ℕ × Event)) (umap : Map ℕ) : Type 0 where
  pub final : Map ℕ
  pub returns : update_epoch xs umap ≡ ok final
  -- no rank goes back
  pub above : (r c : ℕ) → find r umap ≡ some c → (d : ℕ) × (find r final ≡ some d) × (c ≤ d)
  -- no event of a rank is behind its line
  pub covers : All (λ x. (c : ℕ) × (find (rank_key x.1) final ≡ some c) × (clock x.1 ≤ c)) xs

Fits-above :
    (e : Event) (r c : ℕ) (umap : Map ℕ)
    → Fits e (find (rank_key e) umap)
    → rank_key e ≡ r
    → find r umap ≡ some c
    → c ≤ clock e
Fits-above e r c umap h same there = (subst (Fits e) (ap (λ k. find k umap) same ∙ there) h).0

update_epoch-Line :
    (xs : List (ℕ × Event)) (umap : Map ℕ) → AllFit xs umap → AreRising xs → Line xs umap
unfolding update_epoch
update_epoch-Line [] umap h k = record {
  final = umap;
  returns = refl;
  above = λ r c e. (c, e, omega arith);
  covers = tt;
}
update_epoch-Line ((p, e) ∷ xs) umap h k =
    let next = put (rank_key e) (clock e) umap in
    let rest = update_epoch-Line xs next (put-AllFit (p, e) xs umap k.0 h.1) k.1 in
    record {
      final = rest.final;
      returns = rw (Fits-follows e (find (rank_key e) umap) h.0) rest.returns;
      above = λ r c there. elim (ℕ_discrete (rank_key e) r) [
        | yes same ↦
            (let u =
                rest.above r (clock e)
                  (ap (λ q. find q next) (sym same) ∙ find-put_self e e umap refl) in
              let low = Fits-above e r c umap h.0 same there in (u.0, u.1, omega (arith, u.2)))
        | no other ↦ rest.above r c (ground (arith, find-put r (rank_key e) (clock e) umap))
      ];
      covers = (rest.above (rank_key e) (clock e) (find-put_self e e umap refl), rest.covers);
    }

AllFit-nil : (xs : List (ℕ × Event)) → AllFit xs []
unfolding find
AllFit-nil [] = tt
AllFit-nil (x ∷ xs) = (tt, AllFit-nil xs)

pub update_epoch-nil-Line : (xs : List (ℕ × Event)) → AreRising xs → Line xs []
update_epoch-nil-Line xs h = update_epoch-Line xs [] (AllFit-nil xs) h

-- An event with a clock that is not negative.
abbrev pub HasClock : Event → Type 0
HasClock e = (get_msg_id e < 2 ^ 31) × IsInt (get_rank e)

-- Of two messages of one rank, the clocks differ, unless they are not known.
abbrev pub Differ : Event → Event → Type 0
Differ a b = get_rank a ≡ get_rank b → (get_msg_id a ≢ get_msg_id b) ⊎ (get_msg_id b ≡ 0)

Differ-sym : (a b : Event) → Differ a b → Differ b a
Differ-sym a b h same = elim (h (sym same)) [
  | inl other ↦ inl (λ e. other (sym e))
  | inr unknown ↦ elim (ℕ_discrete (get_msg_id a) 0) [
    | yes zero_clock ↦ inr zero_clock
    | no other ↦ inl (λ e. other (sym e ∙ unknown))
  ]
]

abbrev pub AllDiffer : List (ℕ × Event) → Type 0
AllDiffer [] = Unit
AllDiffer (x ∷ xs) = All (λ y. Differ x.1 y.1) xs × AllDiffer xs

insert_event-AllDiffer :
    (x : ℕ × Event) (ys : List (ℕ × Event))
    → All (λ y. Differ x.1 y.1) ys
    → AllDiffer ys
    → AllDiffer (insert_event x ys)
unfolding insert_event
insert_event-AllDiffer x [] h k = (tt, tt)
insert_event-AllDiffer x (y ∷ ys) h k = elim (Bool-cases (compare_events y.1 x.1)) [
  | inl later ↦ rw later (
    insert_event-All (λ z. Differ y.1 z.1) x ys (Differ-sym x.1 y.1 h.0) k.0,
    insert_event-AllDiffer x ys h.1 k.1,
  )
  | inr here ↦ rw here (h, k)
]

pub sort_events-AllDiffer : (xs : List (ℕ × Event)) → AllDiffer xs → AllDiffer (sort_events xs)
unfolding sort_events
sort_events-AllDiffer [] h = tt
sort_events-AllDiffer (x ∷ xs) h =
    insert_event-AllDiffer x (sort_events xs) (sort_events-All (λ y. Differ x.1 y.1) xs h.0)
      (sort_events-AllDiffer xs h.1)

sorted-FitsBehind :
    (x y : ℕ × Event)
    → HasClock x.1
    → HasClock y.1
    → Differ x.1 y.1
    → compare_events y.1 x.1 ≡ false
    → FitsBehind x y
unfolding compare_events int_ltb sign_extend follows
sorted-FitsBehind x y hx hy differ before same =
    let rank : get_rank x.1 ≡ get_rank y.1 = ground arith in
    elim (differ rank) [
      | inl other ↦ (ground arith, ground arith)
      | inr unknown ↦ (ground arith, ground arith)
    ]

sorted-All :
    (x : ℕ × Event) (xs : List (ℕ × Event))
    → HasClock x.1
    → All (λ y. HasClock y.1) xs
    → All (λ y. Differ x.1 y.1) xs
    → IsBefore x xs
    → All (FitsBehind x) xs
sorted-All x [] h hs d b = tt
sorted-All x (y ∷ ys) h hs d b =
    (sorted-FitsBehind x y h hs.0 d.0 b.0, sorted-All x ys h hs.1 d.1 b.1)

pub sorted-AreRising :
    (xs : List (ℕ × Event)) → All (λ x. HasClock x.1) xs → AllDiffer xs → IsSorted xs → AreRising xs
sorted-AreRising [] h d s = tt
sorted-AreRising (x ∷ xs) h d s = (sorted-All x xs h.0 h.1 d.0 s.0, sorted-AreRising xs h.1 d.1 s.1)
