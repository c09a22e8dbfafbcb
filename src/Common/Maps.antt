-- ===== src/Common/Maps.antt =====
-- std::unordered_map with keys that are numbers: its entries in the order of iteration, which the
-- C++ standard leaves open. No theorem depends on where `put` adds an entry.
use re_mpi.Common.{
  ℕ, ◌≡◌, refl, Option, none, some, List, [], ◌∷◌, ◌++◌, ◌==◌, if◌then◌else◌, arith,
}

abbrev pub Map {ℓ} : Type ℓ → Type ℓ
Map V = List (ℕ × V)

module _ {ℓ} {V : Type ℓ} where
  -- `m.find(k)`, and `m.at(k)` where there is an entry
  unfoldable pub find : ℕ → Map V → Option V
  find k [] = none
  find k ((j, v) ∷ m) = if j == k then some v else find k m

  -- `m[k] = v`
  unfoldable pub put : ℕ → V → Map V → Map V
  put k v [] = (k, v) ∷ []
  put k v ((j, w) ∷ m) = if j == k then (k, v) ∷ m else (j, w) ∷ put k v m

  -- `m.erase(k)`
  unfoldable pub erase : ℕ → Map V → Map V
  erase k [] = []
  erase k ((j, w) ∷ m) = if j == k then m else (j, w) ∷ erase k m

  -- no key twice
  abbrev pub IsMap : Map V → Type ℓ
  IsMap [] = Unit
  IsMap ((k, v) ∷ m) = (find k m ≡ none) × IsMap m

  pub find-put :
      (j k : ℕ) (v : V) (m : Map V) → find j (put k v m) ≡ (if k == j then some v else find j m)
  unfolding find put
  find-put j k v [] = refl
  find-put j k v ((i, w) ∷ m) = ground (arith, find-put j k v m)

  pub find-erase :
      (j k : ℕ) (m : Map V) → IsMap m → find j (erase k m) ≡ (if k == j then none else find j m)
  unfolding find erase
  find-erase j k [] h = ground arith
  find-erase j k ((i, w) ∷ m) h = ground (arith, find-erase j k m h.1)

  pub put-IsMap : (k : ℕ) (v : V) (m : Map V) → IsMap m → IsMap (put k v m)
  unfolding put find
  put-IsMap k v [] h = (refl, tt)
  put-IsMap k v ((i, w) ∷ m) h = ground (arith, find-put i k v m, put-IsMap k v m h.1)

  pub erase-IsMap : (k : ℕ) (m : Map V) → IsMap m → IsMap (erase k m)
  unfolding erase
  erase-IsMap k [] h = tt
  erase-IsMap k ((i, w) ∷ m) h = ground (arith, find-erase i k m h.1, erase-IsMap k m h.1)

  pub put_new : (k : ℕ) (v : V) (m : Map V) → find k m ≡ none → put k v m ≡ m ++ ((k, v) ∷ [])
  unfolding put find
  put_new k v [] h = refl
  put_new k v ((i, w) ∷ m) h = ground (arith, put_new k v m)

  pub erase-put : (k : ℕ) (v : V) (m : Map V) → find k m ≡ none → erase k (put k v m) ≡ m
  unfolding put find erase
  erase-put k v [] h = ground arith
  erase-put k v ((i, w) ∷ m) h = ground (arith, erase-put k v m)
