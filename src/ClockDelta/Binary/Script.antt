-- ===== src/ClockDelta/Binary/Script.antt =====
-- src/rempi/rempi_clock_delta_compression.cpp: how often a diff has an id, and what the loop of
-- `convert_to_diff_binary` has pending behind a part of it.
use mathlib.Core.Path.{subst}
use re_mpi.Common.{
  ℕ, suc, ◌+◌, ◌≤◌, ◌≡◌, ◌≢◌, ◌⊎◌, inl, inr, refl, ◌∙◌, ap, none, some, List, [], ◌∷◌, ◌++◌,
  append_assoc, ◌==◌, if◌then◌else◌, length, ℕ_discrete, arith,
}
use re_mpi.Common.Maps.{Map, find, put, erase, IsMap, find-put, find-erase, put-IsMap, erase-IsMap}
use re_mpi.ClockDelta.{Edit, edit_ignore, edit_remove, edit_add}

unfoldable pub kept : (id : ℕ) → List Edit → ℕ
kept id [] = 0
kept id (edit_ignore c ∷ es) = if c == id then suc (kept id es) else kept id es
kept id (edit_remove c ∷ es) = kept id es
kept id (edit_add c ∷ es) = kept id es

unfoldable pub removed : (id : ℕ) → List Edit → ℕ
removed id [] = 0
removed id (edit_ignore c ∷ es) = removed id es
removed id (edit_remove c ∷ es) = if c == id then suc (removed id es) else removed id es
removed id (edit_add c ∷ es) = removed id es

unfoldable pub added : (id : ℕ) → List Edit → ℕ
added id [] = 0
added id (edit_ignore c ∷ es) = added id es
added id (edit_remove c ∷ es) = added id es
added id (edit_add c ∷ es) = if c == id then suc (added id es) else added id es

pub kept-append : (id : ℕ) (s t : List Edit) → kept id (s ++ t) ≡ kept id s + kept id t
unfolding kept
kept-append id [] t = omega arith
kept-append id (edit_ignore c ∷ s) t = ground (arith, kept-append id s t)
kept-append id (edit_remove c ∷ s) t = kept-append id s t
kept-append id (edit_add c ∷ s) t = kept-append id s t

pub removed-append : (id : ℕ) (s t : List Edit) → removed id (s ++ t) ≡ removed id s + removed id t
unfolding removed
removed-append id [] t = omega arith
removed-append id (edit_ignore c ∷ s) t = removed-append id s t
removed-append id (edit_remove c ∷ s) t = ground (arith, removed-append id s t)
removed-append id (edit_add c ∷ s) t = removed-append id s t

pub added-append : (id : ℕ) (s t : List Edit) → added id (s ++ t) ≡ added id s + added id t
unfolding added
added-append id [] t = omega arith
added-append id (edit_ignore c ∷ s) t = added-append id s t
added-append id (edit_remove c ∷ s) t = added-append id s t
added-append id (edit_add c ∷ s) t = ground (arith, added-append id s t)

-- How often a diff moves an id.
abbrev pub edited : (id : ℕ) → List Edit → ℕ
edited id s = removed id s + added id s

-- Each message is kept, or removed and added, at most once.
abbrev pub IsScript : List Edit → Type 0
IsScript s = (id : ℕ) → (removed id s ≡ added id s) × (kept id s + removed id s ≤ 1)

-- The first entry of a pending id.
pub record Met (passed : List Edit) (id place : ℕ) : Type 0 where
  pub before : List Edit
  pub entry : Edit
  pub after : List Edit
  pub parts : passed ≡ before ++ (entry ∷ after)
  pub at : length before ≡ place
  pub kind : (entry ≡ edit_remove id) ⊎ (entry ≡ edit_add id)
  pub once : edited id passed ≡ 1

abbrev pub IsKnown : (passed : List Edit) → Map ℕ → (id : ℕ) → Type 0
IsKnown passed pending id =
    ((find id pending ≡ none) × (edited id passed ≢ 1))
    ⊎ ((place : ℕ) × (find id pending ≡ some place) × Met passed id place)

-- Pending are the ids that have been met once.
pub record IsPending (passed : List Edit) (pending : Map ℕ) : Type 0 where
  pub is_map : IsMap pending
  pub known : (id : ℕ) → IsKnown passed pending id

pub edited-append : (id : ℕ) (s t : List Edit) → edited id (s ++ t) ≡ edited id s + edited id t
edited-append id s t = omega (arith, removed-append id s t, added-append id s t)

-- An entry that does not move an id.
extend :
    (passed : List Edit) (pending pending' : Map ℕ) (e : Edit) (id : ℕ)
    → edited id (e ∷ []) ≡ 0
    → find id pending' ≡ find id pending
    → IsKnown passed pending id
    → IsKnown (passed ++ (e ∷ [])) pending' id
extend passed pending pending' e id new same (inl (absent, other)) =
    inl (same ∙ absent, λ h. other (omega (arith, edited-append id passed (e ∷ []))))
extend passed pending pending' e id new same (inr (place, there, met)) = inr (
  place,
  same ∙ there,
  record {
    before = met.before;
    entry = met.entry;
    after = met.after ++ (e ∷ []);
    parts =
        ap (λ p. p ++ (e ∷ [])) met.parts
        ∙ append_assoc met.before (met.entry ∷ met.after) (e ∷ []);
    at = met.at;
    kind = met.kind;
    once = let o = met.once in omega (arith, edited-append id passed (e ∷ []));
  },
)

edited_one : (c id : ℕ) → edited id (edit_remove c ∷ []) ≡ (if c == id then 1 else 0)
unfolding removed added
edited_one c id = ground arith

edited_one_add : (c id : ℕ) → edited id (edit_add c ∷ []) ≡ (if c == id then 1 else 0)
unfolding removed added
edited_one_add c id = ground arith

-- An entry that moves `c`.
abbrev pub Moves : ℕ → Edit → Type 0
Moves c e = (e ≡ edit_remove c) ⊎ (e ≡ edit_add c)

pub Moves-edited :
    (c id : ℕ) (e : Edit) → Moves c e → edited id (e ∷ []) ≡ (if c == id then 1 else 0)
Moves-edited c id e (inl h) = ap (λ f. edited id (f ∷ [])) h ∙ edited_one c id
Moves-edited c id e (inr h) = ap (λ f. edited id (f ∷ [])) h ∙ edited_one_add c id

-- At the first entry of an id, it gets pending; at its second, it is so no longer.
pub first-IsPending :
    (passed : List Edit) (pending : Map ℕ) (e : Edit) (c : ℕ)
    → Moves c e
    → edited c passed ≡ 0
    → IsPending passed pending
    → IsPending (passed ++ (e ∷ [])) (put c (length passed) pending)
first-IsPending passed pending e c m new p = record {
  is_map = put-IsMap c (length passed) pending p.is_map;
  known = λ id. elim (ℕ_discrete c id) [
    | yes same ↦ subst (IsKnown (passed ++ (e ∷ [])) (put c (length passed) pending)) same (
        inr (
          length passed,
          ground (arith, find-put c c (length passed) pending),
          record {
            before = passed;
            entry = e;
            after = [];
            parts = refl;
            at = refl;
            kind = m;
            once = ground (arith, Moves-edited c c e m, edited-append c passed (e ∷ []));
          },
        ))
    | no other ↦
        extend passed pending (put c (length passed) pending) e id
          (ground (arith, Moves-edited c id e m))
          (ground (arith, find-put id c (length passed) pending)) (p.known id)
  ];
}

pub second-IsPending :
    (passed : List Edit) (pending : Map ℕ) (e : Edit) (c : ℕ)
    → Moves c e
    → edited c passed ≡ 1
    → IsPending passed pending
    → IsPending (passed ++ (e ∷ [])) (erase c pending)
second-IsPending passed pending e c m once p = record {
  is_map = erase-IsMap c pending p.is_map;
  known = λ id. elim (ℕ_discrete c id) [
    | yes same ↦ subst (IsKnown (passed ++ (e ∷ [])) (erase c pending)) same (
        inl (
          ground (arith, find-erase c c pending p.is_map),
          λ h. ground (arith, Moves-edited c c e m, edited-append c passed (e ∷ [])),
        ))
    | no other ↦
        extend passed pending (erase c pending) e id (ground (arith, Moves-edited c id e m))
          (ground (arith, find-erase id c pending p.is_map)) (p.known id)
  ];
}

pub ignore-IsPending :
    (passed : List Edit) (pending : Map ℕ) (c : ℕ)
    → IsPending passed pending
    → IsPending (passed ++ (edit_ignore c ∷ [])) pending
unfolding removed added
ignore-IsPending passed pending c p = record {
  is_map = p.is_map;
  known = λ id. extend passed pending pending (edit_ignore c) id refl refl (p.known id);
}

pub empty-IsPending : IsPending [] []
unfolding removed added find
empty-IsPending = record { is_map = tt; known = λ id. inl (refl, λ h. omega arith) }
