-- ===== src/Cdc/Indices/Visit.antt =====
-- src/rempi/rempi_encoder_cdc.cpp, rempi_clock_delta_compression.cpp: an entry of a diff, and what the
-- loops of `convert_to_diff_binary` and `cdc_prepare_decode_indices` make of it.
use mathlib.Core.Path.{subst}
use re_mpi.Common.{
  ℕ, suc, ◌+◌, ◌^◌, ◌≤◌, ◌<◌, ◌≡◌, ◌≢◌, inl, inr, refl, sym, ◌∙◌, ap, Bool, true, false, not, none,
  some, List, [], ◌∷◌, ◌++◌, append_assoc, ltb, length, drop, ℕ_discrete, length-append, ok, ◌>>=◌,
  arith,
}
use re_mpi.Common.Maps.{Map, find}
use re_mpi.ClockDelta.{Edit, edit_ignore, edit_remove, edit_add}
use re_mpi.ClockDelta.Binary.{signed, count_delta, is_pending, pair_up, visit}
use re_mpi.ClockDelta.Binary.Script.{
  kept, removed, added, edited, kept-append, removed-append, edited-append, IsScript, Met, IsKnown,
  IsPending, Moves, Moves-edited, first-IsPending, second-IsPending, ignore-IsPending,
}
use re_mpi.Cdc.Indices.{permutate, permutate_all}
use re_mpi.Cdc.Indices.Render.{is_moved, render, render-same, edited-cons, count_delta-render}
use re_mpi.Cdc.Indices.Round.{later-forward, later-backward}

drop-at :
    (before after : List Edit) (f : Edit)
    → drop (suc (length before)) (before ++ (f ∷ after)) ≡ after
drop-at [] after f = refl
drop-at (b ∷ before) after f = drop-at before after f

-- What is pending agrees with what has been moved, on the entries passed.
pending-moved :
    (passed : List Edit) (pending : Map ℕ) (d : ℕ)
    → IsKnown passed pending d
    → 0 < edited d passed
    → is_pending (find d pending) ≡ not (is_moved passed d)
pending-moved passed pending d (inl (absent, other)) lt = rw absent (ground arith)
pending-moved passed pending d (inr (place, there, met)) lt =
    let once = met.once in rw there (ground arith)

kept-cons : (c : ℕ) (e : Edit) (s : List Edit) → kept c (e ∷ s) ≡ kept c (e ∷ []) + kept c s
kept-cons c e s = kept-append c (e ∷ []) s

removed-cons :
    (c : ℕ) (e : Edit) (s : List Edit) → removed c (e ∷ s) ≡ removed c (e ∷ []) + removed c s
removed-cons c e s = removed-append c (e ∷ []) s

removed_self : (c : ℕ) → removed c (edit_remove c ∷ []) ≡ 1
unfolding removed
removed_self c = ground arith

removed_add : (c d : ℕ) → removed c (edit_add d ∷ []) ≡ 0
unfolding removed
removed_add c d = refl

-- The parts of a diff with the two entries of `c` in it.
abbrev whole : (before after rest : List Edit) (f e : Edit) → List Edit
whole before after rest f e = before ++ (f ∷ (after ++ (e ∷ rest)))

module _ (before after rest : List Edit) (c : ℕ) (f e : Edit) where
  removed-whole :
      removed c (whole before after rest f e)
      ≡ removed c before
        + removed c (f ∷ [])
        + removed c after
        + removed c (e ∷ [])
        + removed c rest
  removed-whole = omega (
    arith,
    removed-append c before (f ∷ (after ++ (e ∷ rest))),
    removed-cons c f (after ++ (e ∷ rest)),
    removed-append c after (e ∷ rest),
    removed-cons c e rest,
  )

  edited-whole :
      edited c (whole before after rest f e)
      ≡ edited c before + edited c (f ∷ []) + edited c after + edited c (e ∷ []) + edited c rest
  edited-whole = omega (
    arith,
    edited-append c before (f ∷ (after ++ (e ∷ rest))),
    edited-cons c f (after ++ (e ∷ rest)),
    edited-append c after (e ∷ rest),
    edited-cons c e rest,
  )

  kept-whole :
      kept c (whole before after rest f e)
      ≡ kept c before + kept c (f ∷ []) + kept c after + kept c (e ∷ []) + kept c rest
  kept-whole = omega (
    arith,
    kept-append c before (f ∷ (after ++ (e ∷ rest))),
    kept-cons c f (after ++ (e ∷ rest)),
    kept-append c after (e ∷ rest),
    kept-cons c e rest,
  )

-- The list behind one more entry.
pub record Visited (script passed : List Edit) (e : Edit) (r : Map ℕ × List (ℕ × ℕ)) : Type 0 where
  pub next : IsPending (passed ++ (e ∷ [])) r.0
  pub cells : permutate_all r.1 (render passed script) ≡ ok (render (passed ++ (e ∷ [])) script)

moved-extend :
    (passed : List Edit) (e : Edit) (d : ℕ)
    → edited d (e ∷ []) ≡ 0
    → is_moved passed d ≡ is_moved (passed ++ (e ∷ [])) d
moved-extend passed e d h =
    ap (ltb 1) {x = edited d passed} {y = edited d (passed ++ (e ∷ []))}
      (omega (arith, edited-append d passed (e ∷ [])))

module _ (script passed : List Edit) (pending : Map ℕ) (e : Edit) (rest : List Edit) (c : ℕ)
    (is_script : IsScript script) (parts : script ≡ passed ++ (e ∷ rest))
    (bound : length script < 2 ^ 31) (p : IsPending passed pending) (m : Moves c e) where
  other-moved : (d : ℕ) → c ≢ d → is_moved passed d ≡ is_moved (passed ++ (e ∷ [])) d
  other-moved d h = moved-extend passed e d (ground (arith, Moves-edited c d e m))

  total : edited c passed + edited c rest ≤ 1
  total =
      let s = is_script c in
      let own : edited c (e ∷ []) ≡ 1 = ground (arith, Moves-edited c c e m) in
      let all = ap (edited c) parts in
      omega (arith, edited-append c passed (e ∷ rest), edited-cons c e rest)

  unmoved : edited c passed ≢ 1 → render passed script ≡ render (passed ++ (e ∷ [])) script
  unmoved h = render-same passed (passed ++ (e ∷ [])) script (λ d lt. elim (ℕ_discrete c d) [
    | yes same ↦
        subst (λ x. is_moved passed x ≡ is_moved (passed ++ (e ∷ [])) x) same
          (ground (arith, total, Moves-edited c c e m, edited-append c passed (e ∷ [])))
    | no other ↦ other-moved d other
  ])

  pub pair_up-first :
      (remove : Bool)
      → find c pending ≡ none
      → edited c passed ≢ 1
      → Visited script passed e (pair_up passed c remove pending none)
  unfolding pair_up permutate_all
  pair_up-first remove absent other = record {
    next = first-IsPending passed pending e c m (omega (arith, total)) p;
    cells = ap ok (unmoved other);
  }

  module _ (place : ℕ) (met : Met passed c place) where
    open met use {before, entry, after, kind, once}

    is_whole : script ≡ whole before after rest entry e
    is_whole =
        parts ∙ ap (λ q. q ++ (e ∷ rest)) met.parts ∙ append_assoc before (entry ∷ after) (e ∷ rest)

    entry-edited : edited c (entry ∷ []) ≡ 1
    entry-edited = ground (arith, Moves-edited c c entry kind)

    own-edited : edited c (e ∷ []) ≡ 1
    own-edited = ground (arith, Moves-edited c c e m)

    around-edited : edited c before + edited c after + edited c rest ≡ 0
    around-edited =
        let s = is_script c in
        let all = ap (edited c) is_whole in
        omega (arith, edited-whole before after rest c entry e, entry-edited, own-edited)

    script-kept : kept c script ≡ 0
    script-kept =
        let s = is_script c in
        let all = ap (edited c) is_whole in
        omega (arith, edited-whole before after rest c entry e, entry-edited, own-edited)

    around-kept : kept c before + kept c after ≡ 0
    around-kept =
        let all = ap (kept c) is_whole in
        omega (arith, kept-whole before after rest c entry e, script-kept)

    bound-after : length after < 2 ^ 31
    bound-after =
        let all = ap length is_whole in
        omega (
          arith,
          length-append {0} before (entry ∷ (after ++ (e ∷ rest))),
          length-append {0} after (e ∷ rest),
        )

    delta-render : count_delta pending (drop (suc place) passed) ≡ length (render passed after)
    delta-render =
        ap (count_delta pending) (
          ap (λ k. drop (suc k) passed) (sym met.at)
          ∙ ap (drop (suc (length before))) met.parts
          ∙ drop-at before after entry)
        ∙ count_delta-render passed pending after (λ d lt.
          pending-moved passed pending d (p.known d) (
            let all = ap (edited d) met.parts in
            omega (arith, edited-append d before (entry ∷ after), edited-cons d entry after)))

    was-moved : is_moved passed c ≡ false
    was-moved = ground (arith, once)

    now-moved : is_moved (passed ++ (e ∷ [])) c ≡ true
    now-moved = ground (arith, once, edited-append c passed (e ∷ []), own-edited)

    -- A message is not removed twice.
    not_twice : entry ≡ edit_remove c → e ≡ edit_remove c → ⊥
    not_twice f-eq e-eq =
        let s = is_script c in
        let all = ap (removed c) is_whole in
        let one = ap (λ x. removed c (x ∷ [])) f-eq ∙ removed_self c in
        let two = ap (λ x. removed c (x ∷ [])) e-eq ∙ removed_self c in
        omega (arith, removed-whole before after rest c entry e)

    -- Nor is it added twice.
    not_twice_added : entry ≡ edit_add c → e ≡ edit_add c → ⊥
    not_twice_added f-eq e-eq =
        let s = is_script c in
        let all = ap (removed c) is_whole in
        let none_one = ap (λ x. removed c (x ∷ [])) f-eq ∙ removed_add c c in
        let none_two = ap (λ x. removed c (x ∷ [])) e-eq ∙ removed_add c c in
        let both = ap (edited c) is_whole in
        omega (
          arith,
          removed-whole before after rest c entry e,
          edited-whole before after rest c entry e,
          entry-edited,
          own-edited,
          around-edited,
        )

    cells-forward :
        entry ≡ edit_remove c
        → e ≡ edit_add c
        → permutate c
            (signed false (count_delta pending (drop (suc place) passed)))
            (render passed script)
          ≡ ok (render (passed ++ (e ∷ [])) script)
    cells-forward f-eq e-eq =
        let eq =
          is_whole
          ∙ ap (λ f. whole before after rest f e) f-eq
          ∙ ap (whole before after rest (edit_remove c)) e-eq in
        ap (λ n. permutate c (signed false n) (render passed script)) delta-render
        ∙ ap (λ s. permutate c (signed false (length (render passed after))) (render passed s)) eq
        ∙ later-forward before after rest c passed (passed ++ (e ∷ [])) was-moved now-moved
            other-moved (omega (arith, around-edited)) (omega (arith, around-edited))
            (omega (arith, around-edited)) (omega (arith, around-kept)) (omega (arith, around-kept))
            bound-after
        ∙ ap (λ s. ok (render (passed ++ (e ∷ [])) s)) (sym eq)

    cells-backward :
        entry ≡ edit_add c
        → e ≡ edit_remove c
        → permutate c
            (signed true (count_delta pending (drop (suc place) passed)))
            (render passed script)
          ≡ ok (render (passed ++ (e ∷ [])) script)
    cells-backward f-eq e-eq =
        let eq =
          is_whole
          ∙ ap (λ f. whole before after rest f e) f-eq
          ∙ ap (whole before after rest (edit_add c)) e-eq in
        ap (λ n. permutate c (signed true n) (render passed script)) delta-render
        ∙ ap (λ s. permutate c (signed true (length (render passed after))) (render passed s)) eq
        ∙ later-backward before after rest c passed (passed ++ (e ∷ [])) was-moved now-moved
            other-moved (omega (arith, around-edited)) (omega (arith, around-edited))
            (omega (arith, around-edited)) (omega (arith, around-kept)) (omega (arith, around-kept))
            bound-after
        ∙ ap (λ s. ok (render (passed ++ (e ∷ [])) s)) (sym eq)

    pair_up-second :
        (remove : Bool)
        → permutate c
            (signed remove (count_delta pending (drop (suc place) passed)))
            (render passed script)
          ≡ ok (render (passed ++ (e ∷ [])) script)
        → Visited script passed e (pair_up passed c remove pending (some place))
    unfolding pair_up permutate_all
    pair_up-second remove h = record {
      next = second-IsPending passed pending e c m once p;
      cells = ap (λ r. r >>= permutate_all []) h;
    }

    pub pair_up-remove :
        e ≡ edit_remove c → Visited script passed e (pair_up passed c true pending (some place))
    pair_up-remove h = elim kind [
      | inl first ↦ absurd (not_twice first h)
      | inr first ↦ pair_up-second true (cells-backward first h)
    ]

    pub pair_up-add :
        e ≡ edit_add c → Visited script passed e (pair_up passed c false pending (some place))
    pair_up-add h = elim kind [
      | inl first ↦ pair_up-second false (cells-forward first h)
      | inr first ↦ absurd (not_twice_added first h)
    ]

pub visit-Visited :
    (script passed : List Edit) (pending : Map ℕ) (e : Edit) (rest : List Edit)
    → IsScript script
    → script ≡ passed ++ (e ∷ rest)
    → length script < 2 ^ 31
    → IsPending passed pending
    → Visited script passed e (visit passed pending e)
unfolding visit permutate_all
visit-Visited script passed pending (edit_ignore c) rest is parts bound p = record {
  next = ignore-IsPending passed pending c p;
  cells = ap ok (
      render-same passed (passed ++ (edit_ignore c ∷ [])) script
        (λ d lt. moved-extend passed (edit_ignore c) d (unfold removed added in refl)));
}
visit-Visited script passed pending (edit_remove c) rest is parts bound p = elim (p.known c) [
  | inl (absent, other) ↦ rw absent (
      pair_up-first script passed pending (edit_remove c) rest c is parts bound p (inl refl) true
        absent other)
  | inr (place, there, met) ↦ rw there (
      pair_up-remove script passed pending (edit_remove c) rest c is parts bound p (inl refl) place
        met refl)
]
visit-Visited script passed pending (edit_add c) rest is parts bound p = elim (p.known c) [
  | inl (absent, other) ↦ rw absent (
      pair_up-first script passed pending (edit_add c) rest c is parts bound p (inr refl) false
        absent other)
  | inr (place, there, met) ↦ rw there (
      pair_up-add script passed pending (edit_add c) rest c is parts bound p (inr refl) place met
        refl)
]
