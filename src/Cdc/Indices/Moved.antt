-- ===== src/Cdc/Indices/Moved.antt =====
-- src/rempi/rempi_encoder_cdc.cpp: one round of the loop of `cdc_prepare_decode_indices` moves a node.
use re_mpi.Common.{
  ℕ, zero, suc, ◌-◌, ◌%◌, ◌^◌, ◌<◌, ◌≡◌, refl, ◌∙◌, ap, true, false, List, [], ◌∷◌, ◌++◌, ltb,
  length, All, ok, ◌>>=◌, arith,
}
use re_mpi.ClockDelta.Binary.{signed}
use re_mpi.Cdc.Indices.{
  Cell, original, inserted, is_at, erase_id, forward, backward, advance, rewind, permutate, At,
}

-- No iterator of an id is in a part of the list.
abbrev pub Lacks : ℕ → List Cell → Type 0
Lacks id = All (λ c. is_at id c ≡ false)

erase_id-at :
    (id : ℕ) (before front back : List Cell)
    → Lacks id front
    → erase_id id before (front ++ (original id ∷ back)) ≡ ok (rewind front before, back)
unfolding erase_id is_at rewind
erase_id-at id before [] back h = ground arith
erase_id-at id before (c ∷ front) back h = rw h.0 (erase_id-at id (c ∷ before) front back h.1)

forward-append :
    (before front back : List Cell)
    → forward (length front) (before, front ++ back) ≡ ok (rewind front before, back)
unfolding forward rewind
forward-append before [] back = refl
forward-append before (c ∷ front) back = forward-append (c ∷ before) front back

-- The last step of a way back.
backward_last : (n : ℕ) (at : At) → backward (suc n) at ≡ backward n at >>= backward 1
unfolding backward
backward_last zero at = refl
backward_last (suc n) ([], cs) = refl
backward_last (suc n) (c ∷ before, cs) = backward_last n (before, c ∷ cs)

backward-append :
    (before front back : List Cell)
    → backward (length front) (rewind front before, back) ≡ ok (before, front ++ back)
unfolding rewind backward
backward-append before [] back = refl
backward-append before (c ∷ front) back =
    backward_last (length front) (rewind front (c ∷ before), back)
    ∙ ap (λ r. r >>= backward 1) (backward-append (c ∷ before) front back)

rewind-rewind :
    (front before cs : List Cell) → rewind (rewind front before) cs ≡ rewind before (front ++ cs)
unfolding rewind
rewind-rewind [] before cs = refl
rewind-rewind (c ∷ front) before cs = rewind-rewind front (c ∷ before) cs

advance-forward : (n : ℕ) (at : At) → n < 2 ^ 31 → advance (signed false n) at ≡ forward n at
unfolding advance signed
advance-forward n at h =
    let e : n % 2 ^ 32 ≡ n = omega arith in
    let t : ltb n (2 ^ 31) ≡ true = ground arith in rw (e, t) refl

advance-backward :
    (n : ℕ) (at : At) → n < 2 ^ 31 → advance (signed true (suc n)) at ≡ backward (suc n) at
unfolding advance signed
advance-backward n at h =
    let e : (2 ^ 32 - suc n % 2 ^ 32) % 2 ^ 32 ≡ 2 ^ 32 - suc n = omega arith in
    let t : ltb (2 ^ 32 - suc n) (2 ^ 31) ≡ false = ground arith in
    let back : 2 ^ 32 - (2 ^ 32 - suc n) ≡ suc n = omega arith in rw (e, t, back) refl

-- A node goes behind as many nodes as its delay says.
pub permutate-forward :
    (id : ℕ) (front middle back : List Cell)
    → Lacks id front
    → length middle < 2 ^ 31
    → permutate id (signed false (length middle)) (front ++ (original id ∷ (middle ++ back)))
      ≡ ok (front ++ (middle ++ (inserted id ∷ back)))
unfolding permutate rewind
permutate-forward id front middle back h lt =
    ap
      (λ r. r >>= advance (signed false (length middle)) >>= λ at.
        ok (rewind at.0 (inserted id ∷ at.1)))
      (erase_id-at id [] front (middle ++ back) h)
    ∙ ap (λ r. r >>= λ at. ok (rewind at.0 (inserted id ∷ at.1)))
        (advance-forward (length middle) (rewind front [], middle ++ back) lt
          ∙ forward-append (rewind front []) middle back)
    ∙ ap ok (
        rewind-rewind middle (rewind front []) (inserted id ∷ back)
        ∙ rewind-rewind front [] (middle ++ (inserted id ∷ back)))

rewind-append :
    (front middle before : List Cell)
    → rewind (front ++ middle) before ≡ rewind middle (rewind front before)
unfolding rewind
rewind-append [] middle before = refl
rewind-append (c ∷ front) middle before = rewind-append front middle (c ∷ before)

advance-back :
    (before middle back : List Cell)
    → length middle < 2 ^ 31
    → advance (signed true (length middle)) (rewind middle before, back)
      ≡ ok (before, middle ++ back)
unfolding advance signed forward rewind
advance-back before [] back lt = refl
advance-back before (c ∷ middle) back lt =
    advance-backward (length middle) (rewind (c ∷ middle) before, back) (omega arith)
    ∙ backward-append before (c ∷ middle) back

-- A node goes before as many nodes.
pub permutate-backward :
    (id : ℕ) (front middle back : List Cell)
    → Lacks id (front ++ middle)
    → length middle < 2 ^ 31
    → permutate id (signed true (length middle)) ((front ++ middle) ++ (original id ∷ back))
      ≡ ok (front ++ (inserted id ∷ (middle ++ back)))
unfolding permutate rewind
permutate-backward id front middle back h lt =
    ap
      (λ r.
        r >>= advance (signed true (length middle)) >>= λ at. ok (rewind at.0 (inserted id ∷ at.1)))
      (erase_id-at id [] (front ++ middle) back h)
    ∙ ap
        (λ b. advance (signed true (length middle)) (b, back) >>= λ at.
          ok (rewind at.0 (inserted id ∷ at.1)))
        (rewind-append front middle [])
    ∙ ap (λ r. r >>= λ at. ok (rewind at.0 (inserted id ∷ at.1)))
        (advance-back (rewind front []) middle back lt)
    ∙ ap ok (rewind-rewind front [] (inserted id ∷ (middle ++ back)))
