-- ===== src/Gate/Record/Moves.antt =====
-- src/reomp/reomp_gate_clock.cpp when recording: each move keeps the counters, files and locks right.
use re_mpi.Common.{
  update, update_self, ℕ, suc, ◌^◌, ◌<◌, ◌≤◌, ◌≡◌, refl, sym, ap, ◌∙◌, true, false, none, some,
  List, [], ◌∷◌, ◌++◌, ◌==◌, ==_iff, Bool-cases, inl, inr, arith, length, ◌⊎◌,
}
use mathlib.Core.Path.{subst, ap₂}
use mathlib.Core.Option.{some-injective, none-ne-some}
use re_mpi.Common.Bytes.{to_le}
use re_mpi.Gate.Record.{Session, outermost, count, tickets}
use re_mpi.Gate.Record.Effect.{entered, locked, left, recorded}

-- The thread is in a section of the lock.
abbrev pub IsInside : Session → ℕ → ℕ → Type 0
IsInside s tid lock_id = outermost (s.sections tid) ≡ some lock_id

-- After `n` steps: the counters and the record files say what the history says, and a lock that a
-- thread is inside is held, by it alone.
pub record IsRecorded (n : ℕ) (s : Session) : Type 0 where
  pub nest : (tid : ℕ) → s.gate.nest_num tid ≡ length (s.sections tid)
  pub depth : (tid : ℕ) → length (s.sections tid) ≤ n
  pub short : length s.history ≤ n
  pub clocks : (lock_id : ℕ) → s.gate.current_clocks lock_id ≡ count lock_id s.history
  pub files : (tid : ℕ) → s.gate.files tid ≡ tickets tid s.history
  pub held : (tid lock_id : ℕ) → IsInside s tid lock_id → s.gate.omp_locks lock_id ≡ true
  pub alone :
      (tid other lock_id : ℕ) → IsInside s tid lock_id → IsInside s other lock_id → tid ≡ other

pub count-le-length : (lock_id : ℕ) (h : List (ℕ × ℕ)) → count lock_id h ≤ length h
unfolding count
count-le-length lock_id [] = omega arith
count-le-length lock_id ((tid, l) ∷ h) = ground (arith, count-le-length lock_id h)

pub outermost-cons :
    (lock_id : ℕ) (ls : List ℕ) → 0 < length ls → outermost (lock_id ∷ ls) ≡ outermost ls
outermost-cons lock_id [] h = absurd (omega arith)
outermost-cons lock_id (l ∷ ls) h = refl

-- A statement about every entry, after one entry is replaced.
pub update-all {ℓ} :
    {A : Type ℓ} (P : ℕ → A → Type 0) (f : ℕ → A) (k : ℕ) (v : A)
    → P k v
    → ((j : ℕ) → P j (f j))
    → (j : ℕ) → P j (update f k v j)
update-all P f k v one all j = elim (Bool-cases (k == j)) [
  | inl same ↦ rw same (subst (λ x. P x v) ((==_iff k j).0 same) one)
  | inr other ↦ rw other (all j)
]

module _ (n : ℕ) (small : suc n < 2 ^ 31) (s : Session) (v : IsRecorded n s) (tid lock_id : ℕ) where
  -- Entering another section inside one.
  pub enter_inner :
      0 < length (s.sections tid)
      → IsRecorded (suc n) (record s {
        gate = entered tid s.gate;
        sections = update s.sections tid (lock_id ∷ s.sections tid);
      })
  enter_inner inside =
      let same : (t : ℕ)
          → outermost (update s.sections tid (lock_id ∷ s.sections tid) t)
            ≡ outermost (s.sections t) =
        update-all (λ t ls. outermost ls ≡ outermost (s.sections t)) s.sections tid
          (lock_id ∷ s.sections tid) (outermost-cons lock_id (s.sections tid) inside) (λ t. refl) in
      record {
        nest = λ t. ground (arith, v.nest t, v.nest tid, v.depth tid);
        depth = λ t. ground (arith, v.depth t, v.depth tid);
        short = omega (arith, v.short);
        clocks = v.clocks;
        files = v.files;
        held = λ t l i. v.held t l (sym (same t) ∙ i);
        alone = λ t u l i j. v.alone t u l (sym (same t) ∙ i) (sym (same u) ∙ j);
      }

  -- Entering a first section, of a lock that is free.
  pub enter_first :
      s.sections tid ≡ []
      → s.gate.omp_locks lock_id ≡ false
      → IsRecorded (suc n) (record s {
        gate = locked tid lock_id s.gate;
        sections = update s.sections tid (lock_id ∷ s.sections tid);
      })
  enter_first none_open free =
      let who : (t l : ℕ)
          → outermost (update s.sections tid (lock_id ∷ s.sections tid) t) ≡ some l
          → ((tid ≡ t) × (lock_id ≡ l)) ⊎ IsInside s t l =
        λ t l.
          update-all (λ t ls. outermost ls ≡ some l → ((tid ≡ t) × (lock_id ≡ l)) ⊎ IsInside s t l)
            s.sections tid (lock_id ∷ s.sections tid)
            (λ i. inl (
              refl,
              some-injective lock_id l (sym (ap (λ ls. outermost (lock_id ∷ ls)) none_open) ∙ i),
            ))
            (λ t i. inr i) t in
      record {
        nest = λ t. ground (arith, v.nest t, v.nest tid, v.depth tid);
        depth = λ t. ground (arith, v.depth t, v.depth tid);
        short = omega (arith, v.short);
        clocks = v.clocks;
        files = v.files;
        held = λ t l i. elim (who t l i) [
          | inl (_, this) ↦
              subst (λ l. update s.gate.omp_locks lock_id true l ≡ true) this
                (update_self s.gate.omp_locks lock_id true)
          | inr old ↦ ground (arith, v.held t l old)
        ];
        alone = λ t u l i j. elim (who t l i) [
          | inl (this, which) ↦ elim (who u l j) [
            | inl (that, _) ↦ sym this ∙ that
            | inr old ↦ absurd (cc (free, v.held u l old, which))
          ]
          | inr old ↦ elim (who u l j) [
            | inl (_, which) ↦ absurd (cc (free, v.held t l old, which))
            | inr also ↦ v.alone t u l old also
          ]
        ];
      }

  -- Leaving a section inside another one.
  pub exit_inner :
      (outer : List ℕ)
      → s.sections tid ≡ lock_id ∷ outer
      → 0 < length outer
      → IsRecorded
          (suc n)
          (record s { gate = left tid s.gate; sections = update s.sections tid outer })
  exit_inner outer open_sections inside =
      let same : (t : ℕ) → outermost (update s.sections tid outer t) ≡ outermost (s.sections t) =
        update-all (λ t ls. outermost ls ≡ outermost (s.sections t)) s.sections tid outer
          (sym (ap outermost open_sections ∙ outermost-cons lock_id outer inside)) (λ t. refl) in
      record {
        nest = λ t. ground (arith, v.nest t, v.nest tid, v.depth tid, ap length open_sections);
        depth = λ t. ground (arith, v.depth t, v.depth tid, ap length open_sections);
        short = omega (arith, v.short);
        clocks = v.clocks;
        files = v.files;
        held = λ t l i. v.held t l (sym (same t) ∙ i);
        alone = λ t u l i j. v.alone t u l (sym (same t) ∙ i) (sym (same u) ∙ j);
      }

  -- Leaving an outermost section.
  pub exit_last :
      s.sections tid ≡ lock_id ∷ []
      → IsRecorded (suc n) (record {
        gate = recorded tid lock_id s.gate;
        sections = update s.sections tid [];
        history = (tid, lock_id) ∷ s.history;
      })
  unfolding count tickets
  exit_last open_sections =
      let here : IsInside s tid lock_id = ap outermost open_sections in
      let who : (t l : ℕ)
          → outermost (update s.sections tid [] t) ≡ some l
          → ((tid == t) ≡ false) × IsInside s t l =
        λ t l i. elim (Bool-cases (tid == t)) [
          | inl same ↦
              let gone : outermost (update s.sections tid [] t) ≡ none = rw same refl in
              absurd (none-ne-some l (sym gone ∙ i))
          | inr other ↦
              let kept : outermost (update s.sections tid [] t) ≡ outermost (s.sections t) =
                rw other refl in
              (other, sym kept ∙ i)
        ] in
      record {
        nest = λ t. ground (arith, v.nest t, v.nest tid, v.depth tid, ap length open_sections);
        depth = λ t. ground (arith, v.depth t);
        short = omega (arith, v.short);
        clocks = λ l. ground (
          arith,
          v.clocks l,
          v.clocks lock_id,
          v.short,
          count-le-length l s.history,
          count-le-length lock_id s.history,
        );
        files = λ t. elim (Bool-cases (tid == t)) [
          | inl same ↦ rw same (
              ap₂ (λ b c. b ++ to_le 4 c)
                (v.files tid ∙ ap (λ t. tickets t s.history) ((==_iff tid t).0 same))
                (v.clocks lock_id))
          | inr other ↦ rw other (v.files t)
        ];
        held = λ t l i.
            let (other, old) = who t l i in
            elim (Bool-cases (lock_id == l)) [
              | inl this ↦ absurd (
                  cc (
                    other,
                    (==_iff tid t).1
                        (v.alone tid t l (here ∙ ap some ((==_iff lock_id l).0 this)) old),
                  ))
              | inr that ↦ rw that (v.held t l old)
            ];
        alone = λ t u l i j. v.alone t u l (who t l i).1 (who u l j).1;
      }
