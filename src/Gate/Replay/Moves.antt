-- ===== src/Gate/Replay/Moves.antt =====
-- src/reomp/reomp_gate_clock.cpp when replaying: each move keeps the counters and the record files right.
use mathlib.Core.Path.{subst}
use mathlib.Core.List.{Memᴰ}
use mathlib.Core.Option.{some-injective}
use re_mpi.Common.{
  update, ℕ, suc, ◌^◌, ◌<◌, ◌≤◌, ◌≡◌, refl, sym, ap, ◌∙◌, false, Option, none, some, List, [], ◌∷◌,
  ◌++◌, ◌==◌, ==_iff, Bool-cases, inl, inr, arith, length,
}
use re_mpi.Common.Bytes.{Bytes}
use re_mpi.Gate.Record.{Session, outermost, count}
use re_mpi.Gate.Record.Effect.{entered, left}
use re_mpi.Gate.Record.Moves.{count-le-length, outermost-cons, update-all}
use re_mpi.Gate.Replay.{marks}
use re_mpi.Gate.Replay.Effect.{passed, released}
use re_mpi.Gate.Replay.Marks.{ticket_bytes, holder-marks, marks-same, marks-other}

-- What is left of a thread's record file, and of its marks in the recorded history. A thread inside a
-- section of a lock has taken the mark that has the number of that lock's sections left so far.
abbrev pub Doing :
    (recorded history : List (ℕ × ℕ)) → (tid : ℕ) → (file : Bytes) → Option ℕ → Type 0
Doing recorded history tid file none =
    (rest : List (ℕ × ℕ)) × (marks tid recorded ≡ rest ++ marks tid history)
    × (file ≡ ticket_bytes rest)
Doing recorded history tid file (some l) =
    (rest : List (ℕ × ℕ)) × (marks tid recorded
      ≡ rest ++ ((l, count l history) ∷ marks tid history))
    × (file ≡ ticket_bytes rest)

pub record IsReplaying (recorded : List (ℕ × ℕ)) (n : ℕ) (s : Session) : Type 0 where
  pub nest : (tid : ℕ) → s.gate.nest_num tid ≡ length (s.sections tid)
  pub depth : (tid : ℕ) → length (s.sections tid) ≤ n
  pub short : length s.history ≤ n
  pub clocks : (lock_id : ℕ) → s.gate.current_clocks lock_id ≡ count lock_id s.history
  pub doing :
      (tid : ℕ) → Doing recorded s.history tid (s.gate.files tid) (outermost (s.sections tid))

pub mem_middle : (xs : List (ℕ × ℕ)) (x : ℕ × ℕ) (ys : List (ℕ × ℕ)) → Memᴰ x (xs ++ (x ∷ ys))
mem_middle [] x ys = Memᴰ.head refl
mem_middle (y ∷ xs) x ys = Memᴰ.tail (mem_middle xs x ys)

-- Two threads do not hold the same mark.
pub Doing-alone :
    (recorded history : List (ℕ × ℕ)) (t u l : ℕ) (f g : Bytes)
    → Doing recorded history t f (some l)
    → Doing recorded history u g (some l)
    → t ≡ u
Doing-alone recorded history t u l f g (rest, split, _) (rest', split', _) = some-injective t u (
    sym
      (holder-marks t l (count l history) recorded (
        subst (Memᴰ (l, count l history)) (sym split)
          (mem_middle rest (l, count l history) (marks t history)))).1
    ∙ (holder-marks u l (count l history) recorded (
        subst (Memᴰ (l, count l history)) (sym split')
          (mem_middle rest' (l, count l history) (marks u history)))).1)

update-both {ℓ κ} :
    {A : Type ℓ} {B : Type κ} (P : ℕ → A → B → Type 0) (f : ℕ → A) (g : ℕ → B) (k : ℕ) (v : A)
    (w : B)
    → P k v w
    → ((j : ℕ) → P j (f j) (g j))
    → (j : ℕ) → P j (update f k v j) (update g k w j)
update-both P f g k v w one all j = elim (Bool-cases (k == j)) [
  | inl same ↦ rw same (subst (λ x. P x v w) ((==_iff k j).0 same) one)
  | inr other ↦ rw other (all j)
]

-- What a thread is doing after another one has left a section of another lock.
Doing-other :
    (recorded history : List (ℕ × ℕ)) (tid lock_id t : ℕ) (f : Bytes) (o : Option ℕ)
    → (tid == t) ≡ false
    → ¬ (o ≡ some lock_id)
    → Doing recorded history t f o
    → Doing recorded ((tid, lock_id) ∷ history) t f o
unfolding count
Doing-other recorded history tid lock_id t f none other apart (rest, split, file) =
    (rest, split ∙ ap (λ m. rest ++ m) (sym (marks-other t tid lock_id history other)), file)
Doing-other recorded history tid lock_id t f (some l) other apart (rest, split, file) =
    let same : (lock_id == l) ≡ false = elim (Bool-cases (lock_id == l)) [
      | inl this ↦ absurd (apart (ap some (sym ((==_iff lock_id l).0 this))))
      | inr that ↦ that
    ] in
    (rest, rw (same, marks-other t tid lock_id history other) split, file)

module _ (recorded : List (ℕ × ℕ)) (n : ℕ) (small : suc n < 2 ^ 31) (s : Session)
    (v : IsReplaying recorded n s) (tid lock_id : ℕ) where
  -- Entering another section inside one.
  pub enter_inner :
      0 < length (s.sections tid)
      → IsReplaying recorded (suc n) (record s {
        gate = entered tid s.gate;
        sections = update s.sections tid (lock_id ∷ s.sections tid);
      })
  enter_inner inside = record {
    nest = λ t. ground (arith, v.nest t, v.nest tid, v.depth tid);
    depth = λ t. ground (arith, v.depth t, v.depth tid);
    short = omega (arith, v.short);
    clocks = v.clocks;
    doing =
        update-all (λ t ls. Doing recorded s.history t (s.gate.files t) (outermost ls)) s.sections
          tid (lock_id ∷ s.sections tid)
          (subst (Doing recorded s.history tid (s.gate.files tid))
            (sym (outermost-cons lock_id (s.sections tid) inside)) (v.doing tid))
          v.doing;
  }

  -- Entering a first section, with the mark that is next.
  pub enter_first :
      (before : List (ℕ × ℕ))
      → s.sections tid ≡ []
      → marks tid recorded ≡ before ++ ((lock_id, count lock_id s.history) ∷ marks tid s.history)
      → IsReplaying recorded (suc n) (record s {
        gate = passed tid (ticket_bytes before) s.gate;
        sections = update s.sections tid (lock_id ∷ s.sections tid);
      })
  enter_first before none_open split = record {
    nest = λ t. ground (arith, v.nest t, v.nest tid, v.depth tid);
    depth = λ t. ground (arith, v.depth t, v.depth tid);
    short = omega (arith, v.short);
    clocks = v.clocks;
    doing =
        update-both (λ t f ls. Doing recorded s.history t f (outermost ls)) s.gate.files s.sections
          tid (ticket_bytes before) (lock_id ∷ s.sections tid)
          (subst
            (λ ls. Doing recorded s.history tid (ticket_bytes before) (outermost (lock_id ∷ ls)))
            (sym none_open) (before, split, refl))
          v.doing;
  }

  -- Leaving a section inside another one.
  pub exit_inner :
      (outer : List ℕ)
      → s.sections tid ≡ lock_id ∷ outer
      → 0 < length outer
      → IsReplaying recorded
          (suc n)
          (record s { gate = left tid s.gate; sections = update s.sections tid outer })
  exit_inner outer open_sections inside = record {
    nest = λ t. ground (arith, v.nest t, v.nest tid, v.depth tid, ap length open_sections);
    depth = λ t. ground (arith, v.depth t, v.depth tid, ap length open_sections);
    short = omega (arith, v.short);
    clocks = v.clocks;
    doing =
        update-all (λ t ls. Doing recorded s.history t (s.gate.files t) (outermost ls)) s.sections
          tid outer
          (subst (Doing recorded s.history tid (s.gate.files tid))
            (ap outermost open_sections ∙ outermost-cons lock_id outer inside) (v.doing tid))
          v.doing;
  }

  -- Leaving an outermost section.
  pub exit_last :
      s.sections tid ≡ lock_id ∷ []
      → IsReplaying recorded (suc n) (record {
        gate = released tid lock_id s.gate;
        sections = update s.sections tid [];
        history = (tid, lock_id) ∷ s.history;
      })
  unfolding count
  exit_last open_sections =
      let here : Doing recorded s.history tid (s.gate.files tid) (some lock_id) =
        subst (λ ls. Doing recorded s.history tid (s.gate.files tid) (outermost ls)) open_sections
          (v.doing tid) in
      record {
        nest = λ t. ground (arith, v.nest t, v.nest tid, v.depth tid, ap length open_sections);
        depth = λ t. ground (arith, v.depth t);
        short = omega (arith, v.short);
        clocks = λ l. ground (
          arith,
          v.clocks l,
          v.clocks lock_id,
          v.short,
          count-le-length l s.history,
          count-le-length lock_id s.history,
        );
        doing = λ t. elim (Bool-cases (tid == t)) [
          | inl same ↦ rw same (
              subst (λ t. Doing recorded ((tid, lock_id) ∷ s.history) t (s.gate.files t) none)
                ((==_iff tid t).0 same)
                (
                  here.0,
                  here.1
                      ∙ ap (λ m. here.0 ++ m)
                          (sym (marks-same tid tid lock_id s.history ((==_iff tid tid).1 refl))),
                  here.2,
                ))
          | inr other ↦ rw other (
              Doing-other recorded s.history tid lock_id t (s.gate.files t)
                (outermost (s.sections t)) other
                (λ inside. cc (
                  other,
                  (==_iff tid t).1 (
                      Doing-alone recorded s.history tid t lock_id (s.gate.files tid)
                        (s.gate.files t) here
                        (subst (Doing recorded s.history t (s.gate.files t)) inside (v.doing t))),
                ))
                (v.doing t))
        ];
      }
