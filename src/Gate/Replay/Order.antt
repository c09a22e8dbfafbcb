-- ===== src/Gate/Replay/Order.antt =====
-- src/reomp/reomp_gate_clock.cpp: a replay leaves the sections of each lock in the recorded order.
use mathlib.Core.Path.{subst}
use mathlib.Core.List.{Memᴰ}
use re_mpi.Common.{
  update, ℕ, suc, ◌^◌, ◌<◌, ◌≡◌, refl, sym, ap, ◌∙◌, true, false, Option, none, some, List, [], ◌∷◌,
  ◌++◌, ◌==◌, ==_iff, if◌then◌else◌, Bool-cases, append_assoc, inl, inr, arith, length, Run, spin,
  ok, ok-injective, append-nil,
}
use re_mpi.Common.Bytes.{Bytes}
use re_mpi.Gate.{Gate, is_positive, decreased, replaying}
use re_mpi.Gate.Ticket.{gate_in}
use re_mpi.Gate.Record
use re_mpi.Gate.Record.{Session, outermost, count, tickets}
use re_mpi.Gate.Record.Moves.{IsInside, count-le-length}
use re_mpi.Gate.Record.Tickets.{sections_cases, Reach-IsRecorded}
use re_mpi.Gate.Replay.{marks, holder, IsNext, Step, enter, exit, Reach, start, next}
use re_mpi.Gate.Replay.Effect.{
  gate_in_nested, gate_in_outermost, gate_out_nested, gate_out_outermost, passed,
}
use re_mpi.Gate.Replay.Marks.{
  ticket_bytes, tickets-marks, ticket_bytes-append, holder-marks, marks-holder, next_mark,
}
use re_mpi.Gate.Replay.Moves.{
  Doing, Doing-alone, IsReplaying, enter_inner, enter_first, exit_inner, exit_last, mem_middle,
}

-- The mark that a thread takes next.
pub record NextMark (recorded : List (ℕ × ℕ)) (s : Session) (tid lock_id : ℕ) : Type 0 where
  pub before : List (ℕ × ℕ)
  pub number : ℕ
  pub split : marks tid recorded ≡ before ++ ((lock_id, number) ∷ marks tid s.history)
  pub file : ticket_bytes (before ++ ((lock_id, number) ∷ [])) ≡ s.gate.files tid
  pub small : number < length recorded

pub next-NextMark :
    (recorded : List (ℕ × ℕ)) (n : ℕ) (s : Session) (tid lock_id : ℕ)
    → IsReplaying recorded n s
    → s.sections tid ≡ []
    → IsNext recorded s.history tid lock_id []
    → NextMark recorded s tid lock_id
next-NextMark recorded n s tid lock_id v none_open (later, follows) =
    let (rest, split, file) =
      subst (λ ls. Doing recorded s.history tid (s.gate.files tid) (outermost ls)) none_open
        (v.doing tid) in
    let (before, number, shape) =
      next_mark tid lock_id recorded s.history rest later split follows in
    let whole : marks tid recorded ≡ before ++ ((lock_id, number) ∷ marks tid s.history) =
      split
      ∙ ap (λ r. r ++ marks tid s.history) shape
      ∙ append_assoc before ((lock_id, number) ∷ []) (marks tid s.history) in
    let low =
      (holder-marks tid lock_id number recorded (
        subst (Memᴰ (lock_id, number)) (sym whole)
          (mem_middle before (lock_id, number) (marks tid s.history)))).0 in
    record {
      before = before;
      number = number;
      split = whole;
      file = sym (file ∙ ap ticket_bytes shape);
      small = omega (arith, low, count-le-length lock_id recorded);
    }

module _ (num_threads : ℕ) (parallel : (num_threads == 1) ≡ false) (recorded : List (ℕ × ℕ))
    (brief : length recorded < 2 ^ 31) where
  -- A first section is entered when its mark has the number of the lock's clock.
  pub gate_in_next :
      (n : ℕ) (s : Session) (tid lock_id : ℕ)
      → IsReplaying recorded n s
      → s.sections tid ≡ []
      → (m : NextMark recorded s tid lock_id)
      → gate_in replaying num_threads tid lock_id s.gate ≡ (
          if m.number == s.gate.current_clocks lock_id
          then ok (passed tid (ticket_bytes m.before) s.gate)
          else spin)
  gate_in_next n s tid lock_id v none_open m =
      let outside : is_positive (s.gate.nest_num tid) ≡ false =
        ground (arith, v.nest tid, ap length none_open) in
      gate_in_outermost num_threads parallel tid lock_id s.gate m.number (ticket_bytes m.before)
        outside (sym m.file ∙ ticket_bytes-append m.before lock_id m.number)
        (let low = m.small in omega arith)

  enter-first :
      {g : Gate} (n : ℕ) (s : Session) (tid lock_id : ℕ)
      → suc n < 2 ^ 31
      → IsReplaying recorded n s
      → s.sections tid ≡ []
      → NextMark recorded s tid lock_id
      → gate_in replaying num_threads tid lock_id s.gate ≡ ok g
      → IsReplaying recorded
          (suc n)
          (record s { gate = g; sections = update s.sections tid (lock_id ∷ s.sections tid) })
  enter-first {g} n s tid lock_id small v none_open m done =
      let turn = gate_in_next n s tid lock_id v none_open m in
      elim (Bool-cases (m.number == s.gate.current_clocks lock_id)) [
        | inl now ↦
            (let whole : ok (passed tid (ticket_bytes m.before) s.gate) ≡ ok g =
                sym (turn ∙ rw now refl) ∙ done in
              let number : m.number ≡ count lock_id s.history =
                (==_iff m.number (s.gate.current_clocks lock_id)).0 now ∙ v.clocks lock_id in
              subst
                (λ g. IsReplaying recorded (suc n) (record s {
                  gate = g;
                  sections = update s.sections tid (lock_id ∷ s.sections tid);
                }))
                (ok-injective whole)
                (enter_first recorded n small s v tid lock_id m.before none_open
                  (m.split ∙ ap (λ c. m.before ++ ((lock_id, c) ∷ marks tid s.history)) number)))
        | inr later ↦
            let waits : ◌≡◌ {A = Run Gate} spin (ok g) = sym (turn ∙ rw later refl) ∙ done in
            absurd (cc (waits))
      ]

  Step-IsReplaying :
      {s t : Session} (n : ℕ)
      → suc n < 2 ^ 31
      → Step num_threads recorded s t
      → IsReplaying recorded n s
      → IsReplaying recorded (suc n) t
  Step-IsReplaying {s} n small (enter tid lock_id {g} follows done) v =
      elim (sections_cases num_threads parallel (s.sections tid)) [
        | inl none_open ↦
            enter-first n s tid lock_id small v none_open
              (next-NextMark recorded n s tid lock_id v none_open
                (subst (IsNext recorded s.history tid lock_id) none_open follows))
              done
        | inr inside ↦
            let positive : is_positive (s.gate.nest_num tid) ≡ true =
              ground (arith, v.nest tid, v.depth tid) in
            subst
              (λ g. IsReplaying recorded (suc n) (record s {
                gate = g;
                sections = update s.sections tid (lock_id ∷ s.sections tid);
              }))
              (ok-injective
                (sym (gate_in_nested num_threads parallel tid lock_id s.gate positive) ∙ done))
              (enter_inner recorded n small s v tid lock_id inside)
      ]
  Step-IsReplaying {s} n small (exit tid lock_id [] open_sections) v =
      let outside : is_positive (decreased (s.gate.nest_num tid)) ≡ false =
        ground (arith, v.nest tid, ap length open_sections) in
      subst
        (λ g. IsReplaying recorded (suc n) (record {
          gate = g;
          sections = update s.sections tid [];
          history = (tid, lock_id) ∷ s.history;
        }))
        (sym (gate_out_outermost num_threads parallel tid lock_id s.gate outside))
        (exit_last recorded n small s v tid lock_id open_sections)
  Step-IsReplaying {s} n small (exit tid lock_id (l ∷ outer) open_sections) v =
      let inside : is_positive (decreased (s.gate.nest_num tid)) ≡ true =
        ground (arith, v.nest tid, v.depth tid, ap length open_sections) in
      subst
        (λ g.
          IsReplaying recorded (suc n)
            (record s { gate = g; sections = update s.sections tid (l ∷ outer) }))
        (sym (gate_out_nested num_threads parallel tid lock_id s.gate inside))
        (exit_inner recorded n small s v tid lock_id (l ∷ outer) open_sections (omega arith))

  pub Reach-IsReplaying :
      {previous : ℕ → ℕ → ℕ} {files : ℕ → Bytes} {n : ℕ} {s : Session}
      → ((tid : ℕ) → files tid ≡ tickets tid recorded)
      → Reach num_threads recorded previous files n s
      → n < 2 ^ 31
      → IsReplaying recorded n s
  unfolding marks count
  Reach-IsReplaying of start short = record {
    nest = λ tid. refl;
    depth = λ tid. omega arith;
    short = omega arith;
    clocks = λ lock_id. refl;
    doing = λ tid. (
      marks tid recorded,
      sym (append-nil (marks tid recorded)),
      of tid ∙ tickets-marks tid recorded,
    );
  }
  Reach-IsReplaying of (next {n} r st) short =
      Step-IsReplaying n (omega arith) st (Reach-IsReplaying of r (omega arith))

-- What a replay has done so far, beside the recorded history.
pub record IsReplay (recorded : List (ℕ × ℕ)) (s : Session) : Type 0 where
  pub order :
      (lock_id c : ℕ)
      → c < count lock_id s.history
      → (tid : ℕ) × (holder lock_id c s.history ≡ some tid) × (holder lock_id c recorded ≡ some tid)
  pub turn :
      (tid lock_id : ℕ)
      → IsInside s tid lock_id
      → holder lock_id (count lock_id s.history) recorded ≡ some tid
  pub alone :
      (tid other lock_id : ℕ) → IsInside s tid lock_id → IsInside s other lock_id → tid ≡ other

pub mem_behind : {x : ℕ × ℕ} (xs ys : List (ℕ × ℕ)) → Memᴰ x ys → Memᴰ x (xs ++ ys)
mem_behind [] ys m = m
mem_behind (y ∷ xs) ys m = Memᴰ.tail (mem_behind xs ys m)

-- The sections that a thread has left are sections that it left when it was recorded.
pub Doing-Mem :
    {x : ℕ × ℕ} (recorded history : List (ℕ × ℕ)) (tid : ℕ) (f : Bytes) (o : Option ℕ)
    → Doing recorded history tid f o
    → Memᴰ x (marks tid history)
    → Memᴰ x (marks tid recorded)
Doing-Mem {x} recorded history tid f none (rest, split, _) m =
    subst (Memᴰ x) (sym split) (mem_behind rest (marks tid history) m)
Doing-Mem {x} recorded history tid f (some l) (rest, split, _) m =
    subst (Memᴰ x) (sym split)
      (mem_behind rest ((l, count l history) ∷ marks tid history) (Memᴰ.tail m))

IsReplaying-IsReplay :
    (recorded : List (ℕ × ℕ)) (n : ℕ) (s : Session) → IsReplaying recorded n s → IsReplay recorded s
IsReplaying-IsReplay recorded n s v =
    let busy = λ (t l : ℕ) (i : IsInside s t l).
      subst (Doing recorded s.history t (s.gate.files t)) i (v.doing t) in
    record {
      order = λ l c low.
          let (t, m) = marks-holder l c s.history low in
          (
            t,
            (holder-marks t l c s.history m).1,
            (holder-marks t l c recorded (
                Doing-Mem recorded s.history t (s.gate.files t) (outermost (s.sections t))
                  (v.doing t) m)).1,
          );
      turn = λ t l i.
          let (rest, split, _) = busy t l i in
          (holder-marks t l (count l s.history) recorded (
            subst (Memᴰ (l, count l s.history)) (sym split)
              (mem_middle rest (l, count l s.history) (marks t s.history)))).1;
      alone = λ t u l i j.
          Doing-alone recorded s.history t u l (s.gate.files t) (s.gate.files u) (busy t l i)
            (busy u l j);
    }

-- Two threads or more record in fewer than `2 ^ 31` calls of the gate. They replay from the files that
-- are left, in fewer than `2 ^ 31` calls in any order, each entering outermost sections of the locks that
-- it entered when recording. Then the sections of each lock that have been left were left by the threads
-- that left them in the recording, one after the other; a thread inside an outermost section of a lock is
-- the one that comes next in the recording; and no two are inside outermost sections of the same lock.
pub Reach-IsReplay :
    {previous previous' : ℕ → ℕ → ℕ} (num_threads m n : ℕ) (r s : Session)
    → (num_threads == 1) ≡ false
    → Record.Reach num_threads previous m r
    → m < 2 ^ 31
    → Reach num_threads r.history previous' r.gate.files n s
    → n < 2 ^ 31
    → IsReplay r.history s
Reach-IsReplay num_threads m n r s parallel recording short replay short' =
    let v = Reach-IsRecorded num_threads parallel recording short in
    let few = v.short in
    IsReplaying-IsReplay r.history n s
      (Reach-IsReplaying num_threads parallel r.history (omega arith) v.files replay short')
