-- ===== src/Gate/Replay/Progress.antt =====
-- src/reomp/reomp_gate_clock.cpp: a replay of clock gates never has all its threads waiting.
use mathlib.Core.Path.{subst}
use mathlib.Core.List.{Memᴰ}
use mathlib.Core.Option.{some-injective}
use re_mpi.Common.{
  ℕ, ◌^◌, ◌<◌, ◌≤◌, ◌≡◌, refl, sym, ap, ◌∙◌, true, false, some, List, [], ◌∷◌, ◌++◌, map,
  map-append, append_assoc, ◌==◌, ==_iff, ltb, Bool-cases, ◌⊎◌, inl, inr, arith, length, ok,
}
use re_mpi.Gate.{Gate, replaying}
use re_mpi.Gate.Ticket.{gate_in}
use re_mpi.Gate.Record
use re_mpi.Gate.Record.{Session, outermost, count}
use re_mpi.Gate.Record.Moves.{IsInside, count-le-length}
use re_mpi.Gate.Record.Tickets.{Reach-IsRecorded}
use re_mpi.Gate.Replay.{marks, IsNext, Reach}
use re_mpi.Gate.Replay.Effect.{passed}
use re_mpi.Gate.Replay.Marks.{
  ticket_bytes, holder-marks, marks-holder, marks-same, marks-other, Mem-cases,
}
use re_mpi.Gate.Replay.Moves.{Doing, IsReplaying, mem_middle}
use re_mpi.Gate.Replay.Order.{NextMark, gate_in_next, Reach-IsReplaying, Doing-Mem, mem_behind}

-- No mark of a thread stands twice in a history.
not_twice :
    {x : ℕ × ℕ} (tid : ℕ) (h : List (ℕ × ℕ)) (a b : List (ℕ × ℕ))
    → marks tid h ≡ a ++ b
    → Memᴰ x a
    → ¬ Memᴰ x b
unfolding marks
not_twice {x} tid h [] b e m = absurd (elim m [ ])
not_twice {x} tid [] (y ∷ a) b e m = absurd (cc)
not_twice {x} tid ((t, l) ∷ h) (y ∷ a) b e m = elim (Bool-cases (t == tid)) [
  | inl same ↦
      (let whole : (l, count l h) ∷ marks tid h ≡ y ∷ (a ++ b) =
          sym (marks-same tid t l h same) ∙ e in
        let first : (l, count l h) ≡ y = cc (whole) in
        let behind : marks tid h ≡ a ++ b = cc (whole) in
        elim (Mem-cases m) [
          | inl this ↦ λ again.
              let low =
                (holder-marks tid l (count l h) h (
                  subst (λ p. Memᴰ p (marks tid h)) (this ∙ sym first)
                    (subst (Memᴰ x) (sym behind) (mem_behind a b again)))).0 in
              omega (arith, low)
          | inr later ↦ not_twice tid h a b behind later
        ])
  | inr other ↦ not_twice tid h (y ∷ a) b (sym (marks-other tid t l h other) ∙ e) m
]

-- The marks of a history end with those of its older part.
marks-append :
    (tid : ℕ) (newer h : List (ℕ × ℕ))
    → (a : List (ℕ × ℕ)) × (marks tid (newer ++ h) ≡ a ++ marks tid h)
unfolding marks
marks-append tid [] h = ([], refl)
marks-append tid ((t, l) ∷ newer) h =
    let (a, e) = marks-append tid newer h in
    elim (Bool-cases (t == tid)) [
      | inl same ↦ (
        (l, count l (newer ++ h)) ∷ a,
        marks-same tid t l (newer ++ h) same ∙ ap (λ q. (l, count l (newer ++ h)) ∷ q) e,
      )
      | inr other ↦ (a, marks-other tid t l (newer ++ h) other ∙ e)
    ]

-- Where a mark stands in two splits of one list.
split_cases :
    (rest d a e : List (ℕ × ℕ)) (x : ℕ × ℕ)
    → rest ++ d ≡ a ++ (x ∷ e)
    → Memᴰ x d ⊎ ((q : List (ℕ × ℕ)) × (rest ≡ a ++ (x ∷ q)) × (e ≡ q ++ d))
split_cases [] d a e x h = inl (subst (Memᴰ x) (sym h) (mem_middle a x e))
split_cases (y ∷ rest) d [] e x h = inr (rest, cc (h), cc (h))
split_cases (y ∷ rest) d (z ∷ a) e x h = elim (split_cases rest d a e x (cc (h))) [
  | inl m ↦ inl m
  | inr (q, shape, behind) ↦ inr (q, cc (h, shape), behind)
]

-- What can happen next: a thread is inside a section, which it can leave, or one that is outside
-- passes the gate to a section of its next lock.
abbrev pub CanProceed : (num_threads : ℕ) (recorded : List (ℕ × ℕ)) → Session → Type 0
CanProceed num_threads recorded s =
    (tid lock_id : ℕ) × (IsInside s tid lock_id
      ⊎ ((s.sections tid ≡ [])
          × IsNext recorded s.history tid lock_id []
          × ((g : Gate) × (gate_in replaying num_threads tid lock_id s.gate ≡ ok g))))

outermost_cases : (ls : List ℕ) → (ls ≡ []) ⊎ ((l : ℕ) × (outermost ls ≡ some l))
outermost_cases [] = inl refl
outermost_cases (l ∷ []) = inr (l, refl)
outermost_cases (l ∷ k ∷ ls) = elim (outermost_cases (k ∷ ls)) [
  | inl empty ↦ absurd (cc (empty))
  | inr inside ↦ inr inside
]

module _ (num_threads : ℕ) (parallel : (num_threads == 1) ≡ false) (recorded : List (ℕ × ℕ))
    (brief : length recorded < 2 ^ 31) (n : ℕ) (s : Session) (v : IsReplaying recorded n s) where
  -- A recorded section whose number has come has been left by the same thread.
  is_done :
      (tid l c : ℕ)
      → Memᴰ (l, c) (marks tid recorded)
      → c < count l s.history
      → Memᴰ (l, c) (marks tid s.history)
  is_done tid l c m low =
      let (t, there) = marks-holder l c s.history low in
      let again =
        Doing-Mem recorded s.history t (s.gate.files t) (outermost (s.sections t)) (v.doing t)
          there in
      subst (λ t. Memᴰ (l, c) (marks t s.history))
        (some-injective t tid
          (sym (holder-marks t l c recorded again).1 ∙ (holder-marks tid l c recorded m).1))
        there

  passes :
      (tid l : ℕ)
      → s.sections tid ≡ []
      → (m : NextMark recorded s tid l) → m.number ≡ count l s.history
      → CanProceed num_threads recorded s
  passes tid l none_open m number =
      let now : (m.number == s.gate.current_clocks l) ≡ true =
        (==_iff m.number (s.gate.current_clocks l)).1 (number ∙ sym (v.clocks l)) in
      (
        tid,
        l,
        inr (
          none_open,
          (
            map (λ p. p.0) m.before,
            ap (map (λ p. p.0)) m.split
                ∙ map-append (λ p. p.0) m.before ((l, m.number) ∷ marks tid s.history),
          ),
          (
            passed tid (ticket_bytes m.before) s.gate,
            gate_in_next num_threads parallel recorded brief n s tid l v none_open m ∙ rw now refl,
          ),
        ),
      )

  -- An idle thread whose oldest section that is not left is the lock's next one.
  idle :
      (tid l : ℕ) (newer older : List (ℕ × ℕ))
      → recorded ≡ newer ++ ((tid, l) ∷ older)
      → ((k : ℕ) → count k older ≤ count k s.history)
      → count l s.history ≡ count l older
      → s.sections tid ≡ []
      → CanProceed num_threads recorded s
  idle tid l newer older whole below level none_open =
      let (rest, split, file) =
        subst (λ ls. Doing recorded s.history tid (s.gate.files tid) (outermost ls)) none_open
          (v.doing tid) in
      let (a, behind) = marks-append tid newer ((tid, l) ∷ older) in
      let mark : marks tid recorded ≡ a ++ ((l, count l older) ∷ marks tid older) =
        ap (marks tid) whole
        ∙ behind
        ∙ ap (λ q. a ++ q) (marks-same tid tid l older ((==_iff tid tid).1 refl)) in
      elim (split_cases rest (marks tid s.history) a (marks tid older) (l, count l older)
        (sym split ∙ mark)) [
          | inl early ↦
              let low = (holder-marks tid l (count l older) s.history early).0 in
              absurd (omega arith)
          | inr (q, shape, rest_of_older) ↦
              idle_next tid l a older rest q split file mark shape rest_of_older below level
                none_open
        ]
    where
      idle_next :
          (tid l : ℕ) (a older rest q : List (ℕ × ℕ))
          → marks tid recorded ≡ rest ++ marks tid s.history
          → s.gate.files tid ≡ ticket_bytes rest
          → marks tid recorded ≡ a ++ ((l, count l older) ∷ marks tid older)
          → rest ≡ a ++ ((l, count l older) ∷ q)
          → marks tid older ≡ q ++ marks tid s.history
          → ((k : ℕ) → count k older ≤ count k s.history)
          → count l s.history ≡ count l older
          → s.sections tid ≡ []
          → CanProceed num_threads recorded s
      idle_next tid l a older rest [] split file mark shape same below level none_open =
          passes tid l none_open
            (record {
              before = a;
              number = count l older;
              split = mark ∙ ap (λ e. a ++ ((l, count l older) ∷ e)) same;
              file = sym (file ∙ ap ticket_bytes shape);
              small =
                  let low =
                    (holder-marks tid l (count l older) recorded (
                      subst (Memᴰ (l, count l older)) (sym mark)
                        (mem_middle a (l, count l older) (marks tid older)))).0 in
                  omega (arith, low, count-le-length l recorded);
            })
            (sym level)
      idle_next tid l a older rest ((k, c) ∷ q) split file mark shape same below level none_open =
          let of_older = subst (Memᴰ (k, c)) (sym same) (Memᴰ.head refl) in
          let low = (holder-marks tid k c older of_older).0 in
          let of_rest =
            subst (Memᴰ (k, c)) (sym shape)
              (mem_behind a ((l, count l older) ∷ (k, c) ∷ q) (Memᴰ.tail (Memᴰ.head refl))) in
          let of_recorded =
            subst (Memᴰ (k, c)) (sym mark)
              (mem_behind a ((l, count l older) ∷ marks tid older) (Memᴰ.tail of_older)) in
          absurd (
            not_twice tid recorded rest (marks tid s.history) split of_rest
              (is_done tid k c of_recorded (omega (arith, low, below k))))

  -- The oldest section that is not left, of the older part of the recorded history.
  search_older :
      (newer older : List (ℕ × ℕ))
      → recorded ≡ newer ++ older
      → CanProceed num_threads recorded s ⊎ ((k : ℕ) → count k older ≤ count k s.history)
  unfolding count
  search_older newer [] whole = inr (λ k. omega arith)
  search_older newer ((tid, l) ∷ older) whole =
      let rest =
        search_older (newer ++ ((tid, l) ∷ [])) older
          (whole ∙ sym (append_assoc newer ((tid, l) ∷ []) older)) in
      elim rest [
        | inl can ↦ inl can
        | inr below ↦ elim (Bool-cases (ltb (count l older) (count l s.history))) [
          | inl left ↦ inr (λ k. ground (arith, below k))
          | inr level ↦ elim (outermost_cases (s.sections tid)) [
            | inl none_open ↦
                inl (idle tid l newer older whole below (ground (arith, below l)) none_open)
            | inr (k, inside) ↦ inl (tid, k, inl inside)
          ]
        ]
      ]

-- Two threads or more record in fewer than `2 ^ 31` calls of the gate, and replay from the files that are
-- left, in fewer than `2 ^ 31` calls in any order, each entering outermost sections of the locks that it
-- entered when recording. As long as fewer sections of some lock have been left than in the recording, not
-- all threads wait: one is inside an outermost section, or one that is outside passes the gate to a
-- section of the lock that it entered next when recording.
pub Reach-CanProceed :
    {previous previous' : ℕ → ℕ → ℕ} (num_threads m n lock_id : ℕ) (r s : Session)
    → (num_threads == 1) ≡ false
    → Record.Reach num_threads previous m r
    → m < 2 ^ 31
    → Reach num_threads r.history previous' r.gate.files n s
    → n < 2 ^ 31
    → count lock_id s.history < count lock_id r.history
    → CanProceed num_threads r.history s
Reach-CanProceed num_threads m n lock_id r s parallel recording short replay short' behind =
    let w = Reach-IsRecorded num_threads parallel recording short in
    let few = w.short in
    let v = Reach-IsReplaying num_threads parallel r.history (omega arith) w.files replay short' in
    elim (search_older num_threads parallel r.history (omega arith) n s v [] r.history refl) [
      | inl can ↦ can
      | inr below ↦ absurd (omega (arith, below lock_id))
    ]
