-- ===== src/Gate/Replay/Marks.antt =====
-- src/reomp/reomp_gate_clock.cpp when replaying: a history, its marks and its tickets.
use mathlib.Core.Path.{subst, ap₂}
use mathlib.Core.List.{Memᴰ, append_cancel_right}
use re_mpi.Common.{
  ℕ, ◌<◌, ◌≡◌, refl, sym, ap, ◌∙◌, true, false, Bool-cases, some, ◌⊎◌, inl, inr, List, [], ◌∷◌,
  ◌++◌, map, append_assoc, append-nil, map-append, ◌==◌, ==_iff, ◌&&◌, arith,
}
use re_mpi.Common.Bytes.{Bytes, to_le}
use re_mpi.Gate.Record.{count, tickets}
use re_mpi.Gate.Replay.{marks, locks, holder}

-- The tickets of marks, first one first.
abbrev pub ticket_bytes : List (ℕ × ℕ) → Bytes
ticket_bytes [] = []
ticket_bytes ((l, c) ∷ ms) = ticket_bytes ms ++ to_le 4 c

pub tickets-marks : (tid : ℕ) (h : List (ℕ × ℕ)) → tickets tid h ≡ ticket_bytes (marks tid h)
unfolding tickets marks
tickets-marks tid [] = refl
tickets-marks tid ((t, l) ∷ h) = ground (arith, tickets-marks tid h)

pub ticket_bytes-append :
    (ms : List (ℕ × ℕ)) (l c : ℕ)
    → ticket_bytes (ms ++ ((l, c) ∷ [])) ≡ to_le 4 c ++ ticket_bytes ms
ticket_bytes-append [] l c = sym (append-nil (to_le 4 c))
ticket_bytes-append ((k, d) ∷ ms) l c =
    rw (ticket_bytes-append ms l c) (append_assoc (to_le 4 c) (ticket_bytes ms) (to_le 4 d))

pub Mem-cases : {x y : ℕ × ℕ} {ys : List (ℕ × ℕ)} → Memᴰ x (y ∷ ys) → (x ≡ y) ⊎ Memᴰ x ys
Mem-cases (Memᴰ.head e) = inl e
Mem-cases (Memᴰ.tail m) = inr m

pub marks-same :
    (tid t l : ℕ) (h : List (ℕ × ℕ))
    → (t == tid) ≡ true
    → marks tid ((t, l) ∷ h) ≡ (l, count l h) ∷ marks tid h
unfolding marks
marks-same tid t l h same = rw same refl

pub marks-other :
    (tid t l : ℕ) (h : List (ℕ × ℕ)) → (t == tid) ≡ false → marks tid ((t, l) ∷ h) ≡ marks tid h
unfolding marks
marks-other tid t l h other = rw other refl

pub no_marks : (tid : ℕ) (p : ℕ × ℕ) → ¬ Memᴰ p (marks tid [])
unfolding marks
no_marks tid p m = elim m [ ]

-- A mark of a thread says that the thread left the section of that number.
pub holder-marks :
    (tid l c : ℕ) (h : List (ℕ × ℕ))
    → Memᴰ (l, c) (marks tid h)
    → (c < count l h) × (holder l c h ≡ some tid)
unfolding holder count
holder-marks tid l c [] m = absurd (no_marks tid (l, c) m)
holder-marks tid l c ((t, k) ∷ h) m = elim (Bool-cases (t == tid)) [
  | inl same ↦ elim (Mem-cases (subst (Memᴰ (l, c)) (marks-same tid t k h same) m)) [
    | inl this ↦
        let lock : l ≡ k = ap (λ p. p.0) this in
        let number : c ≡ count k h = ap (λ p. p.1) this in ground (arith, lock, number)
    | inr before ↦ let ih = holder-marks tid l c h before in ground (arith, ih)
  ]
  | inr other ↦
      let ih = holder-marks tid l c h (subst (Memᴰ (l, c)) (marks-other tid t k h other) m) in
      ground (arith, ih)
]

-- The section of each number that is below a lock's count has a mark.
pub marks-holder :
    (l c : ℕ) (h : List (ℕ × ℕ)) → c < count l h → (tid : ℕ) × Memᴰ (l, c) (marks tid h)
unfolding count marks
marks-holder l c [] low = absurd (omega arith)
marks-holder l c ((t, k) ∷ h) low = elim (Bool-cases ((k == l) && (count k h == c))) [
  | inl this ↦
      let lock : l ≡ k = ground arith in
      let number : c ≡ count k h = ground arith in
      (t, rw ((==_iff t t).1 refl) (Memᴰ.head (ap₂ (λ a b. (a, b)) lock number)))
  | inr that ↦
      let (tid, m) = marks-holder l c h (ground arith) in
      (
        tid,
        elim (Bool-cases (t == tid)) [ inl same ↦ rw same (Memᴰ.tail m) | inr other ↦ rw other m ],
      )
]

last_of_map :
    (ms : List (ℕ × ℕ)) (later : List ℕ) (l : ℕ)
    → map (λ m. m.0) ms ≡ later ++ (l ∷ [])
    → (before : List (ℕ × ℕ)) × (c : ℕ) × (ms ≡ before ++ ((l, c) ∷ []))
last_of_map [] [] l h = absurd (cc)
last_of_map [] (k ∷ later) l h = absurd (cc)
last_of_map ((k, c) ∷ []) [] l h = ([], c, ap (λ x. (x, c) ∷ []) (ground arith))
last_of_map ((k, c) ∷ m ∷ ms) [] l h = absurd (cc)
last_of_map ((k, c) ∷ ms) (j ∷ later) l h =
    let (before, d, e) = last_of_map ms later l (cc) in ((k, c) ∷ before, d, ap (λ q. (k, c) ∷ q) e)

-- The first of the marks that are left is one of the thread's next lock.
pub next_mark :
    (tid l : ℕ) (recorded history rest : List (ℕ × ℕ)) (later : List ℕ)
    → marks tid recorded ≡ rest ++ marks tid history
    → locks tid recorded ≡ later ++ (l ∷ locks tid history)
    → (before : List (ℕ × ℕ)) × (c : ℕ) × (rest ≡ before ++ ((l, c) ∷ []))
next_mark tid l recorded history rest later split follows = last_of_map rest later l (
    append_cancel_right (map (λ m. m.0) rest) (later ++ (l ∷ [])) (locks tid history) (
      sym (map-append (λ m. m.0) rest (marks tid history))
      ∙ sym (ap (map (λ m. m.0)) split)
      ∙ follows
      ∙ sym (append_assoc later (l ∷ []) (locks tid history))))
