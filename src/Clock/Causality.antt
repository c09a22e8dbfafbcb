-- ===== src/Clock/Causality.antt =====
-- src/rempi/rempi_clock.cpp in every process: a message's clock is above those of its causal past.
use re_mpi.Common.{
  update, ℕ, suc, ◌+◌, ◌<◌, ◌≤◌, ◌≡◌, Bool, none, List, [], ◌∷◌, ◌++◌, arith, All, All-append,
  All-append_parts, ok, ok-injective, ◌==◌, Bool-cases, inl, inr,
}
use mathlib.Core.Path.{subst}
use re_mpi.Clock.{
  clock_mod, initial_clock, recv_request, sync_clock, matched_request_index, sync_one, sync_loop,
  sync_clocks, mpi_isend,
}

-- A message: its sender's clock at the send, and the clocks of the messages sent before it, on its
-- sender or before a receive there, and so on.
pub record Message : Type 0 where
  pub clock : ℕ
  pub past : List ℕ

-- A process: its local clock, and the clocks of the messages in its causal past.
pub record Process : Type 0 where
  pub local_clock : ℕ
  pub past : List ℕ

-- All processes by rank, and all messages sent.
pub record System : Type 0 where
  pub processes : ℕ → Process
  pub sent : List Message

abbrev pub start_system : System
start_system = record {
  processes = λ _. record { local_clock = initial_clock; past = [] };
  sent = [];
}

-- A matching function that returns one message.
abbrev pub SyncMessage : Bool → Message → Process → ℕ → Type 0
SyncMessage rep m p c =
    sync_clocks rep 1
      (record { array_of_indices = none; clock = m.clock ∷ []; request_info = recv_request ∷ [] })
      p.local_clock
    ≡ ok c

-- `rank` sends, receives a message sent before, or calls a matching function that returns none.
pub data Step (rep : Bool) (s : System) : System → Type 0 where
  send :
      (rank : ℕ)
      → Step rep s (record {
        processes = update s.processes rank (record {
          local_clock = mpi_isend (s.processes rank).local_clock;
          past = (s.processes rank).local_clock ∷ (s.processes rank).past;
        });
        sent =
            record { clock = (s.processes rank).local_clock; past = (s.processes rank).past }
            ∷ s.sent;
      })
  receive :
      (rank : ℕ) (before after : List Message) (m : Message) {c : ℕ}
      → s.sent ≡ before ++ m ∷ after
      → SyncMessage rep m (s.processes rank) c
      → Step rep s (record s {
        processes =
            update s.processes rank
              (record { local_clock = c; past = (m.clock ∷ m.past) ++ (s.processes rank).past });
      })
  poll :
      (rank : ℕ) {c : ℕ}
      → sync_clocks rep 0
          (record { array_of_indices = none; clock = []; request_info = [] })
          (s.processes rank).local_clock
        ≡ ok c
      → Step rep s (record s {
        processes =
            update s.processes rank (record { local_clock = c; past = (s.processes rank).past });
      })

-- States after so many steps.
pub data Reach (rep : Bool) : ℕ → System → Type 0 where
  start : Reach rep 0 start_system
  next : {n : ℕ} {s t : System} → Reach rep n s → Step rep s t → Reach rep (suc n) t

abbrev pub Below : ℕ → ℕ → Type 0
Below c x = x < c

-- A message is above its past and not above the bound of the clocks.
pub record IsCausal (bound : ℕ) (m : Message) : Type 0 where
  pub above : All (Below m.clock) m.past
  pub small : m.clock ≤ bound

record IsAhead (bound : ℕ) (p : Process) : Type 0 where
  above : All (Below p.local_clock) p.past
  small : p.local_clock ≤ bound

record Inv (bound : ℕ) (s : System) : Type 0 where
  processes : (rank : ℕ) → IsAhead bound (s.processes rank)
  messages : All (IsCausal bound) s.sent

Below-weaken : {c d : ℕ} (xs : List ℕ) → c ≤ d → All (Below c) xs → All (Below d) xs
Below-weaken [] le h = tt
Below-weaken (x ∷ xs) le h = (omega (arith, h.0), Below-weaken xs le h.1)

IsCausal-weaken :
    (bound : ℕ) (ms : List Message) → All (IsCausal bound) ms → All (IsCausal (suc bound)) ms
IsCausal-weaken bound [] h = tt
IsCausal-weaken bound (m ∷ ms) h =
    (record { above = h.0.above; small = omega (arith, h.0.small) }, IsCausal-weaken bound ms h.1)

-- One process moves on to a clock that is not below, and at most one above the bound.
update-IsAhead :
    (bound : ℕ) (processes : ℕ → Process) (rank : ℕ) (p : Process)
    → ((r : ℕ) → IsAhead bound (processes r))
    → IsAhead (suc bound) p
    → (r : ℕ) → IsAhead (suc bound) (update processes rank p r)
update-IsAhead bound processes rank p all one r = elim (Bool-cases (rank == r)) [
  | inl same ↦ rw same one
  | inr other ↦ rw other (record { above = (all r).above; small = omega (arith, (all r).small) })
]

Step-Inv :
    {rep : Bool} {s t : System} (bound : ℕ)
    → suc bound < clock_mod
    → Step rep s t
    → Inv bound s
    → Inv (suc bound) t
unfolding mpi_isend sync_clocks sync_loop sync_one sync_clock matched_request_index
Step-Inv {s = s} bound short (send rank) v =
    let p = v.processes rank in
    let c : mpi_isend (s.processes rank).local_clock ≡ suc (s.processes rank).local_clock =
      omega (arith, p.small) in
    record {
      processes = update-IsAhead bound s.processes rank _ v.processes (record {
        above = (omega (arith, c), Below-weaken (s.processes rank).past (omega (arith, c)) p.above);
        small = omega (arith, c, p.small);
      });
      messages = (
        record { above = p.above; small = omega (arith, p.small) },
        IsCausal-weaken bound s.sent v.messages,
      );
    }
Step-Inv {s = s} bound short (receive rank before after m {c} shape done) v =
    let p = v.processes rank in
    let (_, there) =
      All-append_parts (IsCausal bound) before (m ∷ after)
        (subst (All (IsCausal bound)) shape v.messages) in
    let k = there.0 in
    let above : (m.clock < c) × ((s.processes rank).local_clock < c) × (c ≤ suc bound) =
      ground (arith, ok-injective done, k.small, p.small) in
    record {
      processes = update-IsAhead bound s.processes rank _ v.processes (record {
        above = (
          above.0,
          All-append (Below c) m.past (s.processes rank).past
              (Below-weaken m.past (omega (arith, above.0)) k.above)
              (Below-weaken (s.processes rank).past (omega (arith, above.1)) p.above),
        );
        small = above.2;
      });
      messages = IsCausal-weaken bound s.sent v.messages;
    }
Step-Inv {rep} {s} bound short (poll rank {c} done) v =
    let p = v.processes rank in
    let above : ((s.processes rank).local_clock ≤ c) × (c ≤ suc bound) =
      ground (arith, ok-injective done, p.small) in
    record {
      processes = update-IsAhead bound s.processes rank _ v.processes (record {
        above = Below-weaken (s.processes rank).past above.0 p.above;
        small = above.1;
      });
      messages = IsCausal-weaken bound s.sent v.messages;
    }

Reach-Inv :
    {rep : Bool} {n : ℕ} {s : System}
    → Reach rep n s
    → initial_clock + n < clock_mod
    → Inv (initial_clock + n) s
Reach-Inv start short = record {
  processes = λ _. record { above = tt; small = omega arith };
  messages = tt;
}
Reach-Inv (next {n} {s} {t} r st) short =
    let v = Step-Inv (initial_clock + n) (omega arith) st (Reach-Inv r (omega arith)) in
    subst (λ b. Inv b t) {x = suc (initial_clock + n)} {y = initial_clock + suc n} (omega arith) v

-- Whatever the processes send, receive and poll, as long as the number of steps leaves the 64-bit
-- clocks room: every message sent has a clock above those of all messages in its causal past, and at
-- most the initial clock plus the number of steps.
pub Reach-IsCausal :
    {rep : Bool} {n : ℕ} {s : System}
    → Reach rep n s
    → initial_clock + n < clock_mod
    → All (IsCausal (initial_clock + n)) s.sent
Reach-IsCausal r short = (Reach-Inv r short).messages
