-- ===== src/Request/MsgId.antt =====
-- src/rempi/rempi_mpi_init.cpp: which messages have the same id.
use re_mpi.Common.{ℕ, ◌≡◌, ◌<◌, ◌∙◌, ap, ◌↔◌, dec_lt, arith}
use re_mpi.Request.{msg_id}

msg_id_same : (a b t u : ℕ) → t ≡ u → (t < 2147483648 → a ≡ b) → msg_id a t ≡ msg_id b u
unfolding msg_id
msg_id_same a b t u same h = elim (dec_lt t 2147483648) [
  | yes small ↦ ap (msg_id a) same ∙ ap (λ c. msg_id c u) (h small)
  | no large ↦ ground arith
]

-- For communicators' ids below `2 ^ 31` and 32-bit tags: two messages have the same id exactly when
-- they have the same tag and, where that is not negative, the same communicator. The wildcard
-- MPI_ANY_TAG, which is negative, has one id for all communicators.
pub msg_id_iff :
    (a b t u : ℕ)
    → a < 2147483648
    → b < 2147483648
    → t < 4294967296
    → u < 4294967296
    → (msg_id a t ≡ msg_id b u) ↔ ((t ≡ u) × (t < 2147483648 → a ≡ b))
unfolding msg_id
msg_id_iff a b t u small_a small_b small_t small_u =
    (λ h. (ground arith, λ positive. ground arith), λ h. msg_id_same a b t u h.0 h.1)
