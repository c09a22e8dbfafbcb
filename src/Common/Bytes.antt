-- ===== src/Common/Bytes.antt =====
-- Little-endian bytes of fixed-width words, as memcpy and fstream leave them on x86-64.
use re_mpi.Common.{
  ℕ, zero, suc, ◌+◌, ◌*◌, ◌/◌, ◌%◌, ◌^◌, ◌<◌, ◌≡◌, refl, ap, List, [], ◌∷◌, ◌++◌, arith, length,
  All,
}
use mathlib.Core.Path.{ap₂}

abbrev pub Bytes : Type 0
Bytes = List ℕ

unfoldable pub to_le : ℕ → ℕ → Bytes
to_le zero x = []
to_le (suc n) x = (x % 256) ∷ to_le n (x / 256)

unfoldable pub from_le : Bytes → ℕ
from_le [] = 0
from_le (b ∷ bs) = b + 256 * from_le bs

pub length-to_le : (n x : ℕ) → length (to_le n x) ≡ n
unfolding to_le
length-to_le zero x = refl
length-to_le (suc n) x = ap suc (length-to_le n (x / 256))

-- A buffer of `int`s, four bytes each, and the view of a buffer as `int`s. A tail shorter than four
-- bytes holds no `int`: `write_size / sizeof(int)` rounds down.
unfoldable pub int_bytes : List ℕ → Bytes
int_bytes [] = []
int_bytes (x ∷ xs) = to_le 4 x ++ int_bytes xs

unfoldable pub bytes_ints : Bytes → List ℕ
bytes_ints (a ∷ b ∷ c ∷ d ∷ rest) = from_le (a ∷ b ∷ c ∷ d ∷ []) ∷ bytes_ints rest
bytes_ints _ = []

abbrev pub IsInt : ℕ → Type 0
IsInt x = x < 2 ^ 32

pub bytes_ints-int_bytes : (xs : List ℕ) → All IsInt xs → bytes_ints (int_bytes xs) ≡ xs
unfolding bytes_ints int_bytes to_le from_le
bytes_ints-int_bytes [] h = refl
bytes_ints-int_bytes (x ∷ xs) h = ap₂ ◌∷◌ (omega arith) (bytes_ints-int_bytes xs h.1)

pub length-int_bytes : (xs : List ℕ) → length (int_bytes xs) ≡ 4 * length xs
unfolding int_bytes to_le
length-int_bytes [] = refl
length-int_bytes (x ∷ xs) = omega (arith, length-int_bytes xs)

pub int_bytes-append : (xs ys : List ℕ) → int_bytes (xs ++ ys) ≡ int_bytes xs ++ int_bytes ys
unfolding int_bytes to_le
int_bytes-append [] ys = refl
int_bytes-append (x ∷ xs) ys = rw (int_bytes-append xs ys)

-- `sizeof(size_t)` bytes.
pub from_le-to_le_eight : (x : ℕ) → x < 2 ^ 64 → from_le (to_le 8 x) ≡ x
unfolding from_le to_le
from_le-to_le_eight x h = omega arith
