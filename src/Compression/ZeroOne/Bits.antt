-- ===== src/Compression/ZeroOne/Bits.antt =====
-- src/rempi/rempi_compression_util.cpp: the loop over the bits of a byte.
use re_mpi.Common.{
  ℕ, zero, suc, ◌+◌, ◌-◌, ◌*◌, ◌/◌, ◌%◌, ◌^◌, ◌<◌, ◌≤◌, ◌≡◌, false, refl, ap, List, [], ◌∷◌, ◌==◌,
  if◌then◌else◌, arith,
}
use mathlib.Core.Path.{ap₂}
use re_mpi.Compression.ZeroOne.{sign, zero_one_loop, test_bit, bit_loop}

-- The bits of a byte from `offset` down.
unfoldable pub bits_from : (n offset b : ℕ) → List ℕ
bits_from zero offset b = []
bits_from (suc n) offset b = test_bit offset b ∷ bits_from n (offset / 2) b

pub bit_loop-all :
    (j count offset b : ℕ)
    → j ≤ count
    → 0 < j
    → count < 2 ^ 64
    → bit_loop j count offset b ≡ (bits_from j offset b, count - j)
unfolding bit_loop bits_from
bit_loop-all zero count offset b le pos small = absurd (omega arith)
bit_loop-all (suc zero) count offset b le pos small = ground arith
bit_loop-all (suc (suc j)) count offset b le pos small =
    let left : (count + 2 ^ 64 - 1) % 2 ^ 64 ≡ count - 1 = omega arith in
    let more : (count - 1 == 0) ≡ false = ground arith in
    let rest =
      bit_loop-all (suc j) (count - 1) (offset / 2) b (omega arith) (omega arith) (omega arith) in
    rw (left, more, rest)
      (ap (λ n. (test_bit offset b ∷ bits_from (suc j) (offset / 2) b, n)) {x = count - 1 - suc j}
        {y = count - suc (suc j)} (omega arith))

pub bit_loop-some :
    (j count offset b : ℕ)
    → 0 < count
    → count ≤ j
    → j < 2 ^ 64
    → bit_loop j count offset b ≡ (bits_from count offset b, 0)
unfolding bit_loop bits_from
bit_loop-some j zero offset b pos le small = absurd (omega arith)
bit_loop-some zero (suc count) offset b pos le small = absurd (omega arith)
bit_loop-some (suc j) (suc zero) offset b pos le small = refl
bit_loop-some (suc j) (suc (suc count)) offset b pos le small =
    let left : (suc (suc count) + 2 ^ 64 - 1) % 2 ^ 64 ≡ suc count = omega arith in
    let more : (suc count == 0) ≡ false = ground arith in
    let rest =
      bit_loop-some j (suc count) (offset / 2) b (omega arith) (omega arith) (omega arith) in
    rw (left, more, rest) refl

-- Eight values make a byte, and the index only counts modulo eight.
pub zero_one_loop-mod :
    (vec : List ℕ) (i k b : ℕ) → i % 8 ≡ k % 8 → zero_one_loop i b vec ≡ zero_one_loop k b vec
unfolding zero_one_loop
zero_one_loop-mod [] i k b h = ap (λ r. if r == 0 then [] else b ∷ []) h
zero_one_loop-mod (v ∷ vec) i k b h =
    let b' = (b * 2) % 256 + sign v in
    let next : (i + 1) % 8 ≡ (k + 1) % 8 = omega (arith, h) in
    rw (zero_one_loop-mod vec (i + 1) (k + 1) 0 next, zero_one_loop-mod vec (i + 1) (k + 1) b' next)
      (ap (λ r. if r == 7 then b' ∷ zero_one_loop (k + 1) 0 vec else zero_one_loop (k + 1) b' vec)
        h)

abbrev byte2 : (a b : ℕ) → ℕ
byte2 a b = (a * 2) % 256 + b

-- The bits of a byte, the last one, the last two, and so on.
pub record IsBits (v a b c d e f g h : ℕ) : Type 0 where
  pub one : bits_from 1 1 v ≡ h ∷ []
  pub two : bits_from 2 2 v ≡ g ∷ h ∷ []
  pub three : bits_from 3 4 v ≡ f ∷ g ∷ h ∷ []
  pub four : bits_from 4 8 v ≡ e ∷ f ∷ g ∷ h ∷ []
  pub five : bits_from 5 16 v ≡ d ∷ e ∷ f ∷ g ∷ h ∷ []
  pub six : bits_from 6 32 v ≡ c ∷ d ∷ e ∷ f ∷ g ∷ h ∷ []
  pub seven : bits_from 7 64 v ≡ b ∷ c ∷ d ∷ e ∷ f ∷ g ∷ h ∷ []
  pub eight : bits_from 8 128 v ≡ a ∷ b ∷ c ∷ d ∷ e ∷ f ∷ g ∷ h ∷ []

-- The byte that eight signs fill.
pub byte-IsBits :
    (v a b c d e f g h : ℕ)
    → a ≤ 1
    → b ≤ 1
    → c ≤ 1
    → d ≤ 1
    → e ≤ 1
    → f ≤ 1
    → g ≤ 1
    → h ≤ 1
    → v ≡ a * 128 + b * 64 + c * 32 + d * 16 + e * 8 + f * 4 + g * 2 + h
    → IsBits v a b c d e f g h
unfolding bits_from
byte-IsBits v a b c d e f g h la lb lc ld le lf lg lh shape =
    let one : bits_from 1 1 v ≡ h ∷ [] = ap (λ x. x ∷ []) {x = (v / 1) % 2} {y = h} (omega arith) in
    let two : bits_from 2 2 v ≡ g ∷ h ∷ [] = ap₂ ◌∷◌ {x = (v / 2) % 2} {y = g} (omega arith) one in
    let three : bits_from 3 4 v ≡ f ∷ g ∷ h ∷ [] =
      ap₂ ◌∷◌ {x = (v / 4) % 2} {y = f} (omega arith) two in
    let four : bits_from 4 8 v ≡ e ∷ f ∷ g ∷ h ∷ [] =
      ap₂ ◌∷◌ {x = (v / 8) % 2} {y = e} (omega arith) three in
    let five : bits_from 5 16 v ≡ d ∷ e ∷ f ∷ g ∷ h ∷ [] =
      ap₂ ◌∷◌ {x = (v / 16) % 2} {y = d} (omega arith) four in
    let six : bits_from 6 32 v ≡ c ∷ d ∷ e ∷ f ∷ g ∷ h ∷ [] =
      ap₂ ◌∷◌ {x = (v / 32) % 2} {y = c} (omega arith) five in
    let seven : bits_from 7 64 v ≡ b ∷ c ∷ d ∷ e ∷ f ∷ g ∷ h ∷ [] =
      ap₂ ◌∷◌ {x = (v / 64) % 2} {y = b} (omega arith) six in
    record {
      one = one;
      two = two;
      three = three;
      four = four;
      five = five;
      six = six;
      seven = seven;
      eight = ap₂ ◌∷◌ {x = (v / 128) % 2} {y = a} (omega arith) seven;
    }
