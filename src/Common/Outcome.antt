-- ===== src/Common/Outcome.antt =====
-- Results of the operations: a value, a wait that the caller spins in, or an abort by REMPI_ERR.
use mathlib.Core.Path.{◌≡◌, refl, ap, subst}
use mathlib.Core.Bool.{Bool, true, false}
use re_mpi.Common.Tests.{if◌then◌else◌}

pub data Run {ℓ} (A : Type ℓ) : Type ℓ where
  ok : A → Run A
  -- the loop around `usleep` has not been left: nothing has changed, and the call is made again
  spin : Run A
  -- REMPI_ERR or MUTIL_ERR: a message is printed and the process exits
  abort : Run A

infixl 5 ◌>>=◌
abbrev pub ◌>>=◌ {ℓa ℓb} : {B : Type ℓb} {A : Type ℓa} → Run A → (A → Run B) → Run B
abort >>= next = abort
spin >>= next = spin
ok value >>= next = next value

-- A chain that succeeds passed through a first value.
pub >>=-eq-ok {ℓa ℓb} :
    {B : Type ℓb} {A : Type ℓa} {b : B} (first : Run A) (next : A → Run B)
    → first >>= next ≡ ok b
    → (value : A) × (first ≡ ok value) × (next value ≡ ok b)
>>=-eq-ok abort next e = cc
>>=-eq-ok spin next e = cc
>>=-eq-ok (ok value) next e = (value, refl, e)

abbrev value_or {ℓ} : {A : Type ℓ} → A → Run A → A
value_or d (ok a) = a
value_or d spin = d
value_or d abort = d

pub ok-injective {ℓ} : {A : Type ℓ} {a b : A} → ok a ≡ ok b → a ≡ b
ok-injective {a} h = ap (value_or a) h

pub abort-ne-ok {ℓ} : {A : Type ℓ} {a : A} → ¬ (abort ≡ ok a)
abort-ne-ok h = cc

spin-ne-ok {ℓ} : {A : Type ℓ} {a : A} → ¬ (spin ≡ ok a)
spin-ne-ok h = cc

-- A guard that aborts has let the call pass.
pub unless-abort {ℓ} :
    {A : Type ℓ} (c : Bool) (r : Run A) {a : A}
    → (if c then abort else r) ≡ ok a
    → (c ≡ false) × (r ≡ ok a)
unless-abort true r h = cc
unless-abort false r h = (refl, h)

-- A guard that waits has let the call pass.
pub unless-spin {ℓ} :
    {A : Type ℓ} (c : Bool) (r : Run A) {a : A}
    → (if c then spin else r) ≡ ok a
    → (c ≡ false) × (r ≡ ok a)
unless-spin true r h = cc
unless-spin false r h = (refl, h)

-- A guard that goes on has let the call pass.
pub when-ok {ℓ} :
    {A : Type ℓ} (c : Bool) (r : Run A) {a : A}
    → (if c then r else abort) ≡ ok a
    → (c ≡ true) × (r ≡ ok a)
when-ok true r h = (refl, h)
when-ok false r h = cc

-- What holds of the value of a call that returns.
abbrev pub Ensures {ℓ κ} : {A : Type ℓ} → (A → Type κ) → Run A → Type κ
Ensures P (ok a) = P a
Ensures P spin = Unit
Ensures P abort = Unit

pub Ensures->>= {ℓa ℓb κ κ'} :
    {A : Type ℓa} {B : Type ℓb} (P : A → Type κ) (Q : B → Type κ') (r : Run A) (next : A → Run B)
    → Ensures P r
    → ((a : A) → P a → Ensures Q (next a))
    → Ensures Q (r >>= next)
Ensures->>= P Q (ok a) next h k = k a h
Ensures->>= P Q spin next h k = tt
Ensures->>= P Q abort next h k = tt

pub Ensures-then {ℓa ℓb κ} :
    {A : Type ℓa} {B : Type ℓb} (Q : B → Type κ) (r : Run A) (next : A → Run B)
    → ((a : A) → Ensures Q (next a))
    → Ensures Q (r >>= next)
Ensures-then Q (ok a) next k = k a
Ensures-then Q spin next k = tt
Ensures-then Q abort next k = tt

pub Ensures-if {ℓ κ} :
    {A : Type ℓ} (P : A → Type κ) (b : Bool) (r t : Run A)
    → Ensures P r
    → Ensures P t
    → Ensures P (if b then r else t)
Ensures-if P true r t h k = h
Ensures-if P false r t h k = k

pub Ensures-ok {ℓ κ} :
    {A : Type ℓ} (P : A → Type κ) (r : Run A) {a : A} → Ensures P r → r ≡ ok a → P a
Ensures-ok P (ok b) h e = subst P (ok-injective e) h
Ensures-ok P spin h e = absurd (spin-ne-ok e)
Ensures-ok P abort h e = absurd (abort-ne-ok e)

pub >>=_assoc {ℓa ℓb ℓc} :
    {A : Type ℓa} {B : Type ℓb} {C : Type ℓc} (r : Run A) (f : A → Run B) (g : B → Run C)
    → r >>= f >>= g ≡ r >>= (λ a. f a >>= g)
>>=_assoc (ok a) f g = refl
>>=_assoc spin f g = refl
>>=_assoc abort f g = refl
