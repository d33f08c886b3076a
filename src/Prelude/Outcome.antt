-- ===== src/Prelude/Outcome.antt =====
-- How a Go call ends: a result, a returned error, a run-time panic, or (of the model only) a loop
-- that has used up its fuel.
use Prim.Native.Nat.{ℕ}
use mathlib.Core.Path.{◌≡◌, refl, ap}
use mathlib.Core.Bool.{Bool, true, false}
use mathlib.Core.List.{List}
use mathlib.Core.Option.{Option, none, some}
use n3iwf.Prelude.Tests.{leb, if◌then◌else◌}
use n3iwf.Prelude.Lists.{length, get_elem?, take, drop}

pub data Outcome {ℓ} (E : Type 0) (A : Type ℓ) : Type ℓ where
  ok : A → Outcome E A
  err : E → Outcome E A
  panic out_of_fuel : Outcome E A

infixl 5 ◌>>=◌ ◌>>◌
abbrev pub ◌>>=◌ {ℓ κ} :
    {E : Type 0} {A : Type ℓ} {B : Type κ} → Outcome E A → (A → Outcome E B) → Outcome E B
ok a >>= f = f a
err e >>= f = err e
panic >>= f = panic
out_of_fuel >>= f = out_of_fuel

abbrev pub ◌>>◌ {ℓ} : {E : Type 0} {B : Type ℓ} → Outcome E (Unit {0}) → Outcome E B → Outcome E B
m >> k = m >>= λ _. k

-- `if !b { return e }`
abbrev pub guard : {E : Type 0} → Bool → E → Outcome E (Unit {0})
guard true e = ok tt
guard false e = err e

module _ {ℓ} {E : Type 0} {A : Type ℓ} where
  abbrev pub or_fail : Option A → E → Outcome E A
  or_fail (some a) e = ok a
  or_fail none e = err e

  abbrev pub or_panic : Option A → Outcome E A
  or_panic (some a) = ok a
  or_panic none = panic

  -- b[i], b[n:] and b[:n] of Go panic out of range (here the capacity is the length).
  abbrev pub index : List A → ℕ → Outcome E A
  index b i = or_panic (get_elem? b i)

abbrev pub slice_from {ℓ} : {E : Type 0} {A : Type ℓ} → List A → ℕ → Outcome E (List A)
slice_from b n = if leb n (length b) then ok (drop n b) else panic

abbrev pub slice_to {ℓ} : {E : Type 0} {A : Type ℓ} → List A → ℕ → Outcome E (List A)
slice_to b n = if leb n (length b) then ok (take n b) else panic

-- What holds of a result, if there is one.
abbrev pub After {ℓ κ} : {E : Type 0} {A : Type ℓ} → (A → Type κ) → Outcome E A → Type κ
After P (ok a) = P a
After P (err e) = Unit
After P panic = Unit
After P out_of_fuel = Unit

pub bind-After {ℓ κ ι ι'} :
    {E : Type 0} {A : Type ℓ} {B : Type κ} {P : A → Type ι} (Q : B → Type ι') (m : Outcome E A)
    (k : A → Outcome E B)
    → After P m
    → ((a : A) → P a → After Q (k a))
    → After Q (m >>= k)
bind-After Q (ok a) k h f = f a h
bind-After Q (err e) k h f = tt
bind-After Q panic k h f = tt
bind-After Q out_of_fuel k h f = tt

pub or_panic-After {ℓ κ} :
    {A : Type ℓ} (P : A → Type κ) (o : Option A)
    → ((a : A) → o ≡ some a → P a)
    → After P (or_panic {E = Unit {0}} o)
or_panic-After P none f = tt
or_panic-After P (some a) f = f a refl

-- A pointer or an index that must be there, and what follows.
pub or_panic-bind {ℓ κ ι} :
    {E : Type 0} {A : Type ℓ} {B : Type κ} (Q : B → Type ι) (o : Option A) (k : A → Outcome E B)
    → ((a : A) → o ≡ some a → After Q (k a))
    → After Q (or_panic o >>= k)
or_panic-bind Q none k f = tt
or_panic-bind Q (some a) k f = f a refl

-- A step that succeeds.
pub bind-ok {ℓ κ} :
    {E : Type 0} {A : Type ℓ} {B : Type κ} {m : Outcome E A} {a : A} (k : A → Outcome E B)
    → m ≡ ok a
    → m >>= k ≡ k a
bind-ok k e = ap (λ m. m >>= k) e

pub bind-some {ℓ κ} :
    {E : Type 0} {A : Type ℓ} {B : Type κ} {o : Option A} {a : A} (k : A → Outcome E B)
    → o ≡ some a
    → or_panic o >>= k ≡ k a
bind-some k e = ap (λ o. or_panic o >>= k) e

pub weaken {ℓ κ ι} :
    {E : Type 0} {A : Type ℓ} {P : A → Type κ} (Q : A → Type ι) (m : Outcome E A)
    → After P m
    → ((a : A) → P a → Q a)
    → After Q m
weaken Q (ok a) h f = f a h
weaken Q (err e) h f = tt
weaken Q panic h f = tt
weaken Q out_of_fuel h f = tt

pub always {ℓ} : {E : Type 0} {A : Type ℓ} (m : Outcome E A) → After (λ a. Unit {0}) m
always (ok a) = tt
always (err e) = tt
always panic = tt
always out_of_fuel = tt

pub both-After {ℓ κ ι} :
    {E : Type 0} {A : Type ℓ} (P : A → Type κ) (Q : A → Type ι) (m : Outcome E A)
    → After P m
    → After Q m
    → After (λ a. P a × Q a) m
both-After P Q (ok a) p q = (p, q)
both-After P Q (err e) p q = tt
both-After P Q panic p q = tt
both-After P Q out_of_fuel p q = tt
