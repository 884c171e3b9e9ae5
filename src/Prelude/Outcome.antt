-- ===== src/Prelude/Outcome.antt =====
-- How a run of C code can end: with a value, in a failed assertion or `abort`, or in a read
-- outside an array, which C leaves undefined.
use mathlib.Core.Path.{◌≡◌, refl}
use mathlib.Core.Bool.{Bool, true, false}

pub data Outcome {ℓ} (A : Type ℓ) : Type ℓ where
  done : A → Outcome A
  aborted : Outcome A
  stray : Outcome A

infixl 5 ◌>>=◌ ◌>>◌
abbrev pub ◌>>=◌ {ℓ κ} : {A : Type ℓ} {B : Type κ} → Outcome A → (A → Outcome B) → Outcome B
done a >>= f = f a
aborted >>= f = aborted
stray >>= f = stray

abbrev pub ◌>>◌ {ℓ} : {B : Type ℓ} → Outcome (Unit {0}) → Outcome B → Outcome B
m >> k = m >>= λ _. k

-- `assert(b)`
abbrev pub assert : Bool → Outcome (Unit {0})
assert true = done tt
assert false = aborted

pub >>=-eq-done {ℓ κ} :
    {A : Type ℓ} {B : Type κ} (m : Outcome A) (f : A → Outcome B) {b : B}
    → (m >>= f) ≡ done b
    → (a : A) × (m ≡ done a) × (f a ≡ done b)
>>=-eq-done (done a) f h = (a, refl, h)
>>=-eq-done aborted f h = cc
>>=-eq-done stray f h = cc

-- The run ends with a value.
abbrev pub IsDone {ℓ} : {A : Type ℓ} → Outcome A → Type 0
IsDone (done a) = Unit
IsDone aborted = ⊥
IsDone stray = ⊥

pub >>=-IsDone {ℓ κ} :
    {A : Type ℓ} {B : Type κ} (m : Outcome A) (f : A → Outcome B)
    → IsDone m
    → ((a : A) → IsDone (f a))
    → IsDone (m >>= f)
>>=-IsDone (done a) f h k = k a
>>=-IsDone aborted f h k = absurd h
>>=-IsDone stray f h k = absurd h

-- A run that cannot go on after its first part does not end with a value.
pub >>=-not-IsDone {ℓ κ} :
    {A : Type ℓ} {B : Type κ} (m : Outcome A) (f : A → Outcome B)
    → ((a : A) → ¬ IsDone (f a))
    → ¬ IsDone (m >>= f)
>>=-not-IsDone (done a) f k h = k a h
>>=-not-IsDone aborted f k h = h
>>=-not-IsDone stray f k h = h

pub >>=-not-IsDone_left {ℓ κ} :
    {A : Type ℓ} {B : Type κ} (m : Outcome A) (f : A → Outcome B) → ¬ IsDone m → ¬ IsDone (m >>= f)
>>=-not-IsDone_left (done a) f n h = n tt
>>=-not-IsDone_left aborted f n h = h
>>=-not-IsDone_left stray f n h = h

pub IsDone-eq {ℓ} : {A : Type ℓ} (m : Outcome A) → IsDone m → (a : A) × (m ≡ done a)
IsDone-eq (done a) h = (a, refl)
IsDone-eq aborted h = absurd h
IsDone-eq stray h = absurd h
