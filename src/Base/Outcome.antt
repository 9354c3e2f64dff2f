-- ===== src/Base/Outcome.antt =====
-- How a C function of the program ends: it returns a value, it returns its error value (-1 or
-- NULL), it calls abort(), or it reads through a null pointer. `stuck` is no C outcome: a loop of
-- the model ran out of fuel.
use mathlib.Core.Path.{◌≡◌, refl}
use mathlib.Core.Logic.{◌≢◌}

pub data Result {ℓ} (A : Type ℓ) : Type ℓ where
  err aborted fault stuck : Result A
  ok : A → Result A

infixl 5 ◌>>=◌ ◌>>◌
abbrev pub ◌>>=◌ {ℓ ℓ'} : {A : Type ℓ} → {B : Type ℓ'} → Result A → (A → Result B) → Result B
err >>= next = err
aborted >>= next = aborted
fault >>= next = fault
stuck >>= next = stuck
ok value >>= next = next value

abbrev pub ◌>>◌ {ℓ} : {B : Type ℓ} → Result (Unit {0}) → Result B → Result B
first >> second = first >>= λ done. second

-- A bind has fuel enough if its parts have.
pub >>=-ne-stuck {ℓ κ} :
    {A : Type ℓ} {B : Type κ} (m : Result A) (f : A → Result B)
    → m ≢ stuck
    → ((a : A) → f a ≢ stuck)
    → (m >>= f) ≢ stuck
>>=-ne-stuck (ok a) f h k = k a
>>=-ne-stuck err f h k = λ e. cc
>>=-ne-stuck aborted f h k = λ e. cc
>>=-ne-stuck fault f h k = λ e. cc
>>=-ne-stuck stuck f h k = absurd (h refl)

pub ok-ne-stuck {ℓ} : {A : Type ℓ} (a : A) → ok a ≢ stuck
ok-ne-stuck a e = cc

-- A bind returns a value only where its first part does.
pub value_of_bind {ℓ κ} :
    {A : Type ℓ}
    → {B : Type κ} → (first : Result A) → (next : A → Result B) → {value : B}
    → (first >>= next) ≡ ok value
    → (between : A) × (first ≡ ok between) × (next between ≡ ok value)
value_of_bind err next ended = cc
value_of_bind aborted next ended = cc
value_of_bind fault next ended = cc
value_of_bind stuck next ended = cc
value_of_bind (ok between) next ended = (between, refl, ended)
