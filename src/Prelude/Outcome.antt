-- ===== src/Prelude/Outcome.antt =====
-- The outcome of a JavaScript call: a value, or the error that it throws.
use mathlib.Core.Path.{◌≡◌, refl}

-- `range_error` is Node's RangeError [ERR_OUT_OF_RANGE] of a Buffer access, `type_error` a property
-- of `undefined` or a BigInt where a number is wanted, `reference_error` a name that is not declared, `library_error` what a package throws.
pub data Error : Type 0 where
  range_error type_error reference_error library_error tlv_error : Error

pub data Result {ℓ} (A : Type ℓ) : Type ℓ where
  ok : A → Result A
  throw : Error → Result A

infixl 5 ◌>>=◌
abbrev pub ◌>>=◌ {ℓ ℓ'} : {A : Type ℓ} {B : Type ℓ'} → Result A → (A → Result B) → Result B
throw error >>= next = throw error
ok value >>= next = next value

-- A chain that returns has a first step that returns.
pub >>=-eq-ok {ℓ ℓ'} :
    {A : Type ℓ} {B : Type ℓ'} {out : B} (first : Result A) (next : A → Result B)
    → (first >>= next) ≡ ok out
    → (value : A) × (first ≡ ok value) × (next value ≡ ok out)
>>=-eq-ok (throw error) next h = cc
>>=-eq-ok (ok value) next h = (value, refl, h)

pub ok-injective {ℓ} : {A : Type ℓ} {a b : A} → ok a ≡ ok b → a ≡ b
ok-injective h = cc

-- What is done after every outcome of a step is done after the chain.
pub >>=-map {ℓ ℓ' ℓ''} :
    {A : Type ℓ} {B : Type ℓ'} {C : Type ℓ''} (first : Result A) (f : A → Result C)
    (g : A → Result B) (after : B → Result C)
    → ((value : A) → f value ≡ (g value >>= after))
    → (first >>= f) ≡ (first >>= g >>= after)
>>=-map (ok value) f g after same = same value
>>=-map (throw error) f g after same = refl

-- What holds of the value, if there is one.
abbrev pub Ensures {ℓ ℓ'} : {A : Type ℓ} → (A → Type ℓ') → Result A → Type ℓ'
Ensures P (ok value) = P value
Ensures P (throw error) = Unit

pub >>=-Ensures {ℓ ℓ' ℓ''} :
    {A : Type ℓ} {B : Type ℓ'} (P : B → Type ℓ'') (first : Result A) (next : A → Result B)
    → ((value : A) → first ≡ ok value → Ensures P (next value))
    → Ensures P (first >>= next)
>>=-Ensures P (ok value) next h = h value refl
>>=-Ensures P (throw error) next h = tt
