-- ===== src/Prelude/Errors.antt =====
-- Python exceptions as values. An operation that raises keeps the changes that it made before, so
-- a method is a function from the object to what it returns or raises and the changed object.
use mathlib.Core.Bool.{Bool, true, false}
use mathlib.Core.Option.{Option, none, some}
use mathlib.Core.Path.{◌≡◌, refl, ap}

-- The exception classes that the modelled code raises.
pub data Error : Type 0 where
  runtime_error : Error
  value_error : Error
  index_error : Error
  key_error : Error
  type_error : Error
  attribute_error : Error
  assertion_error : Error
  validation_error : Error
  timeout_error : Error
  contract_error : Error
  not_configured : Error
  zero_division_error : Error
  unbound_local_error : Error

pub data Outcome {ℓ} (A : Type ℓ) : Type ℓ where
  ok : A → Outcome A
  raise : Error → Outcome A

abbrev pub bind_ok {ℓ κ} : {A : Type ℓ} {B : Type κ} → Outcome A → (A → Outcome B) → Outcome B
bind_ok (ok a) f = f a
bind_ok (raise e) f = raise e

-- A method on an object of type `S` that returns an `A`.
abbrev pub Exec : Type 0 → Type 0 → Type 0
Exec S A = S → Outcome A × S

infixl 5 ◌>>=◌ ◌>>◌
abbrev pub ◌>>=◌ : {S A B : Type 0} → Exec S A → (A → Exec S B) → Exec S B
◌>>=◌ m f s = let (o, s') = m s in elim o [ ok a ↦ f a s' | raise e ↦ (raise e, s') ]

abbrev pub ◌>>◌ : {S B : Type 0} → Exec S (Unit {0}) → Exec S B → Exec S B
m >> k = m >>= λ _. k

abbrev pub pure : {S A : Type 0} → A → Exec S A
pure a s = (ok a, s)

abbrev pub throw : {S A : Type 0} → Error → Exec S A
throw e s = (raise e, s)

-- `if not b: raise e`
abbrev pub require : {S : Type 0} → Bool → Error → Exec S (Unit {0})
require true e s = (ok tt, s)
require false e s = (raise e, s)

abbrev pub get_state : {S : Type 0} → Exec S S
get_state s = (ok s, s)

abbrev pub modify : {S : Type 0} → (S → S) → Exec S (Unit {0})
modify f s = (ok tt, f s)

-- What a sequence of checks raises, if anything: the first exception, or none.
infixl 6 ◌then_check◌
abbrev pub ◌then_check◌ : Option Error → Option Error → Option Error
none then_check o = o
(some e) then_check o = some e

-- `if not b: raise e`, as a check.
abbrev pub unless : Bool → Error → Option Error
unless true e = none
unless false e = some e

-- `if b: raise e`
abbrev pub when : Bool → Error → Option Error
when true e = some e
when false e = none

-- The rest of a method behind its checks, which leave the object as it is.
abbrev pub after {ℓ κ} :
    {S : Type ℓ} {A : Type κ} → Option Error → S → Outcome A × S → Outcome A × S
after none s r = r
after (some e) s r = (raise e, s)

abbrev pub is_ok {ℓ} : {A : Type ℓ} → Outcome A → Bool
is_ok (ok a) = true
is_ok (raise e) = false

pub bind_ok-eq-ok {ℓ κ} :
    {A : Type ℓ} {B : Type κ} (m : Outcome A) (f : A → Outcome B) {b : B}
    → bind_ok m f ≡ ok b
    → (a : A) × (m ≡ ok a) × (f a ≡ ok b)
bind_ok-eq-ok (ok a) f h = (a, refl, h)
bind_ok-eq-ok (raise e) f h = cc

pub ok-injective {ℓ} : {A : Type ℓ} {a b : A} → ok a ≡ ok b → a ≡ b
ok-injective e = cc

-- A step that succeeds hands its result and the changed object on; one that raises ends the method.
pub >>=-ok :
    {S A B : Type 0} (m : Exec S A) (f : A → Exec S B) (s : S) {a : A} {s' : S}
    → m s ≡ (ok a, s')
    → (m >>= f) s ≡ f a s'
>>=-ok {S} {A} m f s e =
    ap (λ (r : Outcome A × S). elim r.0 [ ok a ↦ f a r.1 | raise x ↦ (raise x, r.1) ]) e

pub >>=-raise :
    {S A B : Type 0} (m : Exec S A) (f : A → Exec S B) (s : S) {x : Error} {s' : S}
    → m s ≡ (raise x, s')
    → (m >>= f) s ≡ (raise x, s')
>>=-raise {S} {A} m f s e =
    ap (λ (r : Outcome A × S). elim r.0 [ ok a ↦ f a r.1 | raise x ↦ (raise x, r.1) ]) e
