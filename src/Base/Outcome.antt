-- ===== src/Base/Outcome.antt =====
-- Exceptions as values. One constructor for each class of exception that the program raises or
-- handles; the messages are not modelled. `crashed` ends the process: no handler catches it.
use Prim.Native.Nat.{ℕ}
use Prim.Native.String.{String}
use mathlib.Core.Path.{◌≡◌, refl}
use mathlib.Core.Bool.{Bool, true, false}
use mathlib.Core.Option.{Option}

pub data Error : Type 0 where
  protocol_value_error identity_error state_error delivery_error capability_error : Error
  audit_error response_error uncertain_write_error os_error http_exception value_error : Error
  type_error config_error health_error work_receipt_error process_lock_error : Error
  crashed assertion_error : Error
  transport_error : Option ℕ → Error
  github_receipt_error : String → Error

pub data Result {ℓ} (A : Type ℓ) : Type ℓ where
  ok : A → Result A
  err : Error → Result A

infixl 5 ◌>>=◌ ◌>>◌
abbrev pub ◌>>=◌ {ℓ κ} : {A : Type ℓ} {B : Type κ} → Result A → (A → Result B) → Result B
ok value >>= next = next value
err error >>= next = err error

abbrev pub ◌>>◌ {ℓ κ} : {A : Type ℓ} {B : Type κ} → Result A → Result B → Result B
m >> k = m >>= λ _. k

-- if not condition: raise error
abbrev pub require : Bool → Error → Result (Unit {0})
require true e = ok tt
require false e = err e

-- try: m; except ProtocolValueError as error: raise e from error
abbrev pub protocol_value_as {ℓ} : {A : Type ℓ} → Error → Result A → Result A
protocol_value_as e (ok a) = ok a
protocol_value_as e (err protocol_value_error) = err e
protocol_value_as e (err other) = err other

pub >>=-eq-ok {ℓ κ} :
    {A : Type ℓ} {B : Type κ} (first : Result A) (next : A → Result B) {last : B}
    → (first >>= next) ≡ ok last
    → (value : A) × (first ≡ ok value) × (next value ≡ ok last)
>>=-eq-ok (err error) next h = cc
>>=-eq-ok (ok value) next h = (value, refl, h)

pub ok-injective {ℓ} : {A : Type ℓ} {a b : A} → ok a ≡ ok b → a ≡ b
ok-injective h = cc
