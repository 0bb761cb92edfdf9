-- ===== src/Python/Exn.antt =====
-- hedwig/exceptions.py and hedwig/backends/exceptions.py, with the built-in exceptions that the
-- modelled code can raise, and computations that return or raise.
use hedwig_python.Prelude.{◌≡◌, refl, Bool, true, false, Option, none, some, ◌⊎◌, inl, inr}

pub data Exn : Type 0 where
  -- hedwig's
  retry_exception : Exn
  logging_exception : Exn
  ignore_exception : Exn
  validation_error : Exn
  configuration_error : Exn
  callback_not_found : Exn
  partial_failure : Exn
  schema_error : Exn
  -- Python's
  value_error : Exn
  key_error : Exn
  index_error : Exn
  type_error : Exn
  attribute_error : Exn
  assertion_error : Exn
  import_error : Exn
  runtime_error : Exn
  not_implemented_error : Exn
  unicode_error : Exn
  -- google.protobuf's DecodeError and json_format.ParseError
  decode_error : Exn
  -- any other subclass of `Exception`
  other_exception : Exn

pub data Result {ℓ} (A : Type ℓ) : Type ℓ where
  ok : A → Result A
  raise : Exn → Result A

-- `if not b: raise e`
abbrev pub guard : Bool → Exn → Result (Unit {0})
guard false e = raise e
guard true e = ok tt

infixl 5 ◌>>=◌ ◌>>◌
abbrev pub ◌>>=◌ {ℓ κ} : {X : Type ℓ} {Y : Type κ} → Result X → (X → Result Y) → Result Y
raise e >>= next = raise e
ok x >>= next = next x

abbrev pub ◌>>◌ {ℓ κ} : {X : Type ℓ} {Y : Type κ} → Result X → Result Y → Result Y
first >> second = first >>= λ _. second

-- The returned value, or an exception in its place.
abbrev pub from_option {ℓ} : {A : Type ℓ} → Exn → Option A → Result A
from_option e none = raise e
from_option e (some a) = ok a

pub >>=-eq-ok {ℓ κ} :
    {X : Type ℓ} {Y : Type κ} (r : Result X) (next : X → Result Y) {y : Y}
    → (r >>= next) ≡ ok y
    → (x : X) × (r ≡ ok x) × (next x ≡ ok y)
>>=-eq-ok (raise e) next h = cc
>>=-eq-ok (ok x) next h = (x, refl, h)

pub guard-eq-ok : (b : Bool) (e : Exn) {u : Unit {0}} → guard b e ≡ ok u → b ≡ true
guard-eq-ok true e h = refl
guard-eq-ok false e h = cc

-- To split on a computed result and keep the equation.
pub Result-cases {ℓ} :
    {A : Type ℓ} (r : Result A) → ((a : A) × (r ≡ ok a)) ⊎ ((e : Exn) × (r ≡ raise e))
Result-cases (ok a) = inl (a, refl)
Result-cases (raise e) = inr (e, refl)

pub ok-inj {ℓ} : {X : Type ℓ} {x y : X} → ok x ≡ ok y → x ≡ y
ok-inj h = cc
