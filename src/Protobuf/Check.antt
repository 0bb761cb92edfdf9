-- ===== src/Protobuf/Check.antt =====
-- `_check_schema` of hedwig/validators/protobuf.py.
pub mod Registered
use mathlib.Core.Option
use hedwig_python.Prelude.{
  ℕ, String, Char, code, ◌≡◌, refl, Bool, true, false, ◌&&◌, ◌||◌, not, Option, none, some, List,
  [], ◌∷◌, ◌++◌, ◌==◌, nat_eq, string_eq, if◌then◌else◌,
}
use hedwig_python.Python.Dict.{has_key, put}
use hedwig_python.Python.Exn.{Result, ok, raise, guard, assertion_error, schema_error, ◌>>=◌, ◌>>◌}
use hedwig_python.Text.Decimal.{is_digit, span_digits}
use hedwig_python.JsonSchema.Check.{major_of}
use hedwig_python.Protobuf.{Options, Library, numbered_eq, Messages}

-- An error that is collected.
pub data Fault (C : Type 0) : Type 0 where
  undefined_options : C → Fault C
  undefined_major_version : C → Fault C
  mismatched_major_version : C → (name_major_version : ℕ) → Fault C
  undetermined_type : C → Fault C
  duplicate : (message_type : String) (major_version : ℕ) → Fault C
  invalid_version : (message_type version_pattern : String) → Fault C
  zero_version : (message_type : String) → Fault C
  not_declared : (message_type : String) (major_version : ℕ) → Fault C

abbrev pub fault_if : {C : Type 0} → Bool → Fault C → List (Fault C)
fault_if true fault = fault ∷ []
fault_if false fault = []

-- All of `(\d+)$`, with the digits of ASCII.
unfoldable pub number_of : String → Option ℕ
unfolding is_digit span_digits
number_of String.[] = none
number_of (String.◌∷◌ c s) =
    if is_digit c && (span_digits 0 (String.◌∷◌ c s)).1 == ""
    then some (span_digits 0 (String.◌∷◌ c s)).0
    else none

-- The match may begin its number at this letter.
abbrev pub at_v : Char → Option ℕ → Option (String × ℕ)
at_v c number = if code c == b'V' then Option.map (λ n. ("", n)) number else none

abbrev pub longer : Char → String × ℕ → String × ℕ
longer c (name, n) = (String.◌∷◌ c name, n)

abbrev pub or_at_v : Char → String → Option (String × ℕ) → Option (String × ℕ)
or_at_v c s (some found) = some (longer c found)
or_at_v c s none = at_v c (number_of s)

-- The groups of `^(.*)V(\d+)$`: the last V that only digits follow.
unfoldable pub class_parts : String → Option (String × ℕ)
unfolding number_of
class_parts String.[] = none
class_parts (String.◌∷◌ c s) = or_at_v c s (class_parts s)

module _ {C M A : Type 0} (lib : Library C M A) where
  -- The type from the options, or from the class's name.
  abbrev pub type_from_name : Option (String × ℕ) → Option String
  type_from_name none = none
  type_from_name (some (name_message_type, n)) = some name_message_type

  unfoldable pub message_type_of : C → Option String
  unfolding class_parts
  message_type_of c =
      if (lib.options c).message_type == ""
      then type_from_name (class_parts (lib.class_name c))
      else some (lib.options c).message_type

  abbrev pub mismatch : C → Option (String × ℕ) → List (Fault C)
  mismatch c none = []
  mismatch c (some (name, n)) =
      fault_if (not (n == (lib.options c).major_version)) (mismatched_major_version c n)

  -- A class of the given type goes into `proto_messages`.
  unfoldable pub register : C → Option String → Messages C → List (Fault C) × Messages C
  register c none found = (undetermined_type c ∷ [], found)
  register c (some message_type) found =
      if message_type == ""
      then (undetermined_type c ∷ [], found)
      else if has_key (message_type, (lib.options c).major_version) found
      then (duplicate message_type (lib.options c).major_version ∷ [], found)
      else ([], put (message_type, (lib.options c).major_version) c found)

  -- A round of the loop over the classes.
  unfoldable pub check_message : C → Messages C → List (Fault C) × Messages C
  unfolding message_type_of register class_parts
  check_message c found =
      let undefined = fault_if (not (lib.options c).is_defined) (undefined_options c) in
      let registered = register c (message_type_of c) found in
      if (lib.options c).major_version == 0
      then (undefined ++ undefined_major_version c ∷ [], found)
      else (
        undefined ++ (mismatch c (class_parts (lib.class_name c)) ++ registered.0),
        registered.1,
      )

  unfoldable pub check_messages : List C → Messages C → List (Fault C) × Messages C
  unfolding check_message
  check_messages [] found = ([], found)
  check_messages (c ∷ proto_messages) found =
      let here = check_message c found in
      let others = check_messages proto_messages here.1 in (here.0 ++ others.0, others.1)

-- A key of HEDWIG_MESSAGE_ROUTING or HEDWIG_CALLBACKS, of which the pattern has this major version.
abbrev pub check_major :
    {C : Type 0} → String × String → Option ℕ → Messages C → Result (List (Fault C))
check_major (message_type, version_pattern) none found =
    ok (invalid_version message_type version_pattern ∷ [])
check_major (message_type, version_pattern) (some major_version) found = do
  guard (not (message_type == "")) assertion_error
  ok (
      fault_if (major_version == 0) (zero_version message_type)
      ++ fault_if (not (has_key (message_type, major_version) found))
          (not_declared message_type major_version))

unfoldable pub check_keys :
    {C : Type 0} → List (String × String) → Messages C → Result (List (Fault C))
unfolding major_of
check_keys [] found = ok []
check_keys (key ∷ keys) found = do
  here ← check_major key (major_of key.1) found
  others ← check_keys keys found
  ok (here ++ others)

abbrev pub raise_if_any : {C : Type 0} → List (Fault C) → Result (Unit {0})
raise_if_any [] = ok tt
raise_if_any (fault ∷ faults) = raise schema_error

-- What `proto_messages` is made, for the keys of both settings.
unfoldable pub check_schema :
    {C M A : Type 0} → Library C M A → List (String × String) → List C → Result (Messages C)
unfolding check_messages check_keys
check_schema lib keys proto_messages = do
  let checked = check_messages lib proto_messages []
  faults ← check_keys keys checked.1
  raise_if_any (checked.0 ++ faults)
  ok checked.1

class_parts_tests :
    (class_parts "TripCreatedV12" ≡ some ("TripCreated", 12))
    × (class_parts "DeviceV2V1" ≡ some ("DeviceV2", 1))
    × (class_parts "Vehicle" ≡ none)
    × (class_parts "V1" ≡ some ("", 1))
unfolding class_parts
class_parts_tests = (refl, refl, refl, refl)
