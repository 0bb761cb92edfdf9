-- ===== src/Callback.antt =====
-- hedwig/callback.py: the registry of callbacks, and the check of their signatures.
pub mod Signature
use hedwig_python.Prelude.{
  ℕ, String, ◌≡◌, refl, Bool, true, false, ◌&&◌, not, Option, none, some, List, [], ◌∷◌, arith,
  ◌==◌, string_eq, pair_eq, if◌then◌else◌, ◌⊎◌, inl, inr, ◌↔◌, All,
}
use hedwig_python.Python.Dict.{get}
use hedwig_python.Python.Exn.{
  Result, ok, raise, configuration_error, callback_not_found, guard, from_option, ◌>>=◌, ◌>>◌,
}
use hedwig_python.Text.Decimal.{decimal_onto}

-- `inspect.Parameter`: its kind, its name, and whether its annotation is missing, `Message`, or
-- another.
pub data Kind : Type 0 where
  var_keyword var_positional positional keyword_only positional_only : Kind

pub data Annotation : Type 0 where
  missing message_class another_class : Annotation

pub record Parameter : Type 0 where
  pub kind : Kind
  pub name : String
  pub annotation : Annotation

abbrev is_other : Annotation → Bool
is_other another_class = true
is_other _ = false

-- One round of the loop over the parameters: the new value of `message_found`.
visit : Kind → Parameter → Result Bool
visit var_keyword p = raise configuration_error
visit var_positional p = raise configuration_error
visit _ p =
    if p.name == "message"
    then (if is_other p.annotation then raise configuration_error else ok true)
    else raise configuration_error

scan : Bool → List Parameter → Result Bool
unfolding visit
scan message_found [] = ok message_found
scan message_found (p ∷ rest) = visit p.kind p >>= λ found. scan found rest

-- `Callback(fn)`, of which the signature counts
unfoldable pub check_signature : List Parameter → Result (Unit {0})
unfolding scan
check_signature parameters = do
  message_found ← scan false parameters
  guard message_found configuration_error

-- A function as it is registered: its signature, and what a call of it does.
pub record Function (M : Type 0) : Type 0 where
  pub parameters : List Parameter
  pub run : M → Result (Unit {0})

abbrev pub Registry : Type 0 → Type 0
Registry M = List ((String × String) × Function M)

-- f"{major_version}.*"
unfoldable pub version_pattern : ℕ → String
unfolding decimal_onto
version_pattern major_version = decimal_onto major_version ".*"

module _ {M : Type 0} where
  -- HEDWIG_CALLBACKS is `callbacks`.
  unfoldable pub find_by_message : Registry M → String → ℕ → Result (Function M)
  unfolding check_signature version_pattern
  find_by_message callbacks msg_type major_version = do
    fn ← from_option callback_not_found (get (msg_type, version_pattern major_version) callbacks)
    check_signature fn.parameters
    ok fn

  unfoldable pub call : Function M → M → Result (Unit {0})
  call fn message = fn.run message
