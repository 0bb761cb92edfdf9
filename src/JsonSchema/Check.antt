-- ===== src/JsonSchema/Check.antt =====
-- `_check_schema` of hedwig/validators/jsonschema.py.
pub mod Accepted
use hedwig_python.Prelude.{
  ℕ, zero, suc, String, ◌≡◌, refl, Bool, true, false, ◌&&◌, ◌||◌, not, Option, none, some, List, [],
  ◌∷◌, ◌++◌, ◌==◌, string_eq, nat_eq, pair_eq, if◌then◌else◌,
}
use hedwig_python.Python.Dict.{get, has_key}
use hedwig_python.Python.Exn.{
  Result, ok, raise, attribute_error, type_error, key_error, schema_error, from_option, ◌>>=◌, ◌>>◌,
}
use hedwig_python.Python.Value.{
  Key, name, other_key, Value, null, bool, int, opaque, str, strict_version, list, dict, Items, nil,
  cons, Fields, end, field, to_entries, is_truthy, is_dict, key_eq,
}
use hedwig_python.Text.Decimal.{span_digits, is_digit}
use hedwig_python.Text.Prefix.{starts_with}
use hedwig_python.Version.{StrictVersion, parse}
use hedwig_python.JsonSchema.{subscript}

-- An element of the list of errors. What is printed in it is left out.
pub data Issue : Type 0 where
  no_schemas : Issue
  invalid_versions : Key → Issue
  invalid_pattern : Key → String → Issue
  invalid_definition : Key → String → Issue
  missing_full_version : Key → String → Issue
  invalid_full_version : Key → String → Issue
  wrong_major : Key → String → Issue
  not_found : String × String → Issue

-- `^([0-9]+)\.\*$`, whose end may come before a newline
abbrev pub is_star : String → Bool
is_star s = s == ".*" || s == ".*\n"

unfoldable pub major_of : String → Option ℕ
unfolding span_digits is_digit
major_of String.[] = none
major_of (String.◌∷◌ c s) =
    if is_digit c && is_star (span_digits 0 (String.◌∷◌ c s)).1
    then some (span_digits 0 (String.◌∷◌ c s)).0
    else none

-- 'x-version' in s
unfoldable pub occurs : String → String → Bool
unfolding starts_with
occurs s String.[] = starts_with "" s
occurs s (String.◌∷◌ c t) = starts_with (String.◌∷◌ c t) s || occurs s t

abbrev pub is_text : String → Value → Bool
is_text s (str t) = s == t
is_text s _ = false

abbrev pub has_item : String → Items → Bool
has_item s nil = false
has_item s (cons v vs) = is_text s v || has_item s vs

-- s in definition
unfoldable pub contains : String → Value → Result Bool
unfolding occurs
contains s (dict fs) = ok (has_key (name s) (to_entries fs))
contains s (list vs) = ok (has_item s vs)
contains s (str t) = ok (occurs s t)
contains s _ = raise type_error

-- Whether the version's own major number is another one. A major version of 0 is not compared.
abbrev pub differs : Option ℕ → ℕ → Bool
differs (some (suc m)) major = not (suc m == major)
differs _ major = false

abbrev pub issue_if : Bool → Issue → List Issue
issue_if true i = i ∷ []
issue_if false i = []

-- The test of a version's major number. Of what is false, the object has no version.
abbrev pub check_parsed : Key → String → Option ℕ → Option StrictVersion → Result (List Issue)
check_parsed t p major none = ok (invalid_full_version t p ∷ [])
check_parsed t p major (some v) = ok (issue_if (differs major v.major) (wrong_major t p))

abbrev pub unversioned : Option ℕ → Result (List Issue)
unversioned (some (suc m)) = raise attribute_error
unversioned _ = ok []

-- The body of the `try` statement: `StrictVersion(v)` and the test.
unfoldable pub check_full_version : Key → String → Option ℕ → Value → Result (List Issue)
check_full_version t p major (str (String.◌∷◌ c s)) =
    check_parsed t p major (parse (String.◌∷◌ c s))
check_full_version t p major v = if is_truthy v then raise type_error else unversioned major

-- The tests of one definition.
unfoldable pub check_definition : Key → String → Option ℕ → Value → Result (List Issue)
unfolding check_full_version contains subscript
check_definition t p major definition =
    if not (is_dict definition) && not (is_truthy definition)
    then ok (invalid_definition t p ∷ [])
    else contains "x-version" definition >>= λ found.
        (if found
          then subscript definition "x-version" >>= check_full_version t p major
          else ok (missing_full_version t p ∷ []))

abbrev pub pattern_issue : Key → String → Option ℕ → List Issue
pattern_issue t p none = invalid_pattern t p ∷ []
pattern_issue t p (some m) = []

-- The inner loop, over `versions.items()`.
unfoldable pub check_versions : Key → Fields → Result (List Issue)
unfolding check_definition major_of
check_versions t end = ok []
check_versions t (field (other_key n) definition rest) = raise type_error
check_versions t (field (name p) definition rest) =
    let others = check_versions t rest in
    do
      issues ← check_definition t p (major_of p) definition
      more ← others
      ok (pattern_issue t p (major_of p) ++ (issues ++ more))

abbrev pub check_type : Key → Value → Result (List Issue)
check_type t (dict (field k v fs)) = check_versions t (field k v fs)
check_type t _ = ok (invalid_versions t ∷ [])

-- The outer loop.
unfoldable pub check_types : Fields → Result (List Issue)
unfolding check_versions
check_types end = ok []
check_types (field t versions rest) = do
  issues ← check_type t versions
  more ← check_types rest
  ok (issues ++ more)

-- The pairs that the loops go through.
unfoldable pub patterns_of : Key → Fields → List (Key × Key)
patterns_of t end = []
patterns_of t (field p definition rest) = (t, p) ∷ patterns_of t rest

abbrev pub versions_of : Value → Fields
versions_of (dict fs) = fs
versions_of _ = end

unfoldable pub pairs_of : Fields → List (Key × Key)
unfolding patterns_of
pairs_of end = []
pairs_of (field t versions rest) = patterns_of t (versions_of versions) ++ pairs_of rest

unfoldable pub is_found : String × String → List (Key × Key) → Bool
is_found k [] = false
is_found k ((t, p) ∷ rest) = (t == name k.0 && p == name k.1) || is_found k rest

-- The loop over `msg_types_found`.
unfoldable pub missing : List (String × String) → List (Key × Key) → List Issue
unfolding is_found
missing [] pairs = []
missing (k ∷ keys) pairs =
    let others = missing keys pairs in if is_found k pairs then others else not_found k ∷ others

abbrev pub raise_if : List Issue → Result (Unit {0})
raise_if [] = ok tt
raise_if (i ∷ issues) = raise schema_error

abbrev pub check_schemas : List (String × String) → Value → Result (List Issue)
check_schemas keys (dict types) =
    check_types types >>= λ issues. ok (issues ++ missing keys (pairs_of types))
check_schemas keys _ = raise attribute_error

-- schema.get('schemas') and its test
abbrev pub check_found : List (String × String) → Option Value → Result (List Issue)
check_found keys none = ok (no_schemas ∷ missing keys [])
check_found keys (some schemas) =
    if is_truthy schemas then check_schemas keys schemas else ok (no_schemas ∷ missing keys [])

-- `keys` are those of HEDWIG_MESSAGE_ROUTING and HEDWIG_CALLBACKS.
unfoldable pub check_schema : List (String × String) → Value → Result (Unit {0})
unfolding check_types missing pairs_of
check_schema keys (dict fs) = check_found keys (get (name "schemas") (to_entries fs)) >>= raise_if
check_schema keys _ = raise attribute_error
