-- ===== src/Tests/Schemas.antt =====
-- `_check_schema` on a concrete schema.
use hedwig_python.Prelude.{◌≡◌, refl, [], ◌∷◌, string_eq}
use hedwig_python.Python.Dict.{get, has_key}
use hedwig_python.Python.Exn.{ok}
use hedwig_python.Python.Value.{name, Value, str, dict, end, field, key_eq}
use hedwig_python.Text.Decimal.{span_digits, is_digit}
use hedwig_python.Version.{parse}
use hedwig_python.JsonSchema.{subscript}
use hedwig_python.JsonSchema.Check.{
  check_schema, check_types, check_versions, check_definition, check_full_version, contains,
  major_of, missing, pairs_of, patterns_of, is_found,
}
use hedwig_python.JsonSchema.Check.Accepted.{IsComplete, check_schema-IsComplete}

abbrev schema : Value
schema = dict (
    field (name "id") (str "https://h/schema") (
      field (name "schemas")
        (dict (
          field (name "trip")
            (dict (
              field (name "1.*") (dict (field (name "x-version") (str "1.3") end))
                (field (name "2.*") (dict (field (name "x-version") (str "2.0") end)) end)))
            end))
        end))

accepted : check_schema (("trip", "1.*") ∷ ("trip", "2.*") ∷ []) schema ≡ ok tt
unfolding check_schema check_types check_versions check_definition check_full_version contains
    major_of missing pairs_of patterns_of is_found get has_key span_digits is_digit parse subscript
accepted = refl

check_schema-IsComplete_example : IsComplete (("trip", "1.*") ∷ ("trip", "2.*") ∷ []) schema
check_schema-IsComplete_example =
    check_schema-IsComplete (("trip", "1.*") ∷ ("trip", "2.*") ∷ []) schema accepted
