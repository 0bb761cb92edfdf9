-- ===== src/Validator/MessageType.antt =====
-- `_encode_message_type` and `_decode_message_type` of hedwig/validators/base.py. Both subclasses
-- give the same pattern, `([^/]+)/([^/]+)$`.
use hedwig_python.Prelude.{String, ◌≡◌, refl, false, some, ◌≢◌}
use hedwig_python.Python.Exn.{Result, ok, raise, validation_error, type_error, from_option, ◌>>=◌}
use hedwig_python.Python.Value.{Value, str}
use hedwig_python.Text.Segments.{has_slash, search_schema}
use hedwig_python.Version.{StrictVersion, parse, version_str}
use hedwig_python.Version.RoundTrip.{parse-version_str, version_str-no_slash, version_str-nonempty}
use hedwig_python.Validator.{Format}

module _ {D Raw : Type 0} (fmt : Format D Raw) where
  unfoldable pub encode_message_type : String → StrictVersion → String
  encode_message_type message_type version = fmt.schema_fmt message_type (version_str version)

-- The two groups of a match.
versioned : String × String → Result (String × StrictVersion)
versioned (message_type, text) = do
  full_version ← from_option validation_error (parse text)
  ok (message_type, full_version)

-- The pattern does not take an object that is not a `str`: that TypeError is not caught.
unfoldable pub decode_message_type : Value → Result (String × StrictVersion)
unfolding versioned
decode_message_type (str schema) = from_option validation_error (search_schema schema) >>= versioned
decode_message_type other = raise type_error

-- A type that can be told apart in a schema: some text with no slash in it.
pub record IsTypeName (message_type : String) : Type 0 where
  pub no_slash : has_slash message_type ≡ false
  pub nonempty : message_type ≢ ""

-- How a subclass lays a schema out: its pattern finds what its format string put in.
abbrev pub IsSchemaFmt : (String → String → String) → Type 0
IsSchemaFmt schema_fmt =
    (t v : String)
    → has_slash t ≡ false
    → has_slash v ≡ false
    → t ≢ ""
    → v ≢ ""
    → search_schema (schema_fmt t v) ≡ some (t, v)

module _ {D Raw : Type 0} (fmt : Format D Raw) (found : IsSchemaFmt fmt.schema_fmt) where
  -- The type and version that went into a schema come out of it.
  pub decode-encode_message_type :
      (t : String) (v : StrictVersion)
      → IsTypeName t
      → decode_message_type (str (encode_message_type fmt t v)) ≡ ok (t, v)
  unfolding decode_message_type encode_message_type
  decode-encode_message_type t v h =
      rw
        (found t (version_str v) h.no_slash (version_str-no_slash v) h.nonempty
          (version_str-nonempty v))
        (rw (parse-version_str v) refl)
