-- ===== src/Validator/Attributes/RoundTrip.antt =====
-- What `_encode_meta_attributes` writes, `_decode_meta_attributes` reads.
use hedwig_python.Prelude.{
  String, ◌≡◌, refl, true, false, [], ◌∷◌, ◌++◌, arith, All, ◌==◌, string_eq, ==_iff, ==_ne, ap,
  if◌then◌else◌, Bool,
}
use hedwig_python.Prelude.Int.{ℤ}
use hedwig_python.Python.Dict.{get, has_key, IsDict, IsFresh, update-fresh}
use hedwig_python.Python.Exn.{ok, ◌>>=◌}
use hedwig_python.Python.Value.{name, other_key, Value, str, int, strict_version, Entries, key_eq}
use hedwig_python.Text.IntLiteral.{int_of-int_str}
use hedwig_python.Text.Prefix.{starts_with}
use hedwig_python.Version.{StrictVersion, version_str}
use hedwig_python.Version.RoundTrip.{parse-version_str, version_str-nonempty}
use hedwig_python.Validator.{MetaAttributes}
use hedwig_python.Validator.Headers.{reserved, IsSane}
use hedwig_python.Validator.Attributes.{
  custom_headers, decode_meta_attributes, own_attributes, encode_meta_attributes,
}

pub not_reserved_ne :
    (t s : String)
    → starts_with t reserved ≡ true
    → starts_with s reserved ≡ false
    → (t == s) ≡ false
not_reserved_ne t s ht hs = ground (arith, ==_iff t s, ap (λ (x : String). starts_with x reserved))

-- The header check lets every header through.
custom_headers_sane : (m : Entries) → All IsSane m → custom_headers m ≡ ok m
unfolding custom_headers
custom_headers_sane [] h = refl
custom_headers_sane ((name k, v) ∷ m) (here, there) =
    rw (custom_headers_sane m there)
      (ap (λ (b : Bool). ok (if b then m else (name k, v) ∷ m)) here.2)
custom_headers_sane ((other_key n, v) ∷ m) (here, there) = cc

module _ (show : Value → String) (meta : MetaAttributes) where
  own_has_no :
      (s : String)
      → starts_with s reserved ≡ false
      → has_key (name s) (own_attributes show meta) ≡ false
  unfolding has_key own_attributes starts_with
  own_has_no s h = ground (
    arith,
    not_reserved_ne "hedwig_format_version" s refl h,
    not_reserved_ne "hedwig_id" s refl h,
    not_reserved_ne "hedwig_message_timestamp" s refl h,
    not_reserved_ne "hedwig_publisher" s refl h,
    not_reserved_ne "hedwig_schema" s refl h,
  )

  pub own-IsFresh : (m : Entries) → All IsSane m → IsFresh (own_attributes show meta) m
  own-IsFresh [] h = tt
  own-IsFresh ((name k, v) ∷ m) (here, there) = (own_has_no k here.2, own-IsFresh m there)
  own-IsFresh ((other_key n, v) ∷ m) (here, there) = cc

  custom_headers-own :
      (m : Entries) → All IsSane m → custom_headers (own_attributes show meta ++ m) ≡ ok m
  unfolding custom_headers own_attributes starts_with
  custom_headers-own m h = rw (custom_headers_sane m h) refl

-- Attributes that can be written down and read again.
abbrev pub wire_meta :
    (timestamp : ℤ) (publisher : String) (headers : Entries) (id schema : String)
    → StrictVersion
    → MetaAttributes
wire_meta timestamp publisher headers id schema format_version = record {
  timestamp = int timestamp;
  publisher = str publisher;
  headers = headers;
  id = str id;
  schema = str schema;
  format_version = strict_version format_version;
}

-- Reading hedwig's own attributes with any sane headers behind them.
decode-own :
    (show : Value → String) (z : ℤ) (publisher : String) (headers : Entries) (id schema : String)
    (v : StrictVersion)
    → All IsSane headers
    → decode_meta_attributes true
        (own_attributes show (wire_meta z publisher headers id schema v) ++ headers)
      ≡ ok (wire_meta z publisher headers id schema v)
unfolding decode_meta_attributes
decode-own show z publisher headers id schema v sane =
    rw (custom_headers-own show (wire_meta z publisher headers id schema v) headers sane) (
      unfold own_attributes get in
      rw (int_of-int_str z)
        (rw (==_ne (version_str v) "" (version_str-nonempty v)) (rw (parse-version_str v) refl)))

-- Encoding sane headers and then decoding gives every meta attribute back.
pub decode-encode_meta_attributes :
    (show : Value → String) (z : ℤ) (publisher : String) (headers : Entries) (id schema : String)
    (v : StrictVersion)
    → All IsSane headers
    → IsDict headers
    → (encode_meta_attributes show true (wire_meta z publisher headers id schema v)
        >>= decode_meta_attributes true)
      ≡ ok (wire_meta z publisher headers id schema v)
unfolding encode_meta_attributes
decode-encode_meta_attributes show z publisher headers id schema v sane once =
    let meta = wire_meta z publisher headers id schema v in
    rw (update-fresh (own_attributes show meta) headers once (own-IsFresh show meta headers sane))
      (decode-own show z publisher headers id schema v sane)
