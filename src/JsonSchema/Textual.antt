-- ===== src/JsonSchema/Textual.antt =====
-- The types of what the validator of hedwig/validators/jsonschema.py gives to a backend.
use hedwig_python.Prelude.{String, ◌≡◌, refl, sym, ap, ◌∙◌, ◌++◌, subst, Bool, true, false, All}
use hedwig_python.Python.Dict.{IsDict}
use hedwig_python.Python.Exn.{ok, >>=-eq-ok, ok-inj}
use hedwig_python.Python.Value.{Value, Entries, key_eq, is_str}
use hedwig_python.Models.{Message, headers}
use hedwig_python.Validator.{Payload, text, MetaAttributes}
use hedwig_python.Validator.Headers.{IsSane, IsText}
use hedwig_python.Validator.Attributes.{own_attributes, encode_meta_attributes}
use hedwig_python.Validator.Attributes.Written.{
  encoded, written-IsDict, written-IsText, sane-IsText,
}
use hedwig_python.Validator.Codec.{serialize, meta_of}
use hedwig_python.Validator.Codec.Checked.{serialize_with-IsServed}
use hedwig_python.JsonSchema.{Library, encode_payload, json_format}
use hedwig_python.JsonSchema.RoundTrip.{IsTyped}

-- A payload of text, with attributes of text to text, each once.
pub record IsTextual (payload : Payload) (attrs : Entries) : Type 0 where
  pub line : String
  pub is_text : payload ≡ text line
  pub texts : All IsText attrs
  pub once : IsDict attrs

module _ (lib : Library) (root : String) where
  -- With transport attributes: hedwig's own attributes, and the headers behind them.
  pub encode_payload-written :
      (meta : MetaAttributes) (content : Value) (payload : Payload) (attrs : Entries)
      → All IsSane meta.headers
      → IsDict meta.headers
      → encode_payload lib true root meta content true ≡ ok (payload, attrs)
      → own_attributes lib.show meta ++ meta.headers ≡ attrs
  unfolding encode_payload
  encode_payload-written meta content payload attrs sane once h =
      let (attributes, written, h₁) = >>=-eq-ok (encode_meta_attributes lib.show true meta) _ h in
      let (line, dumped, same) = >>=-eq-ok (lib.dumps content) _ h₁ in
      encoded lib.show meta sane once attributes written ∙ ap (λ r. r.1) (ok-inj same)

  encode_payload-IsTextual :
      (setting : Bool) (meta : MetaAttributes) (content : Value) (payload : Payload)
      (attrs : Entries)
      → All IsSane meta.headers
      → IsDict meta.headers
      → is_str meta.publisher ≡ true
      → is_str meta.schema ≡ true
      → encode_payload lib setting root meta content setting ≡ ok (payload, attrs)
      → IsTextual payload attrs
  unfolding encode_payload
  encode_payload-IsTextual false meta content payload attrs sane once publisher schema h =
      let (line, dumped, same) = >>=-eq-ok (lib.dumps _) _ h in
      record {
        line = line;
        is_text = sym (ap (λ r. r.0) (ok-inj same));
        texts = subst (All IsText) (ap (λ r. r.1) (ok-inj same)) (sane-IsText meta.headers sane);
        once = subst IsDict (ap (λ r. r.1) (ok-inj same)) once;
      }
  encode_payload-IsTextual true meta content payload attrs sane once publisher schema h =
      let (attributes, written, h₁) = >>=-eq-ok (encode_meta_attributes lib.show true meta) _ h in
      let (line, dumped, same) = >>=-eq-ok (lib.dumps content) _ h₁ in
      let is_written = encode_payload-written meta content payload attrs sane once h in
      record {
        line = line;
        is_text = sym (ap (λ r. r.0) (ok-inj same));
        texts =
            subst (All IsText) is_written (written-IsText lib.show meta sane once publisher schema);
        once = subst IsDict is_written (written-IsDict lib.show meta sane once);
      }

  -- Whether or not transport attributes are used: what `serialize` returns for a message with typed
  -- fields is a text, never bytes, with attributes of text to text, each of them once.
  pub serialize-IsTextual :
      {P : Type 0} (setting : Bool) (m : Message Value P) (payload : Payload) (attrs : Entries)
      → IsTyped m
      → IsDict (headers m)
      → serialize setting (json_format lib setting root) m ≡ ok (payload, attrs)
      → IsTextual payload attrs
  unfolding serialize meta_of
  serialize-IsTextual setting m payload attrs typed once h =
      let fmt = json_format lib setting root in
      let s = serialize_with-IsServed fmt m setting payload attrs h in
      encode_payload-IsTextual setting (meta_of fmt m) m.content payload attrs s.sane once
        (ap is_str typed.publisher) refl s.encoded
