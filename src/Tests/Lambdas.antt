-- ===== src/Tests/Lambdas.antt =====
-- Records that a lambda is called with.
use hedwig_python.Prelude.{
  String, ◌≡◌, refl, arith, true, Option, none, some, List, [], ◌∷◌, ◌++◌, string_eq,
}
use hedwig_python.Python.Action.{Action, lift, ◌>>=◌, ◌>>◌}
use hedwig_python.Python.Dict.{get, has_key}
use hedwig_python.Python.Exn.{ok, raise, key_error}
use hedwig_python.Python.Value.{name, str, Entries, key_eq, to_str}
use hedwig_python.Validator.{Payload, text, binary}
use hedwig_python.Redis.{text_payload}
use hedwig_python.Aws.Lambda.{
  SnsRecord, Hooks, values, message_attributes, process_message, process_messages,
}
use hedwig_python.Aws.Lambda.Published.{as_text, published_values, process_message-published}

abbrev published : Entries
published = (name "hedwig_id", str "id-1") ∷ []

-- The letters a and b.
abbrev two_bytes : Payload
two_bytes = binary (97 ∷ 98 ∷ [])

abbrev shown : Entries → List (String × String)
shown = published_values (λ v. "?") (λ k. "?")

unfoldable bytes_record : SnsRecord
bytes_record = record {
  message = (text_payload two_bytes published).0;
  message_attributes = shown (text_payload two_bytes published).1;
  attributes = none;
}

abbrev Log : Type 0
Log = List String

abbrev logged : String → Action Log (Unit {0})
logged s log = (ok tt, log ++ s ∷ [])

abbrev payload_text : Payload → String
payload_text (text s) = s
payload_text (binary bytes) = "bytes"

abbrev logging : Hooks Log
logging = record {
  pre_process = λ r. logged "pre";
  post_process = λ r. logged "post";
  handler = λ payload attributes. logged (payload_text payload);
}

abbrev text_record : String → Option Entries → SnsRecord
text_record s attributes = record {
  message = s;
  message_attributes = shown published;
  attributes = attributes;
}

-- The second record has no attributes of its own.
process_messages_runs :
    process_messages logging true
      (text_record "first" (some []) ∷ text_record "second" none ∷ [])
      []
    ≡ (raise key_error, "pre" ∷ "first" ∷ "post" ∷ [])
unfolding process_messages process_message message_attributes values get to_str
process_messages_runs = refl

process_message-published_example :
    process_message logging bytes_record []
    ≡ (logging.pre_process bytes_record
          >> (lift (as_text two_bytes) >>= λ given.
              logging.handler given (text_payload two_bytes published).1
              >> logging.post_process bytes_record))
        []
unfolding bytes_record has_key
process_message-published_example =
    process_message-published logging (λ v. "?") (λ k. "?") two_bytes published bytes_record
      (omega arith, (omega arith, tt)) ((refl, refl), tt) refl refl refl []
