-- ===== src/EndToEnd.antt =====
-- A message from its serialization to its callback: the validator of
-- hedwig/validators/jsonschema.py inside the handler of hedwig/backends/base.py.
use hedwig_python.Prelude.{String, ◌≡◌, refl, ◌∙◌, true, Option, some, pair_eq}
use hedwig_python.Python.Dict.{get, IsDict}
use hedwig_python.Python.Exn.{ok}
use hedwig_python.Python.Plain.{plain}
use hedwig_python.Python.Value.{Value, Entries, key_eq}
use hedwig_python.Models.{Message, headers, major_version, with_provider_metadata}
use hedwig_python.Callback.{Function, Registry, check_signature, version_pattern}
use hedwig_python.Consumer.Handler.{message_handler, message_handler_outcome}
use hedwig_python.Validator.{Payload}
use hedwig_python.Validator.MessageType.{IsTypeName}
use hedwig_python.Validator.Codec.{serialize, deserialize}
use hedwig_python.JsonSchema.{Library, json_format}
use hedwig_python.JsonSchema.RoundTrip.{IsJson, IsTyped, deserialize-serialize}

-- A serialized message, handed to `message_handler` with whatever metadata the provider adds, runs
-- the callback that is registered for its type and major version, on the message that was sent
-- with that metadata, and what the callback returns or raises is the outcome.
pub delivery :
    {P : Type 0} (lib : Library) (json : IsJson lib) (root : String)
    (callbacks : Registry (Message Value P)) (fn : Function (Message Value P)) (m : Message Value P)
    (payload : Payload) (attrs : Entries) (pm : Option P)
    → IsTyped m
    → IsTypeName m.type
    → plain m.content ≡ true
    → IsDict (headers m)
    → serialize true (json_format lib true root) m ≡ ok (payload, attrs)
    → get (m.type, version_pattern (major_version m)) callbacks ≡ some fn
    → check_signature fn.parameters ≡ ok tt
    → message_handler callbacks (deserialize true (json_format lib true root)) payload attrs pm
      ≡ fn.run (with_provider_metadata m pm)
unfolding with_provider_metadata
delivery lib json root callbacks fn m payload attrs pm typed named p once sent registered signed =
    message_handler_outcome callbacks (deserialize true (json_format lib true root)) payload attrs
      pm
    ∙ rw (deserialize-serialize lib json root m payload attrs pm typed named p once sent)
        (rw registered (rw signed refl))
