-- ===== src/Tests/Publishers.antt =====
-- The publisher on a concrete message.
use hedwig_python.Prelude.{String, ◌≡◌, refl, Bool, true, false, List, [], ◌∷◌, All, string_eq}
use hedwig_python.Prelude.Int.{pos}
use hedwig_python.Python.Dict.{get, IsDict, or_else, has_key, update, put}
use hedwig_python.Python.Exn.{Exn, ok, raise}
use hedwig_python.Python.Value.{name, Value, int, str, Entries, key_eq}
use hedwig_python.Models.{headers}
use hedwig_python.Validator.{Payload}
use hedwig_python.Validator.Headers.{IsSane}
use hedwig_python.Validator.Codec.{serialize}
use hedwig_python.JsonSchema.{json_format}
use hedwig_python.Publisher.{Publishing, tracing, with_defaults, with_tracing, publish}
use hedwig_python.Publisher.Headers.{get-published}
use hedwig_python.Publisher.Sending.{publish_insane}
use hedwig_python.Tests.Codecs.{root, lib, trip, trip-IsDict}

-- The state outside lists the payloads that were sent.
abbrev publishing : Bool → Entries → Publishing Value String (List Payload)
publishing sync header_defaults = record {
  sync = sync;
  default_headers = λ m. ok header_defaults;
  instrumented = true;
  inject = λ m. (name "traceparent", str "00-1") ∷ [];
  serialize = serialize true (json_format lib true root);
  dispatch = λ m. ok tt;
  uuid = "u-1";
  send = λ m payload attributes s. (ok "sent", payload ∷ s);
}

abbrev header_defaults : Entries
header_defaults = (name "request_id", str "default") ∷ (name "zone", str "eu") ∷ []

traced : IsDict (
    tracing
      (publishing false header_defaults)
      (with_defaults (publishing false header_defaults) trip header_defaults))
unfolding has_key
traced = (refl, tt)

get-published_example :
    get (name "request_id") (
      headers (
        with_tracing
          (publishing false header_defaults)
          (with_defaults (publishing false header_defaults) trip header_defaults)))
    ≡ or_else
        (get (name "request_id") (
          tracing
            (publishing false header_defaults)
            (with_defaults (publishing false header_defaults) trip header_defaults)))
        (or_else (get (name "request_id") (headers trip)) (get (name "request_id") header_defaults))
get-published_example =
    get-published (publishing false header_defaults) (name "request_id") trip header_defaults
      trip-IsDict traced

-- A default header with a number in it.
abbrev wrong : Entries
wrong = (name "attempt", int (pos 2)) ∷ []

wrong-insane : ¬ All IsSane (
    headers
      (with_tracing (publishing false wrong) (with_defaults (publishing false wrong) trip wrong)))
unfolding with_tracing with_defaults update put has_key
wrong-insane ((here, value, rest), others) = cc

publish_insane_example : (e : Exn) × (publish (publishing false wrong) trip [] ≡ (raise e, []))
publish_insane_example =
    publish_insane (json_format lib true root) true (publishing false wrong) trip wrong [] refl refl
      refl wrong-insane
