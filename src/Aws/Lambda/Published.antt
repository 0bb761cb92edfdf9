-- ===== src/Aws/Lambda/Published.antt =====
-- What the handler of a lambda is given of a message that was published over SNS.
use mathlib.Core.Option
use hedwig_python.Prelude.{String, ◌≡◌, refl, false, List, [], ◌∷◌, All, string_eq}
use hedwig_python.Python.Action.{lift, ◌>>=◌, ◌>>◌}
use hedwig_python.Python.Dict.{get, has_key, put-fresh, get-snoc, get-none}
use hedwig_python.Python.Exn.{Result, ok, from_option, unicode_error}
use hedwig_python.Python.Value.{Key, name, other_key, Value, str, Entries, key_eq, to_str}
use hedwig_python.Text.Base64.RoundTrip.{decodebytes-encodebytes}
use hedwig_python.Text.Utf8.{decode_utf8}
use hedwig_python.Validator.{Payload, text, binary}
use hedwig_python.Redis.{text_payload, is_base64}
use hedwig_python.Redis.Packed.{IsPayload}
use hedwig_python.Aws.{key_str}
use hedwig_python.Validator.Headers.{IsText}
use hedwig_python.Aws.Received.{sent-IsText}
use hedwig_python.Aws.Lambda.{SnsRecord, Hooks, values, message_payload, process_message}

-- Bytes come as a text, if they are UTF-8.
abbrev pub as_text : Payload → Result Payload
as_text (text s) = ok (text s)
as_text (binary bytes) = from_option unicode_error (Option.map text (decode_utf8 bytes))

module _ (show : Value → String) (show_key : Key → String) where
  -- The values of the message attributes that were published.
  abbrev pub published_values : Entries → List (String × String)
  published_values [] = []
  published_values ((k, v) ∷ m) = (key_str show_key k, to_str show v) ∷ published_values m

  values-published_values : (m : Entries) → All IsText m → values (published_values m) ≡ m
  unfolding values to_str
  values-published_values [] h = refl
  values-published_values ((name k, str v) ∷ m) (here, there) =
      rw (values-published_values m there) refl
  values-published_values ((name k, v) ∷ m) (here, there) = cc
  values-published_values ((other_key n, v) ∷ m) (here, there) = cc

  message_payload-text_payload :
      (payload : Payload) (attributes : Entries)
      → has_key (name "hedwig_encoding") attributes ≡ false
      → IsPayload payload
      → message_payload
          (is_base64 (get (name "hedwig_encoding") (text_payload payload attributes).1))
          (text_payload payload attributes).0
        ≡ as_text payload
  unfolding text_payload
  message_payload-text_payload (text s) attributes h good =
      rw (get-none (name "hedwig_encoding") attributes h) refl
  message_payload-text_payload (binary bytes) attributes h good =
      rw (put-fresh (name "hedwig_encoding") (str "base64") attributes h) (
        rw (get-snoc (name "hedwig_encoding") (str "base64") attributes h)
          (rw (decodebytes-encodebytes bytes good) refl))

-- A record of a message that was published to a topic, with attributes of text without a mark of an
-- encoding: `process_message` calls the first hook, the handler and the last hook, until one of them
-- raises. A payload of text is the handler's as it was; one of bytes is the handler's as a text, and
-- an UnicodeDecodeError comes in its place where it is no UTF-8.
pub process_message-published :
    {S : Type 0} (hooks : Hooks S) (show : Value → String) (show_key : Key → String)
    (payload : Payload) (attributes : Entries) (r : SnsRecord)
    → IsPayload payload
    → All IsText attributes
    → has_key (name "hedwig_encoding") attributes ≡ false
    → r.message ≡ (text_payload payload attributes).0
    → r.message_attributes ≡ published_values show show_key (text_payload payload attributes).1
    → (s : S)
    → process_message hooks r s
      ≡ (hooks.pre_process r
            >> (lift (as_text payload) >>= λ given.
                hooks.handler given (text_payload payload attributes).1 >> hooks.post_process r))
          s
unfolding process_message
process_message-published hooks show show_key payload attributes r good typed unmarked body has s =
    rw has (
      rw
        (values-published_values show show_key (text_payload payload attributes).1
          (sent-IsText show show_key payload attributes unmarked typed))
        (rw body
          (rw (message_payload-text_payload show show_key payload attributes unmarked good) refl)))
