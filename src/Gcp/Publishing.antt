-- ===== src/Gcp/Publishing.antt =====
-- The two publishers of hedwig/backends/gcp.py.
pub mod Sent
use Prim.Native.String.{◌++◌ as ◌<>◌}
use hedwig_python.Prelude.{
  ℕ, String, Bool, true, false, not, Option, none, some, List, [], ◌∷◌, if◌then◌else◌,
}
use hedwig_python.Python.Action.{Action, pure, lift, and_then, ◌>>=◌, ◌>>◌}
use hedwig_python.Python.Dict.{has_key, update}
use hedwig_python.Python.Exn.{Result, ok, raise, guard, type_error}
use hedwig_python.Python.Value.{Key, name, Value, str, Entries, to_str, key_eq}
use hedwig_python.Models.{Message}
use hedwig_python.Validator.{Payload}
use hedwig_python.Publisher.{Topic, here, elsewhere, Routing, topic}
use hedwig_python.Environ.{Variables, Process}
use hedwig_python.Aws.{key_str}
use hedwig_python.Gcp.Keywords.{call_publish}
use hedwig_python.Gcp.{bytes_payload}
use hedwig_python.Gcp.Credentials.{Cloud, Names, seed_credentials, get_google_cloud_project}

-- {str(key): str(value) for key, value in attrs.items()}, before equal keys are put together.
abbrev pub text_items : (Value → String) → (Key → String) → Entries → Entries
text_items show show_key [] = []
text_items show show_key ((k, v) ∷ attrs) =
    (name (key_str show_key k), str (to_str show v)) ∷ text_items show show_key attrs

unfoldable pub text_attributes : (Value → String) → (Key → String) → Entries → Entries
text_attributes show show_key attrs = update [] (text_items show show_key attrs)

-- The calls of a publisher client on the state `S` of the service: `create` is its constructor,
-- which reads the environment, `publish` has a topic, data, options and attributes, and `result`
-- waits for a future of type `F`.
pub record Client (S F : Type 0) : Type 0 where
  pub create : Variables → Action S (Unit {0})
  pub topic_path : Option String → String → String
  pub publish : String → List ℕ → Entries → Entries → Action S F
  pub result : F → Action S String

-- `is_created` says that `self._publisher` is not None.
pub record Held (S : Type 0) : Type 0 where
  pub is_created : Bool
  pub service : S

abbrev pub with_service :
    {S : Type 0} → Bool → S → Process (Cloud (Held S)) → Process (Cloud (Held S))
with_service created s w = record w {
  rest = record w.rest { outside = record { is_created = created; service = s } };
}

abbrev pub on_service : {S A : Type 0} → Action S A → Action (Process (Cloud (Held S))) A
on_service m w =
    let r = m w.rest.outside.service in (r.0, with_service w.rest.outside.is_created r.1 w)

abbrev pub is_ok : Result (Unit {0}) → Bool
is_ok (ok _) = true
is_ok (raise _) = false

-- `default` is google.auth.default.
module _ {S F : Type 0} (names : Names) (credentials : Option String)
    (default : Variables → Action S (Option String)) (client : Client S F) where
  abbrev pub create_client : Action (Process (Cloud (Held S))) (Unit {0})
  create_client w =
      let r = client.create w.environ w.rest.outside.service in
      (r.0, with_service (is_ok r.0) r.1 w)

  -- The property, which makes the client when it is first read.
  unfoldable pub publisher : Action (Process (Cloud (Held S))) (Unit {0})
  unfolding seed_credentials
  publisher w =
      if w.rest.outside.is_created
      then (ok tt, w)
      else seed_credentials names credentials create_client w

  abbrev pub default_project : Variables → Action (Held S) (Option String)
  default_project variables held =
      let r = default variables held.service in (r.0, record held { service = r.1 })

  abbrev pub project_of : Topic → Action (Process (Cloud (Held S))) (Option String)
  project_of (here t) = get_google_cloud_project names credentials default_project
  project_of (elsewhere t project) = pure (some project)

  abbrev pub topic_of : Topic → String
  topic_of (here t) = t
  topic_of (elsewhere t project) = t

  -- f'hedwig-{topic}' in its project
  unfoldable pub get_topic_path :
      {D P : Type 0} → Routing → Message D P → Action (Process (Cloud (Held S))) String
  unfolding topic get_google_cloud_project publisher
  get_topic_path routing message = do
    t ← lift (topic routing message)
    project ← project_of t
    publisher
    pure (client.topic_path project ("hedwig-" <> topic_of t))

  -- publish(topic_path, data=data, **attrs)
  unfoldable pub publish_to_topic :
      (Value → String)
      → (Key → String)
      → String
      → List ℕ
      → Entries
      → Action (Process (Cloud (Held S))) F
  unfolding text_attributes publisher call_publish
  publish_to_topic show show_key topic_path data_ attrs = do
    let texts = text_attributes show show_key attrs
    publisher
    on_service (call_publish (client.publish topic_path data_) texts)

  module _ {D P : Type 0} (show : Value → String) (show_key : Key → String)
      (routing : Routing) where
    -- `_publish` of the asynchronous publisher
    unfoldable pub publish_over_pubsub :
        Message D P → Payload → Entries → Action (Process (Cloud (Held S))) F
    unfolding get_topic_path publish_to_topic bytes_payload
    publish_over_pubsub message payload attributes = do
      topic_path ← get_topic_path routing message
      publish_to_topic show show_key topic_path (bytes_payload payload attributes).0
          (bytes_payload payload attributes).1

    -- The other one waits for the future.
    unfoldable pub publish_and_wait :
        Message D P → Payload → Entries → Action (Process (Cloud (Held S))) String
    unfolding publish_over_pubsub
    publish_and_wait message payload attributes = do
      future ← publish_over_pubsub message payload attributes
      on_service (client.result future)
