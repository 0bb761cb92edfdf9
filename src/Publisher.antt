-- ===== src/Publisher.antt =====
-- `HedwigPublisherBaseBackend` of hedwig/backends/base.py.
pub mod Headers
pub mod Sending
use hedwig_python.Prelude.{
  String, ◌≡◌, refl, Bool, true, false, Option, none, some, List, [], ◌∷◌, if◌then◌else◌, pair_eq,
}
use hedwig_python.Python.Action.{Action, pure, lift, modify, and_then, ◌>>=◌, ◌>>◌}
use hedwig_python.Python.Dict.{get, update}
use hedwig_python.Python.Exn
use hedwig_python.Python.Exn.{Result, ok, raise, key_error, from_option}
use hedwig_python.Python.Value.{Entries, key_eq}
use hedwig_python.Models.{Message, headers, major_version, with_headers}
use hedwig_python.Callback.{version_pattern}
use hedwig_python.Validator.{Payload}
use hedwig_python.Consumer.Loop.{Backend, maybe_instrument}

-- A value of HEDWIG_MESSAGE_ROUTING: a topic's name, or one with its project or account.
pub data Topic : Type 0 where
  here : String → Topic
  elsewhere : (topic project : String) → Topic

abbrev pub Routing : Type 0
Routing = List ((String × String) × Topic)

unfoldable pub topic : {D P : Type 0} → Routing → Message D P → Result Topic
unfolding version_pattern
topic routing message =
    from_option key_error (get (message.type, version_pattern (major_version message)) routing)

-- `_dispatch_sync`: a mock queue message goes through the consumer's hooks and processing at once.
unfoldable pub dispatch_sync :
    {D P Q : Type 0} → (Message D P → Result Q) → Backend Q → Message D P → Result (Unit {0})
dispatch_sync mock_queue_message b message = Exn.◌>>=◌ (mock_queue_message message) λ queue_message.
    Exn.◌>>◌ (b.pre_process_hook queue_message)
      (Exn.◌>>◌ (b.process_message queue_message) (b.post_process_hook queue_message))

-- The settings and the environment of a publisher. `S` is the state outside, `instrumented` says
-- that hedwig.instrumentation can be imported, and `inject` gives the tracing headers that it then
-- adds. `dispatch` is the handling of a mock message, and `send` is the backend's `_publish`.
pub record Publishing (D P S : Type 0) : Type 0 where
  pub sync : Bool
  pub default_headers : Message D P → Result Entries
  pub instrumented : Bool
  pub inject : Message D P → Entries
  pub serialize : Message D P → Result (Payload × Entries)
  pub dispatch : Message D P → Result (Unit {0})
  pub uuid : String
  pub send : Message D P → Payload → Entries → Action S String

-- An empty dictionary is no reason for a new message.
abbrev pub is_empty : Entries → Bool
is_empty [] = true
is_empty (e ∷ m) = false

module _ {D P S : Type 0} (p : Publishing D P S) where
  -- {**default_headers, **message.headers}
  unfoldable pub with_defaults : Message D P → Entries → Message D P
  unfolding with_headers
  with_defaults message defaults =
      if is_empty defaults
      then message
      else with_headers message (update defaults (headers message))

  abbrev pub tracing : Message D P → Entries
  tracing message = if p.instrumented then p.inject message else []

  -- {**message.headers, **instrumentation_headers}
  unfoldable pub with_tracing : Message D P → Message D P
  unfolding with_headers
  with_tracing message = with_headers message (update (headers message) (tracing message))

  -- The body of the `with` statement.
  unfoldable pub serialize_and_send : Message D P → Action S String
  serialize_and_send message = do
    (payload, attributes) ← lift (p.serialize message)
    p.send message payload attributes

  unfoldable pub publish_async : Message D P → Action S String
  unfolding with_defaults with_tracing serialize_and_send
  publish_async message = do
    defaults ← lift (p.default_headers message)
    maybe_instrument p.instrumented
        (serialize_and_send (with_tracing (with_defaults message defaults)))

  unfoldable pub publish : Message D P → Action S String
  unfolding publish_async
  publish message =
      if p.sync then (do lift (p.dispatch message); pure p.uuid) else publish_async message
