-- ===== src/Redis/Pull.antt =====
-- `pull_messages`, `ack_message` and `extend_visibility_timeout` of hedwig/backends/redis.py. The
-- generator runs the body of the loop that consumes it at each `yield`.
use hedwig_python.Prelude.{
  ℕ, suc, ◌*◌, String, Bool, true, Option, none, some, List, [], ◌∷◌, ltb, ◌==◌, nat_eq,
  if◌then◌else◌,
}
use Prim.Native.String.{◌++◌ as ◌<>◌}
use hedwig_python.Python.Exn
use hedwig_python.Python.Action.{Action, pure, lift, finally_do, ◌>>=◌, ◌>>◌}
use hedwig_python.Python.Exn.{Result, ok, raise, guard, assertion_error, index_error, from_option}
use hedwig_python.Consumer.World.{World, on_server, close}
use hedwig_python.Redis.{Bytes, utf8, StreamFields, RedisMessage, RedisMetadata}

-- A message of a stream: its id and fields.
abbrev pub Entry : Type 0
Entry = Bytes × StreamFields

-- A command of a pipeline.
pub data Command : Type 0 where
  xadd_command : String → StreamFields → Command
  xack_command : Bytes → List Bytes → Command

-- The commands of a Redis client, for the group and the consumer of this object, on the state `S` of
-- the server: `xautoclaim` from id 0-0, of which the second result counts, with its idle time in
-- milliseconds and count; `xreadgroup` with the streams and the count; `times_delivered` of the first entry of
-- `xpending_range` over one id, if it has one; `xclaim` with an idle time of 0; `xack` of one
-- id; and the execution of a pipeline.
pub record Client (S : Type 0) : Type 0 where
  pub xautoclaim : String → ℕ → ℕ → Action S (List Entry)
  pub xreadgroup : List String → ℕ → Action S (List (Bytes × List (List Entry)))
  pub times_delivered : Bytes → Bytes → Action S (Option ℕ)
  pub xclaim : String → String → Action S (Unit {0})
  pub xack : Bytes → Bytes → Action S (Unit {0})
  pub execute : List Command → Action S (Unit {0})

-- The settings, and the names of the streams.
pub record Config : Type 0 where
  pub max_delivery_attempts : ℕ
  pub visibility_timeout_s : ℕ
  pub deadletter_stream : String
  pub streams : List String

-- A setting of 0 or none is none.
abbrev set_to : Option ℕ → Result ℕ
set_to (some (suc n)) = ok (suc n)
set_to _ = raise assertion_error

abbrev stream_of : String → String
stream_of name = "hedwig:" <> name

abbrev streams_of : List String → String → List String
streams_of [] main_stream = main_stream ∷ []
streams_of (name ∷ names) main_stream = stream_of name ∷ streams_of names main_stream

-- `__init__`, from HEDWIG_MAX_DELIVERY_ATTEMPTS, HEDWIG_VISIBILITY_TIMEOUT_S, HEDWIG_QUEUE and
-- HEDWIG_SUBSCRIPTIONS.
unfoldable pub configure : Option ℕ → Option ℕ → String → List String → Bool → Result Config
configure max_delivery_attempts visibility_timeout_s queue subscriptions dlq =
    Exn.◌>>=◌ (set_to max_delivery_attempts) λ attempts.
      Exn.◌>>=◌ (set_to visibility_timeout_s) λ timeout. ok (record {
        max_delivery_attempts = attempts;
        visibility_timeout_s = timeout;
        deadletter_stream = stream_of queue <> ":dlq";
        streams =
            if dlq
            then (stream_of queue <> ":dlq") ∷ []
            else streams_of subscriptions (stream_of queue);
      })

abbrev pub Body : Type 0 → Type 0
Body S = RedisMessage → Action (World RedisMessage S) (Unit {0})

module _ {S : Type 0} (client : Client S) (config : Config) where
  -- One message of `_process_raw_messages`: it was delivered too often, or it is yielded.
  unfoldable pub route : Bytes → Entry → ℕ → Body S → Action (World RedisMessage S) (Unit {0})
  route stream (message_id, message_payload) times_delivered body =
      if ltb config.max_delivery_attempts times_delivered
      then on_server (
          client.execute (
            xadd_command config.deadletter_stream message_payload
            ∷ xack_command stream (message_id ∷ [])
            ∷ []))
      else body (record {
        stream = stream;
        key = message_id;
        payload = message_payload;
        delivery_attempt = times_delivered;
      })

  unfoldable pub process_raw_messages :
      Bytes → List Entry → Body S → Action (World RedisMessage S) (Unit {0})
  unfolding route
  process_raw_messages stream [] body = pure tt
  process_raw_messages stream (message ∷ messages) body = do
    found ← on_server (client.times_delivered stream message.0)
    times_delivered ← lift (from_option index_error found)
    route stream message times_delivered body
    process_raw_messages stream messages body

  -- The loop that claims timed out messages.
  unfoldable pub claim_all : List String → ℕ → Body S → Action (World RedisMessage S) (Unit {0})
  unfolding process_raw_messages
  claim_all [] num_messages body = pure tt
  claim_all (stream ∷ streams) num_messages body = do
    entries ← on_server (client.xautoclaim stream (config.visibility_timeout_s * 1000) num_messages)
    process_raw_messages (utf8 stream) entries body
    claim_all streams num_messages body

  unfoldable pub process_lists :
      Bytes → List (List Entry) → Body S → Action (World RedisMessage S) (Unit {0})
  unfolding process_raw_messages
  process_lists stream [] body = pure tt
  process_lists stream (messages ∷ rest) body = do
    process_raw_messages stream messages body
    process_lists stream rest body

  unfoldable pub process_streams :
      List (Bytes × List (List Entry)) → Body S → Action (World RedisMessage S) (Unit {0})
  unfolding process_lists
  process_streams [] body = pure tt
  process_streams ((stream, entries) ∷ rest) body = do
    process_lists stream entries body
    process_streams rest body

  -- The body of the `try` statement.
  unfoldable pub claim_and_read : ℕ → Body S → Action (World RedisMessage S) (Unit {0})
  unfolding claim_all process_streams
  claim_and_read num_messages body = do
    claim_all config.streams num_messages body
    entries ← on_server (client.xreadgroup config.streams num_messages)
    process_streams entries body

  abbrev no_timeout : Option ℕ → Bool
  no_timeout none = true
  no_timeout (some n) = n == 0

  unfoldable pub pull_messages :
      ℕ → Option ℕ → ℕ → ℕ → Body S → Action (World RedisMessage S) (Unit {0})
  unfolding claim_and_read close
  pull_messages num_messages visibility_timeout reset_at beat_at body = do
    lift (guard (no_timeout visibility_timeout) assertion_error)
    finally_do (claim_and_read num_messages body) (close reset_at beat_at)

  unfoldable pub ack_message : RedisMessage → Action S (Unit {0})
  ack_message queue_message = client.xack queue_message.stream queue_message.key

  unfoldable pub extend_visibility_timeout : ℕ → RedisMetadata → Action S (Unit {0})
  extend_visibility_timeout visibility_timeout_s metadata = do
    lift (guard (visibility_timeout_s == config.visibility_timeout_s) assertion_error)
    client.xclaim metadata.stream metadata.id
