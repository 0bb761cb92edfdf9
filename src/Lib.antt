-- ===== src/Lib.antt =====
-- hedwig-python: publishing and consuming messages with validated schemas over a transport.
--
-- A publisher's message (hedwig/models.py) is checked and encoded by a validator
-- (hedwig/validators/base.py and a subclass), and sent by a publisher backend
-- (hedwig/backends/base.py and a subclass). A consumer backend pulls queue messages, decodes each by
-- the validator, finds a callback by the message's type and major version (hedwig/callback.py),
-- calls it, and acknowledges the queue message or sends it back.
--
-- Files and the code they model:
--   Python: the exceptions (hedwig/exceptions.py), dynamic values, dictionaries in insertion order,
--     and methods that change an object and may raise.
--   Text: what the code uses of `str` and `bytes`: decimal numbers, `int`, `startswith`, UTF-8,
--     base64, and the pattern `([^/]+)/([^/]+)$`. Version: `distutils.version.StrictVersion`.
--   Models: `Message` and `Metadata` of hedwig/models.py.
--   Validator: `HedwigBaseValidator` of hedwig/validators/base.py. `Format` is what a subclass
--     gives; Headers is `_verify_headers`, MessageType `_encode_message_type` and
--     `_decode_message_type`, Attributes `_encode_meta_attributes` and `_decode_meta_attributes`,
--     and Codec the serializing and deserializing methods.
--   JsonSchema: `JSONSchemaValidator` of hedwig/validators/jsonschema.py, Check its `_check_schema`,
--     Formats its `_check_human_uuid`.
--   Protobuf: `ProtobufValidator` of hedwig/validators/protobuf.py. Wire is what it gives the base
--     validator, Check its `_check_schema`; RoundTrip and Boxed follow a message, in the bare
--     format, the container and a line of the firehose.
--   Callback: `Callback` of hedwig/callback.py.
--   Consumer: `HedwigConsumerBaseBackend` of hedwig/backends/base.py. `Consumer` is the object's
--     state with a history of the calls; Loop is `fetch_and_process_messages` and each clause of
--     its `try` statements, with the heartbeats that a callback forces by extending a visibility
--     timeout, Handler is `message_handler`. Outcome says apart from the loop what
--     becomes of a message.
--   Publisher: `HedwigPublisherBaseBackend` of hedwig/backends/base.py.
--   Redis: hedwig/backends/redis.py. Pull is the generator `pull_messages`, Requeue is
--     `requeue_dead_letter`, Packed and Delivery follow a message over a stream.
--   Aws: hedwig/backends/aws.py. Requeue is the SQS consumer's part that calls the service, Received
--     follows a message from a topic to the handler, Lambda is the SNS consumer, and Delivery
--     follows a message over a topic.
--   Environ: `override_env` of hedwig/backends/utils.py.
--   Gcp: hedwig/backends/gcp.py. Credentials is the module's `get_google_cloud_project` and its
--     helpers, Publishing the publisher, Pull the consumer with its scheduler and work queue,
--     Requeue is `requeue_dead_letter`, Received and Delivery follow a message over a topic.
--   Settings: `_LazySettings` of hedwig/conf/__init__.py, with the state of its cache, and
--     `unconfigure` of hedwig/testing/config.py. Import is hedwig/backends/import_utils.py and the
--     values of settings, Defaults the tables, Sources where a setting is taken from.
--   Instrumentation: hedwig/instrumentation/__init__.py, with its calls of hedwig/backends/base.py:
--     a round of the consumer's loop, and `publish`, within their `with` statements.
--   Testing: the mock of hedwig/testing/pytest_plugin.py and its assertions.
--   Entry: the entry points of hedwig/consumer.py, hedwig/commands.py and hedwig/publisher.py, with the
--     cached backends of hedwig/backends/utils.py.
--   EndToEnd: a message from `serialize` to its callback.
--
-- Code outside the repository is a parameter: `json` and package jsonschema are the record
-- `JsonSchema.Library`, and a backend's calls and the application's hooks are the records
-- `Consumer.Loop.Backend` and `Publisher.Publishing`. A Redis server is the record
-- `Redis.Pull.Client`. The hypotheses on them are `JsonSchema.RoundTrip.IsJson`: `json.loads` reads
-- back what `json.dumps` printed, for plain data; and `Redis.Requeue.Drained.Answers`: a command
-- replies with first messages of a queue, and an executed pipeline has added what its commands add
-- to the main stream and has taken off the queue what they acknowledge; and
-- `Aws.Requeue.Lossless.Keeping` and `Aws.Requeue.Ends.Shrinking`, what a deletion after a successful
-- sending leaves. The calls of boto3 are the record `Aws.Requeue.Sqs`.
--
-- The protobuf library and the generated classes are the records `Protobuf.Library` and
-- `Protobuf.Coding`, with the hypotheses that a payload, a container, an Any and a line of text are
-- read back as they were printed (`IsCoding`, `IsPrinting`, `IsBoxing`, `IsLining`). The Google
-- clients are the records `Gcp.Publishing.Client`, `Gcp.Pull.Subscriber` and `Gcp.Requeue.Clients`;
-- `IsOpen` says that the subscriber's calls succeed; `Gcp.Requeue.Lossless.Keeping` names what each
-- call keeps, an acknowledgement only after a publishing whose future returned; and
-- `Gcp.Requeue.Answering.IsAnswering` says that each call returns, a pull finds some of the waiting
-- messages or nothing, and a message waits until it is acknowledged. `publish` takes keyword
-- arguments, and Gcp.Keywords says which of a message's attributes Python binds to its named
-- parameters. What is there when a program starts that reads settings, the modules that it can
-- import among it, is the record `Settings.Sources.Startup`.
-- OpenTelemetry is the record `Instrumentation.Tracer`, with the hypothesis `IsPropagator`: it finds a
-- context where each header is that it injected. `Entry.Shared.IsKeeping` says of the methods of
-- backends that they drop no consumer from the cache.
--
-- Recursion is structural, or on fuel: `Text.IntLiteral` takes the length of the text as fuel for the
-- runs of digits of a number, each of which takes a character, and `Text.Decimal` prints a number
-- with itself as fuel. `Redis.Requeue` and `Aws.Requeue` have a unit of fuel for each round of their
-- loops, and more fuel than waiting messages is enough; so has `Gcp.Requeue`. In `Gcp.Pull`, where
-- other threads put messages into a queue, a list of turns says in which order they and the main
-- thread have it. The loop over pulls is a list of the pulls that are made before the shutdown event
-- is set. Times are natural numbers since 1970. The blanks and digits of `int` are those of ASCII.
-- Outside of Settings, the settings that a function reads are arguments and constant, so that the
-- caches of `lru_cache` are left out but for those of the backends, in Entry. A cache with room for
-- three has room for the two kinds of consumers.
--
-- Not modelled: logging, the factories and the patches of clients for the application's tests, and
-- generated code. Outside of Instrumentation the tracing headers are a parameter of the publisher.
mod Prelude
pub mod Text
pub mod Version
pub mod Python
pub mod Models
pub mod Validator
pub mod JsonSchema
pub mod Protobuf
pub mod Callback
pub mod Consumer
pub mod Publisher
pub mod Environ
pub mod Settings
pub mod Instrumentation
pub mod Testing
pub mod Entry
pub mod Gcp
pub mod Redis
pub mod Aws
pub mod EndToEnd
mod Tests
