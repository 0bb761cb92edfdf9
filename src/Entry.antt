-- ===== src/Entry.antt =====
-- The entry points of hedwig/consumer.py, hedwig/commands.py, hedwig/publisher.py and hedwig/models.py, and
-- the backends that hedwig/backends/utils.py makes for them.
pub mod Shared
use hedwig_python.Prelude.{ℕ, String, Bool, true, false, Option, none, some, List, [], ◌∷◌, bool_eq}
use hedwig_python.Prelude.Int.{ℤ}
use hedwig_python.Python.Action.{Action, pure, ◌>>=◌, ◌>>◌}
use hedwig_python.Python.Exn.{Result, ok, raise}
use hedwig_python.Python.LruCache.{cached_call}
use hedwig_python.Models.{Message, provider_metadata}

-- The caches of the two constructors, with backends of type `O`, and the state `S` outside. The keys
-- say whether `dlq=True` is given.
pub record Process (O S : Type 0) : Type 0 where
  pub publishers : List (Bool × O)
  pub consumers : List (Bool × O)
  pub outside : S

-- The classes of the settings, which make backends.
pub record Constructors (O S : Type 0) : Type 0 where
  pub new_publisher : Action S O
  pub new_consumer : Bool → Action S O

-- The methods of backends. `E` are the events of lambdas.
pub record Methods (O S D P E : Type 0) : Type 0 where
  pub publish : O → Message D P → Action (Process O S) String
  pub fetch_and_process_messages : O → ℕ → Option ℕ → Action (Process O S) (Unit {0})
  pub process_messages : O → E → Action (Process O S) (Unit {0})
  pub requeue_dead_letter : O → ℕ → Option ℕ → Action (Process O S) (Unit {0})
  pub extend_visibility_timeout : O → ℤ → Option P → Action (Process O S) (Unit {0})

-- A call of an entry point by the application.
pub data Call (O D P E : Type 0) : Type 0 where
  lambda : E → Call O D P E
  listen : ℕ → Option ℕ → Call O D P E
  requeue : ℕ → Option ℕ → Call O D P E
  extend : Message D P → ℤ → Call O D P E
  publishing : Message D P → Option O → Call O D P E

module _ {O S : Type 0} (constructors : Constructors O S) where
  unfoldable pub get_publisher_backend : Action (Process O S) O
  unfolding cached_call
  get_publisher_backend w =
      let r = cached_call 2 false constructors.new_publisher w.publishers w.outside in
      (r.0, record w { publishers = r.1.0; outside = r.1.1 })

  unfoldable pub get_consumer_backend : Bool → Action (Process O S) O
  unfolding cached_call
  get_consumer_backend dlq w =
      let r = cached_call 2 dlq (constructors.new_consumer dlq) w.consumers w.outside in
      (r.0, record w { consumers = r.1.0; outside = r.1.1 })

  module _ {D P E : Type 0} (methods : Methods O S D P E) where
    unfoldable pub process_messages_for_lambda_consumer : E → Action (Process O S) (Unit {0})
    process_messages_for_lambda_consumer lambda_event = do
      sns_consumer_backend ← get_consumer_backend false
      methods.process_messages sns_consumer_backend lambda_event

    unfoldable pub listen_for_messages : ℕ → Option ℕ → Action (Process O S) (Unit {0})
    listen_for_messages num_messages visibility_timeout_s = do
      consumer_backend ← get_consumer_backend false
      methods.fetch_and_process_messages consumer_backend num_messages visibility_timeout_s

    unfoldable pub requeue_dead_letter : ℕ → Option ℕ → Action (Process O S) (Unit {0})
    requeue_dead_letter num_messages visibility_timeout = do
      consumer_backend ← get_consumer_backend true
      methods.requeue_dead_letter consumer_backend num_messages visibility_timeout

    -- The method of a message.
    unfoldable pub extend_visibility_timeout : Message D P → ℤ → Action (Process O S) (Unit {0})
    extend_visibility_timeout message visibility_timeout_s = do
      consumer_backend ← get_consumer_backend false
      methods.extend_visibility_timeout consumer_backend visibility_timeout_s
          (provider_metadata message)

    abbrev pub given_or_cached : Option O → Action (Process O S) O
    given_or_cached none = get_publisher_backend
    given_or_cached (some backend) = pure backend

    unfoldable pub publish : Message D P → Option O → Action (Process O S) String
    publish message backend = do backend ← given_or_cached backend; methods.publish backend message

    -- What a process is after calls, of which each may return or raise.
    unfoldable pub after : List (Call O D P E) → Process O S → Process O S
    unfolding process_messages_for_lambda_consumer listen_for_messages requeue_dead_letter
        extend_visibility_timeout publish
    after [] w = w
    after (lambda event ∷ calls) w = after calls (process_messages_for_lambda_consumer event w).1
    after (listen n timeout ∷ calls) w = after calls (listen_for_messages n timeout w).1
    after (requeue n timeout ∷ calls) w = after calls (requeue_dead_letter n timeout w).1
    after (extend message seconds ∷ calls) w =
        after calls (extend_visibility_timeout message seconds w).1
    after (publishing message backend ∷ calls) w = after calls (publish message backend w).1
