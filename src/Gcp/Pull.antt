-- ===== src/Gcp/Pull.antt =====
-- The consumer of hedwig/backends/gcp.py, without requeueing. Streaming pull has threads of its own,
-- which put messages into the work queue; a list of turns says in which order they and the main
-- thread have the queue.
pub mod Settled
pub mod Delivered
pub mod Consumed
pub mod Bounds
use Prim.Native.String.{◌++◌ as ◌<>◌}
use hedwig_python.Prelude.{
  ℕ, zero, suc, String, Bool, true, false, ◌||◌, Option, none, some, List, [], ◌∷◌, ◌++◌, ltb,
  if◌then◌else◌,
}
use hedwig_python.Prelude.Int.{ℤ, pos, negsuc}
use hedwig_python.Python.Action.{Action, pure, throw, lift, modify, and_then, ◌>>=◌, ◌>>◌}
use hedwig_python.Python.Exn.{Result, ok, raise, guard, assertion_error, value_error}
use hedwig_python.Publisher.{Topic, here, elsewhere}
use hedwig_python.Consumer.{Consumer, call_heartbeat_hook}
use hedwig_python.Consumer.World.{World, on_server, close}
use hedwig_python.Gcp.{SubscriberMessage, MessageWrapper, GoogleMetadata}

-- The calls of a subscriber client, on the state `S` of the service: `subscribe` takes a
-- subscription, the number of messages and the seconds of a lease, and gives a future of type `F`;
-- `cancel` is the future's; `ack` and `nack` are the message's; `modify_ack_deadline` takes the
-- subscription, the ack id and the seconds.
pub record Subscriber (S F : Type 0) : Type 0 where
  pub subscribe : String → ℕ → ℕ → Action S F
  pub cancel : F → Action S (Unit {0})
  pub ack : SubscriberMessage → Action S (Unit {0})
  pub nack : SubscriberMessage → Action S (Unit {0})
  pub modify_ack_deadline : String → String → ℕ → Action S (Unit {0})

-- A subscription of HEDWIG_SUBSCRIPTIONS is a topic here, or one of another project.
abbrev pub subscription_name : String → Topic → String
subscription_name queue (here topic) = "hedwig-" <> (queue <> ("-" <> topic))
subscription_name queue (elsewhere topic project) =
    "hedwig-" <> (queue <> ("-" <> (project <> ("-" <> topic))))

abbrev pub paths_of : (String → String) → String → List Topic → List String
paths_of path queue [] = path ("hedwig-" <> queue) ∷ []
paths_of path queue (subscription ∷ subscriptions) =
    path (subscription_name queue subscription) ∷ paths_of path queue subscriptions

-- What `__init__` makes `_subscription_paths`; `path` is the library's `subscription_path` for the
-- project.
unfoldable pub subscription_paths : (String → String) → String → List Topic → Bool → List String
subscription_paths path queue subscriptions dlq =
    if dlq then path ("hedwig-" <> (queue <> "-dlq")) ∷ [] else paths_of path queue subscriptions

-- A turn of another thread, which calls `schedule` of a subscription's scheduler, or one of the main
-- thread, which calls `get` of the work queue. The times are those of the two looks at the clock
-- when it is found empty.
pub data Turn : Type 0 where
  schedule : (subscription_path : String) → SubscriberMessage → Turn
  get : (reset_at beat_at : ℕ) → Turn

pub record Stream (S : Type 0) : Type 0 where
  pub world : World MessageWrapper S
  pub work_queue : List MessageWrapper

abbrev pub Body : Type 0 → Type 0
Body S = MessageWrapper → Action (World MessageWrapper S) (Unit {0})

-- PubSubMessageScheduler.schedule
abbrev pub wrapped : String → SubscriberMessage → MessageWrapper
wrapped path m = record { message = m; subscription_path = path }

module _ {S : Type 0} where
  unfoldable pub put_message : String → SubscriberMessage → Stream S → Stream S
  put_message path m st = record st { work_queue = st.work_queue ++ wrapped path m ∷ [] }

  -- The next message goes to the body of the loop over the generator. Without one, `except Empty`
  -- runs, and `true` is returned.
  unfoldable pub yield_next : ℕ → ℕ → Body S → List MessageWrapper → Action (Stream S) Bool
  unfolding close
  yield_next reset_at beat_at body [] st =
      (ok true, record st { world = close reset_at beat_at st.world })
  yield_next reset_at beat_at body (q ∷ queue) st =
      let r = body q st.world in
      and_then r.0 (λ _. pure false) (record { world = r.1; work_queue = queue })

  abbrev pub get_message : ℕ → ℕ → Body S → Action (Stream S) Bool
  get_message reset_at beat_at body st = yield_next reset_at beat_at body st.work_queue st

  -- The `while` loop. The turns are those before the shutdown event is set.
  unfoldable pub pull_loop : List Turn → Body S → Action (Stream S) (Unit {0})
  unfolding put_message yield_next
  pull_loop [] body = pure tt
  pull_loop (schedule path m ∷ turns) body = do modify (put_message path m); pull_loop turns body
  pull_loop (get reset_at beat_at ∷ turns) body = do
    get_message reset_at beat_at body
    pull_loop turns body

  abbrev pub unless_empty : Action (Stream S) Bool → Bool → Action (Stream S) Bool
  unless_empty rest true = pure true
  unless_empty rest false = rest

  -- The queue is drained: whether it was found empty before the turns came to an end.
  unfoldable pub drain : List Turn → Body S → Action (Stream S) Bool
  unfolding put_message yield_next
  drain [] body = pure false
  drain (schedule path m ∷ turns) body = modify (put_message path m) >> drain turns body
  drain (get reset_at beat_at ∷ turns) body =
      get_message reset_at beat_at body >>= unless_empty (drain turns body)

  abbrev pub on_service : {A : Type 0} → Action S A → Action (Stream S) A
  on_service m st = let r = on_server m st.world in (r.0, record st { world = r.1 })

-- visibility_timeout or DEFAULT_VISIBILITY_TIMEOUT_S
abbrev pub lease : Option ℕ → ℕ
lease none = 20
lease (some zero) = 20
lease (some (suc n)) = suc n

abbrev pub is_some_path : List String → Bool
is_some_path [] = false
is_some_path (path ∷ paths) = true

module _ {S F : Type 0} (subscriber : Subscriber S F) where
  unfoldable pub subscribe_all : List String → ℕ → ℕ → Action (Stream S) (List F)
  subscribe_all [] num_messages seconds = pure []
  subscribe_all (path ∷ paths) num_messages seconds = do
    future ← on_service (subscriber.subscribe path num_messages seconds)
    futures ← subscribe_all paths num_messages seconds
    pure (future ∷ futures)

  unfoldable pub cancel_all : List F → Action (Stream S) (Unit {0})
  cancel_all [] = pure tt
  cancel_all (future ∷ futures) = do on_service (subscriber.cancel future); cancel_all futures

  -- The generator, run to its end by a loop with the given body.
  unfoldable pub pull_messages :
      List String → ℕ → Option ℕ → List Turn → List Turn → Body S → Action (Stream S) Bool
  unfolding subscribe_all pull_loop cancel_all drain
  pull_messages paths num_messages visibility_timeout turns last_turns body = do
    lift (guard (is_some_path paths) assertion_error)
    modify (λ st. record st { work_queue = [] })
    futures ← subscribe_all paths num_messages (lease visibility_timeout)
    pull_loop turns body
    cancel_all futures
    drain last_turns body

  unfoldable pub ack_message : MessageWrapper → Action S (Unit {0})
  ack_message queue_message = subscriber.ack queue_message.message

  unfoldable pub nack_message : MessageWrapper → Action S (Unit {0})
  nack_message queue_message = subscriber.nack queue_message.message

  -- From 0 to 600 seconds.
  abbrev pub seconds_of : ℤ → Result ℕ
  seconds_of (negsuc n) = raise value_error
  seconds_of (pos n) = if ltb 600 n then raise value_error else ok n

  unfoldable pub extend_visibility_timeout :
      ℕ → ℤ → GoogleMetadata → Action (World MessageWrapper S) (Unit {0})
  unfolding call_heartbeat_hook
  extend_visibility_timeout now visibility_timeout_s metadata = do
    seconds ← lift (seconds_of visibility_timeout_s)
    on_server (subscriber.modify_ack_deadline metadata.subscription_path metadata.ack_id seconds)
    modify (λ w. record w { consumer = call_heartbeat_hook true now w.consumer })
