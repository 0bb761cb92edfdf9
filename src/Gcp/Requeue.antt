-- ===== src/Gcp/Requeue.antt =====
-- `requeue_dead_letter` of hedwig/backends/gcp.py, with clients that are made. Logging is left out.
pub mod Lossless
pub mod Answering
pub mod Moved
use Prim.Native.String.{◌++◌ as ◌<>◌}
use hedwig_python.Prelude.{
  ℕ, zero, suc, String, Bool, true, false, not, Option, none, some, List, [], ◌∷◌,
}
use hedwig_python.Python.Action.{Action, pure, throw, lift, and_then, catch, caught, ◌>>=◌, ◌>>◌}
use hedwig_python.Python.Dict.{has_key}
use hedwig_python.Python.Exn.{Result, ok, raise, guard, type_error, assertion_error}
use hedwig_python.Gcp.Keywords.{call_publish}
use hedwig_python.Python.Value.{name, Entries, key_eq}

-- What the code reads of a pulled message.
pub record ReceivedMessage : Type 0 where
  pub ack_id : String
  pub data_ : List ℕ
  pub attributes : Entries

-- The calls of the clients, on the state `S` of the service: `pull` with the subscription and the
-- number of messages, where `none` is a DeadlineExceeded; `modify_ack_deadline`, `acknowledge` with
-- a subscription and an ack id; `publish` with a topic, data, options and attributes, and the wait
-- for the future of type `F`.
pub record Clients (S F : Type 0) : Type 0 where
  pub pull : String → ℕ → Action S (Option (List ReceivedMessage))
  pub modify_ack_deadline : String → String → ℕ → Action S (Unit {0})
  pub publish : String → List ℕ → Entries → Entries → Action S F
  pub result : F → Action S (Unit {0})
  pub acknowledge : String → String → Action S (Unit {0})

-- The single subscription of the consumer.
abbrev pub single : List String → Result String
single (path ∷ []) = ok path
single _ = raise assertion_error

module _ {S F : Type 0} (clients : Clients S F) (topic_path subscription_path : String)
    (visibility_timeout : Option ℕ) where
  abbrev pub extend_lease : Option ℕ → ReceivedMessage → Action S (Unit {0})
  extend_lease none q = pure tt
  extend_lease (some zero) q = pure tt
  extend_lease (some (suc n)) q = clients.modify_ack_deadline subscription_path q.ack_id (suc n)

  -- publish(topic_path, data=..., **attributes), and the wait for its success
  unfoldable pub send : ReceivedMessage → Action S (Unit {0})
  unfolding call_publish
  send q = do
    future ← call_publish (clients.publish topic_path q.data_) q.attributes
    clients.result future

  -- The body of the `try` statement.
  unfoldable pub send_and_acknowledge : ReceivedMessage → Action S (Unit {0})
  unfolding send
  send_and_acknowledge q = do
    extend_lease visibility_timeout q
    send q
    clients.acknowledge subscription_path q.ack_id

  -- One message: what is raised is logged.
  unfoldable pub requeue_message : ReceivedMessage → Action S (Unit {0})
  unfolding send_and_acknowledge
  requeue_message q = catch (send_and_acknowledge q) (λ e. pure tt)

  unfoldable pub requeue_all : List ReceivedMessage → Action S (Unit {0})
  unfolding requeue_message
  requeue_all [] = pure tt
  requeue_all (q ∷ qs) = do requeue_message q; requeue_all qs

  -- A round of the loop behind its pull, before `rest`, the rounds that follow.
  unfoldable pub requeue_or_break : Action S Bool → Option (List ReceivedMessage) → Action S Bool
  unfolding requeue_all
  requeue_or_break rest none = pure true
  requeue_or_break rest (some []) = pure true
  requeue_or_break rest (some (q ∷ qs)) = requeue_all (q ∷ qs) >> rest

  -- The `while` loop, with a unit of fuel for each round: whether it ended.
  unfoldable pub requeue_loop : ℕ → ℕ → Action S Bool
  unfolding requeue_or_break
  requeue_loop num_messages zero = pure false
  requeue_loop num_messages (suc fuel) =
      clients.pull subscription_path num_messages
      >>= requeue_or_break (requeue_loop num_messages fuel)

-- `topic_path` is the library's, for the project, and `paths` are the consumer's subscriptions.
unfoldable pub requeue_dead_letter :
    {S F : Type 0}
    → Clients S F
    → (String → String)
    → String
    → List String
    → ℕ
    → Option ℕ
    → ℕ
    → Action S Bool
unfolding requeue_loop
requeue_dead_letter clients topic_path queue paths num_messages visibility_timeout fuel = do
  subscription_path ← lift (single paths)
  requeue_loop clients (topic_path ("hedwig-" <> queue)) subscription_path visibility_timeout
      num_messages fuel
