-- ===== src/Consumer/Loop.antt =====
-- `fetch_and_process_messages` of hedwig/backends/base.py. The calls of `log` change nothing that
-- is modelled.
use hedwig_python.Prelude.{ℕ, ◌+◌, Bool, true, false, List, [], ◌∷◌}
use hedwig_python.Python.Action.{Action, pure, lift, modify, catch, finally_do, ◌>>=◌, ◌>>◌}
use hedwig_python.Python.Exn.{
  Exn, Result, raise, retry_exception, logging_exception, ignore_exception, import_error,
  runtime_error,
}
use hedwig_python.Python.Value.{Entries}
use hedwig_python.Consumer.{
  Event, pre_hook, process, post_hook, ack, nack, Consumer, record_event, call_heartbeat_hook,
}

-- What a backend and the application do with one queue message. A message that is delivered again
-- is another `Q`. `extended_at` are the times, in order, at which the callback's calls of
-- `extend_visibility_timeout` call the heartbeat hook by force, while `process_message` runs.
-- `received_at` and `processed_at` are the clock at the start of the
-- message's round and at the end of its processing.
pub record Backend (Q : Type 0) : Type 0 where
  pub message_attributes : Q → Result Entries
  pub pre_process_hook : Q → Result (Unit {0})
  pub process_message : Q → Result (Unit {0})
  pub post_process_hook : Q → Result (Unit {0})
  pub ack_message : Q → Result (Unit {0})
  pub nack_message : Q → Result (Unit {0})
  pub extended_at : Q → List ℕ
  pub received_at : Q → ℕ
  pub processed_at : Q → ℕ

-- `with _maybe_instrument(...)`, around a body. Where hedwig.instrumentation can be imported, its
-- `except ImportError` also sees the body's ImportError, and yields a second time, which the
-- `with` statement refuses.
abbrev pub second_yield {ℓ} : {A : Type ℓ} → Bool → Result A → Result A
second_yield true (raise import_error) = raise runtime_error
second_yield _ r = r

abbrev pub maybe_instrument {ℓ} : {S A : Type ℓ} → Bool → Action S A → Action S A
maybe_instrument instrumented body s = (second_yield instrumented (body s).0, (body s).1)

-- The `except` clause that takes an exception of `process_message`.
pub data Handling : Type 0 where
  ignored logged retried counted : Handling

unfoldable pub clause_of : Exn → Handling
clause_of ignore_exception = ignored
clause_of logging_exception = logged
clause_of retry_exception = retried
clause_of _ = counted

-- _call_heartbeat_hook(force=True), at several times
unfoldable pub force_heartbeats : {Q : Type 0} → List ℕ → Consumer Q → Consumer Q
unfolding call_heartbeat_hook
force_heartbeats [] c = c
force_heartbeats (now ∷ later) c = force_heartbeats later (call_heartbeat_hook true now c)

-- `continue` ends a round early.
abbrev pub if_going : {S : Type 0} → Bool → Action S (Unit {0}) → Action S (Unit {0})
if_going true rest = rest
if_going false rest = pure tt

module _ {Q : Type 0} (b : Backend Q) where
  -- A call of the backend, noted in the history.
  abbrev pub noted : Event Q → Result (Unit {0}) → Action (Consumer Q) (Unit {0})
  noted e r c = (r, record_event e c)

  abbrev pub nack_it : Q → Action (Consumer Q) (Unit {0})
  nack_it q = noted (nack q) (b.nack_message q)

  -- The bodies of the `except` clauses around `process_message`: whether the message goes on to
  -- the post process hook (`true`), or the round ends (`false`).
  unfoldable pub on_exception : Q → Handling → Action (Consumer Q) Bool
  on_exception q ignored = pure true
  on_exception q logged = do nack_it q; pure false
  on_exception q retried = do nack_it q; pure false
  on_exception q counted = do
    nack_it q
    modify (λ c. record c { error_count = c.error_count + 1 })
    pure false

  -- The call of `process_message`, with what its callback does to the consumer.
  abbrev pub processing : Q → Consumer Q → Consumer Q
  processing q c = force_heartbeats (b.extended_at q) (record_event (process q) c)

  unfoldable pub attempt : Q → Action (Consumer Q) Bool
  unfolding force_heartbeats
  attempt q = do
    (λ c. (b.process_message q, processing q c))
    modify (λ c. record c { error_count = 0 })
    pure true

  -- try: process_message ... except ... finally: _call_heartbeat_hook()
  unfoldable pub process_guarded : Q → Action (Consumer Q) Bool
  unfolding attempt on_exception clause_of
  process_guarded q =
      finally_do (catch (attempt q) (λ e. on_exception q (clause_of e)))
        (call_heartbeat_hook false (b.processed_at q))

  -- A hook that sends the message back if it raises.
  unfoldable pub hook_guarded : Event Q → Result (Unit {0}) → Q → Action (Consumer Q) Bool
  hook_guarded e r q = catch (do noted e r; pure true) (λ _. do nack_it q; pure false)

  unfoldable pub ack_guarded : Q → Action (Consumer Q) (Unit {0})
  ack_guarded q = catch (noted (ack q) (b.ack_message q)) (λ _. pure tt)

  -- The last part of a round: the post process hook and the acknowledgement.
  unfoldable pub after_processing : Q → Action (Consumer Q) (Unit {0})
  after_processing q = do
    finished ← hook_guarded (post_hook q) (b.post_process_hook q) q
    if_going finished (ack_guarded q)

  unfoldable pub after_hook : Q → Action (Consumer Q) (Unit {0})
  after_hook q = do processed ← process_guarded q; if_going processed (after_processing q)

  -- The body of the `with` statement.
  unfoldable pub handle : Q → Action (Consumer Q) (Unit {0})
  handle q = do
    prepared ← hook_guarded (pre_hook q) (b.pre_process_hook q) q
    if_going prepared (after_hook q)

  -- The body of the `for` loop.
  unfoldable pub visit : Bool → Q → Action (Consumer Q) (Unit {0})
  visit instrumented q = do
    modify (λ c. record c { last_message_received_at = b.received_at q })
    attributes ← lift (b.message_attributes q)
    maybe_instrument instrumented (handle q)

  unfoldable pub visit_all : Bool → List Q → Action (Consumer Q) (Unit {0})
  visit_all instrumented [] = pure tt
  visit_all instrumented (q ∷ rest) = do visit instrumented q; visit_all instrumented rest

  -- The `while` loop. `pulls` are the calls of `pull_messages` that are made before the shutdown
  -- event is set; each returns the messages of its round.
  unfoldable pub fetch_and_process_messages :
      Bool → List (Action (Consumer Q) (List Q)) → Action (Consumer Q) (Unit {0})
  fetch_and_process_messages instrumented [] = pure tt
  fetch_and_process_messages instrumented (pull ∷ rest) = do
    queue_messages ← pull
    visit_all instrumented queue_messages
    fetch_and_process_messages instrumented rest
