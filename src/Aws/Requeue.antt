-- ===== src/Aws/Requeue.antt =====
-- The SQS consumer of hedwig/backends/aws.py: pulling, acknowledging, extending the visibility
-- timeout, and requeueing of the dead letter queue. The queues' lookups by name and logging are left
-- out.
pub mod Lossless
pub mod Ends
use hedwig_python.Prelude.{
  ℕ, zero, suc, String, Bool, true, false, Option, none, some, List, [], ◌∷◌,
}
use hedwig_python.Python.Action.{Action, pure, throw, modify, and_then, finally_do, ◌>>=◌, ◌>>◌}
use hedwig_python.Python.Exn.{Result, partial_failure}
use hedwig_python.Consumer.{Consumer, call_heartbeat_hook}
use hedwig_python.Consumer.World.{World, on_server, close}
use hedwig_python.Aws.{MessageAttributes, SqsMessage, AwsMetadata}

-- An entry of `send_messages`.
pub record SendEntry : Type 0 where
  pub id : String
  pub message_body : String
  pub message_attributes : Option MessageAttributes

-- The calls of boto3, on the state `S` of the service: `receive_messages` of the consumer's queue with
-- the number of messages and the visibility timeout; `send_messages` to the main queue, which gives
-- the ids of the failed ones; `delete_messages` from the consumer's queue, by ids and receipts;
-- `delete` of one message; and `change_message_visibility`, by receipt and timeout.
pub record Sqs (S : Type 0) : Type 0 where
  pub receive_messages : ℕ → Option ℕ → Action S (List SqsMessage)
  pub send_messages : List SendEntry → Action S (List String)
  pub delete_messages : List (String × String) → Action S (Unit {0})
  pub delete : SqsMessage → Action S (Unit {0})
  pub change_message_visibility : String → ℕ → Action S (Unit {0})

-- An empty dictionary goes with none.
abbrev pub given : Option MessageAttributes → Option MessageAttributes
given (some []) = none
given m = m

abbrev pub send_entries : List SqsMessage → List SendEntry
send_entries [] = []
send_entries (q ∷ qs) =
    record {
      id = q.message_id;
      message_body = q.body;
      message_attributes = given q.message_attributes;
    }
    ∷ send_entries qs

abbrev pub delete_entries : List SqsMessage → List (String × String)
delete_entries [] = []
delete_entries (q ∷ qs) = (q.message_id, q.receipt_handle) ∷ delete_entries qs

-- if result.get('Failed'): raise PartialFailure(result)
abbrev pub check_failed : {S : Type 0} → List String → Action S (Unit {0})
check_failed [] = pure tt
check_failed (id ∷ failed) = throw partial_failure

module _ {S : Type 0} (sqs : Sqs S) where
  -- The times are those of the two looks at the clock.
  unfoldable pub pull_messages :
      ℕ → Option ℕ → ℕ × ℕ → Action (World SqsMessage S) (List SqsMessage)
  unfolding close
  pull_messages num_messages visibility_timeout now =
      finally_do (on_server (sqs.receive_messages num_messages visibility_timeout))
        (close now.0 now.1)

  unfoldable pub ack_message : SqsMessage → Action (World SqsMessage S) (Unit {0})
  ack_message queue_message = on_server (sqs.delete queue_message)

  unfoldable pub extend_visibility_timeout :
      ℕ → ℕ → AwsMetadata → Action (World SqsMessage S) (Unit {0})
  unfolding call_heartbeat_hook
  extend_visibility_timeout now visibility_timeout_s metadata = do
    on_server (sqs.change_message_visibility metadata.receipt visibility_timeout_s)
    modify (λ w. record w { consumer = call_heartbeat_hook true now w.consumer })

  -- The calls for the messages of one round.
  unfoldable pub move_messages : List SqsMessage → Action S (Unit {0})
  move_messages queue_messages = do
    failed ← sqs.send_messages (send_entries queue_messages)
    check_failed failed
    sqs.delete_messages (delete_entries queue_messages)

  -- A round of the loop behind its pull, before `rest`, the rounds that follow.
  unfoldable pub move_or_end :
      Action (World SqsMessage S) Bool → List SqsMessage → Action (World SqsMessage S) Bool
  unfolding move_messages
  move_or_end rest [] = pure true
  move_or_end rest (q ∷ qs) = on_server (move_messages (q ∷ qs)) >> rest

  -- The `while` loop, with a unit of fuel and a time for each round: whether it ended.
  unfoldable pub requeue_dead_letter :
      ℕ → Option ℕ → (ℕ → ℕ × ℕ) → ℕ → Action (World SqsMessage S) Bool
  unfolding pull_messages move_or_end
  requeue_dead_letter num_messages visibility_timeout clock zero = pure false
  requeue_dead_letter num_messages visibility_timeout clock (suc fuel) =
      pull_messages num_messages visibility_timeout (clock fuel)
      >>= move_or_end (requeue_dead_letter num_messages visibility_timeout clock fuel)
