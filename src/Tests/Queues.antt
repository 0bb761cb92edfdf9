-- ===== src/Tests/Queues.antt =====
-- SQS queues on a concrete service and concrete messages.
use hedwig_python.Prelude.{
  ◌<◌, ◌≢◌, ℕ, suc, ◌≡◌, ◌≤◌, refl, ◌+◌, false, Option, none, some, List, [], ◌∷◌, ◌++◌, arith,
  length, length-append, ap, string_eq,
}
use hedwig_python.Prelude.Int.{pos}
use hedwig_python.Python.Dict.{get, has_key, put}
use hedwig_python.Python.Exn.{Result, ok, raise, type_error}
use hedwig_python.Python.Value.{name, int, str, Entries, key_eq}
use hedwig_python.Text.Decimal.{span_digits, is_digit}
use hedwig_python.Text.IntLiteral.{int_of}
use hedwig_python.Text.Base64.{encodebytes}
use hedwig_python.Validator.{Payload, text, binary}
use hedwig_python.Consumer.{init}
use hedwig_python.Consumer.World.{World}
use hedwig_python.Redis.{text_payload}
use hedwig_python.Aws.{SqsMessage, AwsMetadata, sent_attributes}
use hedwig_python.Aws.Received.{IsReceived}
use hedwig_python.Aws.Requeue.{
  Sqs, SendEntry, send_entries, delete_entries, move_messages, requeue_dead_letter,
}
use hedwig_python.Aws.Requeue.Ends.{Shrinking, requeue_dead_letter-ends}
use hedwig_python.Aws.Requeue.Lossless.{Keeping, requeue_dead_letter-lossless}

-- A dead letter queue beside a main queue. The first message is received, or none; a deletion takes
-- as many messages from the front as it has entries.
record Queues : Type 0 where
  dead : List SqsMessage
  main : List SendEntry

abbrev first_of : List SqsMessage → List SqsMessage
first_of [] = []
first_of (q ∷ qs) = q ∷ []

drop_front : {A : Type 0} → List A → List SqsMessage → List SqsMessage
drop_front [] qs = qs
drop_front (e ∷ es) [] = []
drop_front (e ∷ es) (q ∷ qs) = drop_front es qs

service : Sqs Queues
unfolding drop_front
service = record {
  receive_messages = λ n timeout s. (ok (first_of s.dead), s);
  send_messages = λ entries s. (ok [], record s { main = s.main ++ entries });
  delete_messages = λ entries s. (ok tt, record s { dead = drop_front entries s.dead });
  delete = λ q s. (ok tt, record s { dead = drop_front (q ∷ []) s.dead });
  change_message_visibility = λ receipt timeout s. (ok tt, s);
}

-- No message is lost: there are as many as at first, at least.
abbrev IsWhole : Queues → Type 0
IsWhole s = 2 ≤ length s.dead + length s.main

dropped :
    {A : Type 0} (es : List A) (qs : List SqsMessage)
    → length qs ≤ length (drop_front es qs) + length es
unfolding drop_front
dropped [] qs = omega arith
dropped (e ∷ es) [] = omega arith
dropped (e ∷ es) (q ∷ qs) = omega (arith, dropped es qs)

lengths :
    (qs : List SqsMessage)
    → (length (send_entries qs) ≡ length qs) × (length (delete_entries qs) ≡ length qs)
lengths [] = (refl, refl)
lengths (q ∷ qs) = let (sent, deleted) = lengths qs in (ap suc sent, ap suc deleted)

service-Keeping : Keeping service IsWhole
unfolding service
service-Keeping = record {
  receiving = λ n timeout s p. p;
  sending = λ qs s p. omega (arith, p, length-append s.main (send_entries qs));
  deleting = λ qs s p e.
      let (sent, deleted) = lengths qs in
      omega (
        arith,
        p,
        sent,
        deleted,
        length-append s.main (send_entries qs),
        dropped (delete_entries qs) s.dead,
      );
}

abbrev sample_bytes : List ℕ
sample_bytes = 0 ∷ 255 ∷ 16 ∷ 7 ∷ []

abbrev sample_attributes : Entries
sample_attributes = (name "hedwig_id", str "id-1") ∷ (name "zone", str "eu") ∷ []

sample : SqsMessage
unfolding sent_attributes text_payload put encodebytes
sample = record {
  message_id = "m-1";
  receipt_handle = "r-1";
  body = "AP8QBw==\n";
  message_attributes = some (
      sent_attributes (λ v. "?") (λ k. "?")
        (text_payload (binary sample_bytes) sample_attributes).1);
  attributes =
      ("ApproximateFirstReceiveTimestamp", int (pos 1000))
      ∷ ("SentTimestamp", str "900")
      ∷ ("ApproximateReceiveCount", int (pos 1))
      ∷ [];
}

abbrev metadata : AwsMetadata
metadata = record {
  receipt = "r-1";
  first_receive_time = pos 1000;
  sent_time = pos 900;
  receive_count = pos 1;
}

sample-IsReceived :
    IsReceived (λ v. "?") (λ k. "?") (binary sample_bytes) sample_attributes metadata sample
unfolding sample text_payload encodebytes get int_of span_digits is_digit
sample-IsReceived = record {
  body = refl;
  message_attributes = refl;
  receipt = refl;
  first = refl;
  sent = refl;
  count = refl;
}

abbrev handler : Payload → Entries → Option AwsMetadata → Result (Unit {0})
handler (text s) _ _ = raise type_error
handler (binary bs) _ _ = ok tt

no_encoding : has_key (name "hedwig_encoding") sample_attributes ≡ false
unfolding has_key
no_encoding = refl

abbrev world : World SqsMessage Queues
world = record {
  consumer = init 15 none;
  server = record { dead = sample ∷ sample ∷ []; main = [] };
}

requeue_dead_letter-lossless_example :
    IsWhole (requeue_dead_letter service 10 none (λ n. (100, 100)) 5 world).1.server
requeue_dead_letter-lossless_example =
    requeue_dead_letter-lossless service IsWhole 10 none (λ n. (100, 100)) 5 world service-Keeping
      (omega arith)

-- The messages of the dead letter queue wait.
service-Shrinking : Shrinking service (λ s. length s.dead)
unfolding service move_messages drop_front
service-Shrinking = record { shrinks = λ n timeout s q qs e moved. shorter s.dead q qs e }
  where
    shorter :
        (dead : List SqsMessage) (q : SqsMessage) (qs : List SqsMessage)
        → ok (first_of dead) ≡ ok (q ∷ qs)
        → length (drop_front (delete_entries (q ∷ qs)) dead) < length dead
    shorter [] q qs e = cc
    shorter (d ∷ ds) q qs e = omega (arith, front (delete_entries qs) ds)
      where
        front :
            {A : Type 0} (es : List A) (qs : List SqsMessage)
            → length (drop_front es qs) ≤ length qs
        front [] qs = omega arith
        front (e ∷ es) [] = omega arith
        front (e ∷ es) (q ∷ qs) = omega (arith, front es qs)

requeue_dead_letter-ends_example :
    (requeue_dead_letter service 10 none (λ n. (100, 100)) 5 world).0 ≢ ok false
requeue_dead_letter-ends_example =
    requeue_dead_letter-ends service (λ s. length s.dead) 10 none (λ n. (100, 100)) 5 world
      service-Shrinking (omega arith)
