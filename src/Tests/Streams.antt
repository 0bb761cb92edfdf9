-- ===== src/Tests/Streams.antt =====
-- Redis streams on a concrete server and concrete messages.
use hedwig_python.Prelude.{
  ◌≡◌, ◌≢◌, ◌≤◌, refl, ap, ◌+◌, none, some, String, List, [], ◌∷◌, ◌++◌, string_eq, if◌then◌else◌,
  length, arith, leb, pair_eq,
}
use mathlib.Core.List.{append-nil}
use hedwig_python.Python.Exn.{ok, raise, type_error}
use hedwig_python.Python.Value.{key_eq}
use hedwig_python.Consumer.{init}
use hedwig_python.Consumer.World.{World}
use hedwig_python.Redis.{Bytes, StreamFields, RedisMessage, utf8}
use hedwig_python.Redis.Attempts.{pull_messages-attempts}
use hedwig_python.Redis.Pull.{Entry, Command, Client, Config, Body, pull_messages}
use hedwig_python.Redis.Requeue.{requeue_dead_letter}
use hedwig_python.Redis.Requeue.Commands.{fields_of, added_to, acked}
use hedwig_python.Redis.Requeue.Drained.{Answers, Round, group_reply, requeue_dead_letter-moves}

-- The dead letter stream of a server, and its main stream.
record Server : Type 0 where
  pending : List Entry
  unread : List Entry
  main : List StreamFields

abbrev first_of : List Entry → List Entry
first_of [] = []
first_of (e ∷ es) = e ∷ []

abbrev rest_of : List Entry → List Entry
rest_of [] = []
rest_of (e ∷ es) = es

abbrev without : List Bytes → List Entry → List Entry
without [] es = es
without (id ∷ acks) es = without acks (rest_of es)

abbrev numbered : List StreamFields → List Entry
numbered [] = []
numbered (fields ∷ more) = (utf8 "new", fields) ∷ numbered more

-- Entries are claimed and read one at a time, and acknowledged in the order of the list.
abbrev run : List Command → Server → Server
run commands s = record {
  pending = without (acked "dlq" commands) s.pending;
  unread = s.unread ++ numbered (added_to "dlq" commands);
  main = s.main ++ added_to "main" commands;
}

abbrev server : Client Server
server = record {
  xautoclaim = λ name idle count s. (ok (first_of s.pending), s);
  xreadgroup = λ names count s. (
    ok (group_reply "dlq" (first_of s.unread)),
    record s { pending = first_of s.unread ++ s.pending; unread = rest_of s.unread },
  );
  times_delivered = λ stream id s. (ok (some 1), s);
  xclaim = λ stream id s. (ok tt, s);
  xack = λ stream id s. (ok tt, record s { pending = rest_of s.pending });
  execute = λ commands s. (ok tt, run commands s);
}

claim-Round :
    (pending unread : List Entry) (main : List StreamFields)
    → pending ≢ []
    → Round server "main" "dlq"
        (server.xautoclaim "dlq" 0 10)
        (λ messages. messages)
        (λ s. s.pending)
        (λ s. s.main)
        (λ s. s.unread)
        (record { pending = pending; unread = unread; main = main })
claim-Round [] unread main h = absurd (h refl)
claim-Round (e ∷ es) unread main h = record {
  first = e;
  messages = [];
  rest = es;
  fetched = record { pending = e ∷ es; unread = unread; main = main };
  split = refl;
  fetches = refl;
  executes = λ commands acks adds. (refl, rw acks refl, refl, rw adds (append-nil unread));
}

read-Round :
    (pending unread : List Entry) (main : List StreamFields)
    → unread ≢ []
    → Round server "main" "dlq"
        (server.xreadgroup ("dlq" ∷ []) 10)
        (group_reply "dlq")
        (λ s. s.unread)
        (λ s. s.main)
        (λ s. tt)
        (record { pending = pending; unread = unread; main = main })
read-Round pending [] main h = absurd (h refl)
read-Round pending (e ∷ es) main h = record {
  first = e;
  messages = [];
  rest = es;
  fetched = record { pending = e ∷ pending; unread = es; main = main };
  split = refl;
  fetches = refl;
  executes = λ commands acks adds. (refl, rw adds (append-nil es), refl, refl);
}

claims :
    Answers server "main" "dlq"
      (server.xautoclaim "dlq" 0 10)
      (λ messages. messages)
      (λ s. s.pending)
      (λ s. s.main)
      (λ s. s.unread)
claims = record {
  round = λ s h. claim-Round s.pending s.unread s.main h;
  ending = λ s h. record {
    fetched = s;
    fetches = ap (λ es. (ok (first_of es), s)) h;
    added = refl;
    kept = refl;
  };
}

reads :
    Answers server "main" "dlq"
      (server.xreadgroup ("dlq" ∷ []) 10)
      (group_reply "dlq")
      (λ s. s.unread)
      (λ s. s.main)
      (λ s. tt)
reads = record {
  round = λ s h. read-Round s.pending s.unread s.main h;
  ending = λ s h. record {
    fetched = record { pending = s.pending; unread = []; main = s.main };
    fetches =
        ap
          (λ es. (
            ok (group_reply "dlq" (first_of es)),
            record { pending = first_of es ++ s.pending; unread = rest_of es; main = s.main },
          ))
          h;
    added = refl;
    kept = refl;
  };
}

abbrev waiting : Server
waiting = record {
  pending = (utf8 "1-0", (utf8 "hedwig_payload", utf8 "a") ∷ []) ∷ (utf8 "2-0", []) ∷ [];
  unread = (utf8 "3-0", (utf8 "hedwig_payload", utf8 "c") ∷ []) ∷ [];
  main = [];
}

main-not-dlq : ◌≢◌ {A = String} "main" "dlq"
main-not-dlq h = cc

requeue_dead_letter-moves_example :
    ((requeue_dead_letter server "main" "dlq" 5 10 waiting).0
      ≡ ok (some (length waiting.pending + length waiting.unread)))
    × ((requeue_dead_letter server "main" "dlq" 5 10 waiting).1.main
        ≡ (waiting.main ++ fields_of waiting.pending) ++ fields_of waiting.unread)
requeue_dead_letter-moves_example =
    requeue_dead_letter-moves server "main" "dlq" (λ s. s.pending) (λ s. s.unread) (λ s. s.main) 10
      5 waiting main-not-dlq claims reads (omega arith) (omega arith)

abbrev config : Config
config = record {
  max_delivery_attempts = 3;
  visibility_timeout_s = 20;
  deadletter_stream = "dlq";
  streams = "trips" ∷ "main" ∷ [];
}

abbrev world : World RedisMessage Server
world = record { consumer = init 15 none; server = waiting }

-- Two bodies of the loop that differ on messages that were delivered too often.
abbrev lenient : Body Server
lenient q w = (ok tt, w)

abbrev strict : Body Server
strict q w = (if leb q.delivery_attempt 3 then ok tt else raise type_error, w)

alike :
    (q : RedisMessage) (w : World RedisMessage Server)
    → q.delivery_attempt ≤ 3
    → lenient q w ≡ strict q w
alike q w h = ground arith

pull_messages-attempts_example :
    pull_messages server config 10 none 100 100 lenient world
    ≡ pull_messages server config 10 none 100 100 strict world
pull_messages-attempts_example =
    pull_messages-attempts server config lenient strict 10 none 100 100 world alike
