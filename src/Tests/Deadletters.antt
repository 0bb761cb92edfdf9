-- ===== src/Tests/Deadletters.antt =====
-- Requeueing over Pub/Sub on a concrete service.
use hedwig_python.Prelude.{
  ℕ, suc, String, ◌≡◌, ◌≤◌, ◌⊎◌, refl, ap, subst, ◌+◌, Option, none, some, List, [], ◌∷◌, ◌++◌,
  length, length-append, arith, inl, inr,
}
use Prim.Native.String.{◌++◌ as ◌<>◌}
use hedwig_python.Python.Action.{pure}
use hedwig_python.Python.Dict.{has_key}
use hedwig_python.Python.Exn.{ok}
use hedwig_python.Python.Value.{name, str, key_eq}
use hedwig_python.Gcp.Keywords.{options_of, attributes_of}
use hedwig_python.Gcp.Requeue.{ReceivedMessage, Clients, requeue_dead_letter}
use hedwig_python.Gcp.Requeue.Lossless.{Keeping, requeue_dead_letter-keeps}
use hedwig_python.Gcp.Requeue.Answering.{Content, IsSendable, FindsNothing, IsAnswering}
use hedwig_python.Gcp.Requeue.Moved.{IsMoved, requeue_dead_letter-moves_letters}

-- The messages of the dead letter queue, of which the first one is pulled and acknowledged, and
-- those of the main queue.
record Queues : Type 0 where
  dead : List ReceivedMessage
  main : List Content

abbrev first_of : List ReceivedMessage → Option (List ReceivedMessage)
first_of [] = none
first_of (q ∷ qs) = some (q ∷ [])

abbrev rest_of : List ReceivedMessage → List ReceivedMessage
rest_of [] = []
rest_of (q ∷ qs) = qs

abbrev clients : Clients Queues ℕ
clients = record {
  pull = λ path n s. (ok (first_of s.dead), s);
  modify_ack_deadline = λ path ack_id seconds. pure tt;
  publish = λ topic data_ options attributes s.
      (ok 0, record s { main = s.main ++ (data_, attributes) ∷ [] });
  result = λ future. pure tt;
  acknowledge = λ path ack_id s. (ok tt, record s { dead = rest_of s.dead });
}

abbrev letter : String → ReceivedMessage
letter id = record { ack_id = id; data_ = 1 ∷ 2 ∷ []; attributes = (name "hedwig_id", str id) ∷ [] }

-- One that cannot be published.
abbrev odd_letter : ReceivedMessage
odd_letter = record { ack_id = "odd"; data_ = []; attributes = (name "data", str "x") ∷ [] }

clients-IsAnswering : IsAnswering clients "t/hedwig-app" (λ s. s.dead) (λ s. s.main)
clients-IsAnswering = record {
  pulls = λ path n s. found s.dead;
  pulling = λ path n s. record { waits = refl; published_ = refl };
  extends = λ path ack_id n s. (refl, record { waits = refl; published_ = refl });
  publishes = λ data_ attributes s. (0, refl, refl, record { waits = refl; published_ = refl });
  acknowledges = λ path q rest s e. (refl, record { waits = ap rest_of e; published_ = refl });
}
  where
    found :
        (dead : List ReceivedMessage)
        → FindsNothing (ok (first_of dead))
          ⊎ ((q : ReceivedMessage) × (qs : List ReceivedMessage) × (rest : List ReceivedMessage)
              × (dead ≡ q ∷ qs ++ rest)
              × (ok (first_of dead) ≡ ok (some (q ∷ qs))))
    found [] = inl (inl refl)
    found (q ∷ qs) = inr (q, [], qs, refl, refl)

abbrev two : Queues
two = record { dead = letter "1" ∷ letter "2" ∷ []; main = [] }

letter-IsSendable : (id : String) → IsSendable (letter id)
unfolding has_key options_of
letter-IsSendable id = (refl, refl)

requeue_dead_letter-moves_letters_example :
    IsMoved clients "s" 10
      (λ (s : Queues). s.dead)
      (λ s. s.main)
      two
      (requeue_dead_letter clients (λ topic. "t/" <> topic) "app" ("s" ∷ []) 10 none 3 two)
requeue_dead_letter-moves_letters_example =
    requeue_dead_letter-moves_letters clients (λ topic. "t/" <> topic) "app" "s" 10 none 3
      (λ s. s.dead) (λ s. s.main) two clients-IsAnswering
      (letter-IsSendable "1", (letter-IsSendable "2", tt)) (omega arith)

abbrev IsWhole : Queues → Type 0
IsWhole s = 2 ≤ length s.dead + length s.main

-- A service on which a message waits or is published: two of the two that there were.
clients-Keeping : Keeping clients "t/hedwig-app" IsWhole
clients-Keeping = record {
  pulling = λ path n s p. p;
  extending = λ path ack_id n s p. p;
  publishing = λ data_ options attributes s p.
      omega (arith, p, length-append s.main ((data_, attributes) ∷ []));
  waiting = λ future s p. p;
  acknowledging = λ path q future s t p e f.
      subst (λ (u : Queues). 2 ≤ length (rest_of u.dead) + length u.main) (ap (λ r. r.1) e)
        (omega (
          arith,
          p,
          length-append s.main ((q.data_, attributes_of q.attributes) ∷ []),
          shorter s.dead,
        ));
}
  where
    shorter : (dead : List ReceivedMessage) → length dead ≤ suc (length (rest_of dead))
    shorter [] = omega arith
    shorter (q ∷ qs) = omega arith

abbrev mixed : Queues
mixed = record { dead = odd_letter ∷ letter "2" ∷ []; main = [] }

requeue_dead_letter-keeps_example :
    IsWhole
      (requeue_dead_letter clients (λ topic. "t/" <> topic) "app" ("s" ∷ []) 10 (some 30) 3 mixed).1
requeue_dead_letter-keeps_example =
    requeue_dead_letter-keeps clients (λ topic. "t/" <> topic) "app" ("s" ∷ []) 10 (some 30) 3
      IsWhole mixed clients-Keeping (omega arith)
