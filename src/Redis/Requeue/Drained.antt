-- ===== src/Redis/Requeue/Drained.antt =====
-- The dead letter queue is moved to the main stream: all of it, in order.
use hedwig_python.Prelude.{
  ℕ, zero, suc, ◌+◌, ◌<◌, ◌≡◌, ◌≢◌, refl, sym, ◌∙◌, ap, String, Option, some, List, [], ◌∷◌, ◌++◌,
  arith, length, length-append, string_eq,
}
use mathlib.Core.List.{append-nil, append_assoc}
use hedwig_python.Python.Action.{Action}
use hedwig_python.Python.Exn.{Result, ok}
use hedwig_python.Redis.{Bytes, utf8, StreamFields}
use hedwig_python.Redis.Pull.{Entry, Command, Client}
use hedwig_python.Redis.Requeue.{
  ids, flatten, flatten_streams, requeue_commands, requeue_messages, requeue_loop, read_new,
  requeue_dead_letter,
}
use hedwig_python.Redis.Requeue.Commands.{
  fields_of, fields_of-append, added_to, acked, added_to-requeue, added_to-deadletters, acked-ids,
}

-- What the server is taken to do, where it answers: `queue` are the messages that wait, in the
-- order of their ids, and `main` the fields of the main stream's messages. `command` replies with
-- some first messages of the queue, if there is one. A pipeline that acknowledges just these in the dead letter
-- stream, and adds nothing to it, takes them off the queue, has added to the main stream what its
-- commands add to it, and does not touch `other`.
module _ {S R X : Type 0} (client : Client S) (main_stream deadletter_stream : String)
    (command : Action S R) (reply : List Entry → R) (queue : S → List Entry)
    (main : S → List StreamFields) (other : S → X) where
  pub record Round (s : S) : Type 0 where
    pub first : Entry
    pub messages : List Entry
    pub rest : List Entry
    pub fetched : S
    pub split : queue s ≡ (first ∷ messages) ++ rest
    pub fetches : command s ≡ (ok (reply (first ∷ messages)), fetched)
    pub executes :
        (commands : List Command)
        → acked deadletter_stream commands ≡ ids (first ∷ messages)
        → added_to deadletter_stream commands ≡ []
        → ((client.execute commands fetched).0 ≡ ok tt)
          × (queue (client.execute commands fetched).1 ≡ rest)
          × (main (client.execute commands fetched).1 ≡ main s ++ added_to main_stream commands)
          × (other (client.execute commands fetched).1 ≡ other s)

  pub record Ending (s : S) : Type 0 where
    pub fetched : S
    pub fetches : command s ≡ (ok (reply []), fetched)
    pub added : main fetched ≡ main s
    pub kept : other fetched ≡ other s

  pub record Answers : Type 0 where
    pub round : (s : S) → queue s ≢ [] → Round s
    pub ending : (s : S) → queue s ≡ [] → Ending s

  -- How a loop ends.
  pub record Drained (s : S) (total : ℕ) (result : Result (Option ℕ) × S) : Type 0 where
    pub counts : result.0 ≡ ok (some (total + length (queue s)))
    pub added : main result.1 ≡ main s ++ fields_of (queue s)
    pub kept : other result.1 ≡ other s

  -- A loop over fetches, each of which gives what the command replies with.
  module _ (fetch : Action S (List Entry))
      (gives : (s t : S) (messages : List Entry)
        → command s ≡ (ok (reply messages), t)
        → fetch s ≡ (ok messages, t)) where
    abbrev loop : ℕ → ℕ → Action S (Option ℕ)
    loop fuel total = requeue_loop client main_stream deadletter_stream fetch fuel total

    -- A round, before rounds that drain what is left.
    next-Drained :
        (fuel : ℕ) (s : S) (total : ℕ) (r : Round s)
        → main_stream ≢ deadletter_stream
        → length (queue s) < suc fuel
        → ((s' : S) (total' : ℕ)
            → length (queue s') < fuel
            → Drained s' total' (loop fuel total' s'))
        → Drained s total (loop (suc fuel) total s)
    unfolding requeue_loop requeue_messages
    next-Drained fuel s total r apart enough again =
        let got = r.first ∷ r.messages in
        let commands = requeue_commands main_stream deadletter_stream got in
        let (returns, leaves, adds, keeps) =
          r.executes commands (acked-ids main_stream deadletter_stream got)
            (added_to-deadletters main_stream deadletter_stream got apart) in
        let moved = (client.execute commands r.fetched).1 in
        let fields = added_to-requeue main_stream deadletter_stream got in
        let sizes : length (queue s) ≡ length got + length r.rest =
          ap length r.split ∙ length-append got r.rest in
        let left : length (queue moved) ≡ length r.rest = ap length leaves in
        let shorter : length (queue moved) < fuel = omega (arith, sizes, left, enough) in
        let next = again moved (total + length got) shorter in
        let all : main moved ++ fields_of (queue moved) ≡ main s ++ fields_of (queue s) =
          rw (adds ∙ ap (λ m. main s ++ m) fields) (
            rw leaves (
              rw r.split (
                append_assoc (main s) (fields_of got) (fields_of r.rest)
                ∙ ap (λ m. main s ++ m) (sym (fields_of-append got r.rest))))) in
        record {
          counts =
              rw (gives s r.fetched got r.fetches, returns)
                (next.counts ∙ ap (λ (n : ℕ). ok (some n)) (omega (arith, sizes, left)));
          added = rw (gives s r.fetched got r.fetches, returns) (next.added ∙ all);
          kept = rw (gives s r.fetched got r.fetches, returns) (next.kept ∙ keeps);
        }

    round-Drained :
        Answers
        → main_stream ≢ deadletter_stream
        → (fuel : ℕ) (s : S) (total : ℕ) (q : List Entry) → queue s ≡ q
        → length q < suc fuel
        → ((s' : S) (total' : ℕ)
            → length (queue s') < fuel
            → Drained s' total' (loop fuel total' s'))
        → Drained s total (loop (suc fuel) total s)
    unfolding requeue_loop
    round-Drained answers apart fuel s total [] e enough again =
        let end = answers.ending s e in
        record {
          counts =
              rw (gives s end.fetched [] end.fetches, e)
                (ap (λ (n : ℕ). ok (some n)) (omega arith));
          added =
              rw (gives s end.fetched [] end.fetches, e) (end.added ∙ sym (append-nil (main s)));
          kept = rw (gives s end.fetched [] end.fetches) end.kept;
        }
    round-Drained answers apart fuel s total (m ∷ ms) e enough again =
        next-Drained fuel s total (answers.round s (λ h. cc)) apart (rw e enough) again

    requeue_loop-Drained :
        Answers
        → main_stream ≢ deadletter_stream
        → (fuel : ℕ) (s : S) (total : ℕ) → length (queue s) < fuel
        → Drained s total (loop fuel total s)
    requeue_loop-Drained answers apart zero s total enough = absurd (omega arith)
    requeue_loop-Drained answers apart (suc fuel) s total enough =
        round-Drained answers apart fuel s total (queue s) refl enough
          (λ s' total' less. requeue_loop-Drained answers apart fuel s' total' less)

-- The reply of `xreadgroup` over one stream.
abbrev pub group_reply : String → List Entry → List (Bytes × List (List Entry))
group_reply stream [] = []
group_reply stream (m ∷ ms) = (utf8 stream, (m ∷ ms) ∷ []) ∷ []

read_new-gives :
    {S : Type 0} (client : Client S) (main_stream deadletter_stream : String) (num_messages : ℕ)
    (s t : S) (messages : List Entry)
    → client.xreadgroup (deadletter_stream ∷ []) num_messages s
      ≡ (ok (group_reply deadletter_stream messages), t)
    → read_new client main_stream deadletter_stream num_messages s ≡ (ok messages, t)
unfolding read_new flatten_streams flatten
read_new-gives client main_stream deadletter_stream num_messages s t [] e = rw e refl
read_new-gives client main_stream deadletter_stream num_messages s t (m ∷ ms) e =
    rw e (ap (λ (es : List Entry). (ok es, t)) (append-nil ((m ∷ ms) ++ []) ∙ append-nil (m ∷ ms)))

-- Where the server answers as it is taken to, and the dead letter stream is not the main stream:
-- `requeue_dead_letter` with more fuel than messages in each of the two groups returns, has
-- counted the messages that were pending for the group and those that no consumer had read, and
-- has added all of them to the main stream, the pending ones first, each in its order.
pub requeue_dead_letter-moves :
    {S : Type 0} (client : Client S) (main_stream deadletter_stream : String)
    (pending unread : S → List Entry) (main : S → List StreamFields) (num_messages fuel : ℕ) (s : S)
    → main_stream ≢ deadletter_stream
    → Answers client main_stream deadletter_stream
        (client.xautoclaim deadletter_stream 0 num_messages)
        (λ messages. messages)
        pending
        main
        unread
    → Answers client main_stream deadletter_stream
        (client.xreadgroup (deadletter_stream ∷ []) num_messages)
        (group_reply deadletter_stream)
        unread
        main
        (λ s'. tt)
    → length (pending s) < fuel
    → length (unread s) < fuel
    → ((requeue_dead_letter client main_stream deadletter_stream fuel num_messages s).0
        ≡ ok (some (length (pending s) + length (unread s))))
      × (main (requeue_dead_letter client main_stream deadletter_stream fuel num_messages s).1
          ≡ (main s ++ fields_of (pending s)) ++ fields_of (unread s))
unfolding requeue_dead_letter
requeue_dead_letter-moves client main_stream deadletter_stream pending unread main num_messages fuel
      s apart claims reads enough enough' =
    let claim = client.xautoclaim deadletter_stream 0 num_messages in
    let read = read_new client main_stream deadletter_stream num_messages in
    let first =
      requeue_loop-Drained client main_stream deadletter_stream claim (λ messages. messages) pending
        main unread claim (λ s t messages e. e) claims apart fuel s 0 enough in
    let middle = (requeue_loop client main_stream deadletter_stream claim fuel 0 s).1 in
    let second =
      requeue_loop-Drained client main_stream deadletter_stream
        (client.xreadgroup (deadletter_stream ∷ []) num_messages) (group_reply deadletter_stream)
        unread main (λ s'. tt) read
        (read_new-gives client main_stream deadletter_stream num_messages) reads apart fuel middle
        (length (pending s)) (rw first.kept enough') in
    let counted =
      first.counts ∙ ap (λ (n : ℕ). ok (some n)) {y = length (pending s)} (omega arith) in
    (
      rw counted (second.counts ∙ rw first.kept refl),
      rw counted (second.added ∙ rw first.kept (rw first.added refl)),
    )
