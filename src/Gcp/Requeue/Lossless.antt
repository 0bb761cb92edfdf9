-- ===== src/Gcp/Requeue/Lossless.antt =====
-- Requeueing over Pub/Sub loses no message.
use Prim.Native.String.{◌++◌ as ◌<>◌}
use hedwig_python.Prelude.{
  ℕ, zero, suc, String, ◌≡◌, refl, ap, Bool, Bool-cases, Option, none, some, List, [], ◌∷◌, inl,
  inr,
}
use hedwig_python.Python.Action.{Action, and_then}
use hedwig_python.Python.Exn.{Result, ok, raise, Result-cases}
use hedwig_python.Gcp.Keywords.{is_given_twice, options_of, attributes_of, call_publish}
use hedwig_python.Python.Value.{Entries, key_eq}
use hedwig_python.Gcp.Requeue.{
  ReceivedMessage, Clients, single, extend_lease, send, send_and_acknowledge, requeue_message,
  requeue_all, requeue_or_break, requeue_loop, requeue_dead_letter,
}

-- What holds of the service while no message is lost: each call of the clients keeps it, but for
-- `acknowledge`, of which this is asked only where the message's data and attributes were published
-- and the wait for their future returned.
pub record Keeping {S F : Type 0} (clients : Clients S F) (topic_path : String) (P : S → Type 0)
    : Type 0 where
  pub pulling : (path : String) (n : ℕ) (s : S) → P s → P (clients.pull path n s).1
  pub extending :
      (path ack_id : String) (n : ℕ) (s : S)
      → P s
      → P (clients.modify_ack_deadline path ack_id n s).1
  pub publishing :
      (data_ : List ℕ) (options attributes : Entries) (s : S)
      → P s
      → P (clients.publish topic_path data_ options attributes s).1
  pub waiting : (future : F) (s : S) → P s → P (clients.result future s).1
  pub acknowledging :
      (path : String) (q : ReceivedMessage) (future : F) (s t : S)
      → P s
      → clients.publish topic_path q.data_ (options_of q.attributes) (attributes_of q.attributes) s
        ≡ (ok future, t)
      → (clients.result future t).0 ≡ ok tt
      → P (clients.acknowledge path q.ack_id (clients.result future t).1).1

module _ {S F : Type 0} (clients : Clients S F) (topic_path path : String) (timeout : Option ℕ)
    (P : S → Type 0) (keeping : Keeping clients topic_path P) where
  extend_lease-keeps :
      (t : Option ℕ) (q : ReceivedMessage) (s : S)
      → P s
      → P (extend_lease clients topic_path path timeout t q s).1
  extend_lease-keeps none q s p = p
  extend_lease-keeps (some zero) q s p = p
  extend_lease-keeps (some (suc n)) q s p = keeping.extending path q.ack_id (suc n) s p

  and_then-keeps :
      {A B : Type 0} (r : Result A) (rest : A → Action S B) (s : S)
      → P s
      → ((a : A) → r ≡ ok a → P (rest a s).1)
      → P (and_then r rest s).1
  and_then-keeps (ok a) rest s p go = go a refl
  and_then-keeps (raise e) rest s p go = p

  -- Sending, and the acknowledgement after it.
  sent_and_acknowledged :
      (q : ReceivedMessage) (s : S)
      → P s
      → P
          (and_then
            (send clients topic_path path timeout q s).0
            (λ u. clients.acknowledge path q.ack_id)
            (send clients topic_path path timeout q s).1).1
  unfolding send call_publish
  sent_and_acknowledged q s p = elim (Bool-cases (is_given_twice q.attributes)) [
    | inl e ↦ rw e p
    | inr e ↦
        let publish =
          clients.publish topic_path q.data_ (options_of q.attributes)
            (attributes_of q.attributes) in
        let t = (publish s).1 in
        let p' = keeping.publishing q.data_ _ _ s p in
        rw e (elim (Result-cases (publish s).0) [
          | inl (future, f) ↦ rw f (elim (Result-cases (clients.result future t).0) [
            | inl (u, g) ↦ rw g (keeping.acknowledging path q future s t p (ap (λ r. (r, t)) f) g)
            | inr (x, g) ↦ rw g (keeping.waiting future t p')
          ])
          | inr (x, f) ↦ rw f p'
        ])
  ]

  send_and_acknowledge-keeps :
      (q : ReceivedMessage) (s : S)
      → P s
      → P (send_and_acknowledge clients topic_path path timeout q s).1
  unfolding send_and_acknowledge
  send_and_acknowledge-keeps q s p =
      let s₁ = (extend_lease clients topic_path path timeout timeout q s).1 in
      let p₁ = extend_lease-keeps timeout q s p in
      and_then-keeps (extend_lease clients topic_path path timeout timeout q s).0 _ s₁ p₁
        (λ u e. sent_and_acknowledged q s₁ p₁)

  requeue_message-keeps :
      (q : ReceivedMessage) (s : S)
      → P s
      → P (requeue_message clients topic_path path timeout q s).1
  unfolding requeue_message
  requeue_message-keeps q s p =
      elim (Result-cases (send_and_acknowledge clients topic_path path timeout q s).0) [
        | inl (u, e) ↦ rw e (send_and_acknowledge-keeps q s p)
        | inr (x, e) ↦ rw e (send_and_acknowledge-keeps q s p)
      ]

  requeue_all-keeps :
      (qs : List ReceivedMessage) (s : S)
      → P s
      → P (requeue_all clients topic_path path timeout qs s).1
  unfolding requeue_all
  requeue_all-keeps [] s p = p
  requeue_all-keeps (q ∷ qs) s p =
      and_then-keeps (requeue_message clients topic_path path timeout q s).0 _ _
        (requeue_message-keeps q s p) (λ u e. requeue_all-keeps qs _ (requeue_message-keeps q s p))

  requeue_or_break-keeps :
      (rest : Action S Bool) (found : Option (List ReceivedMessage)) (s : S)
      → ((t : S) → P t → P (rest t).1)
      → P s
      → P (requeue_or_break clients topic_path path timeout rest found s).1
  unfolding requeue_or_break
  requeue_or_break-keeps rest none s go p = p
  requeue_or_break-keeps rest (some []) s go p = p
  requeue_or_break-keeps rest (some (q ∷ qs)) s go p =
      and_then-keeps (requeue_all clients topic_path path timeout (q ∷ qs) s).0 _ _
        (requeue_all-keeps (q ∷ qs) s p) (λ u e. go _ (requeue_all-keeps (q ∷ qs) s p))

  requeue_loop-keeps :
      (n fuel : ℕ) (s : S) → P s → P (requeue_loop clients topic_path path timeout n fuel s).1
  unfolding requeue_loop
  requeue_loop-keeps n zero s p = p
  requeue_loop-keeps n (suc fuel) s p =
      and_then-keeps (clients.pull path n s).0 _ _ (keeping.pulling path n s p) (λ found e.
        requeue_or_break-keeps (requeue_loop clients topic_path path timeout n fuel) found _
          (requeue_loop-keeps n fuel) (keeping.pulling path n s p))

-- However many rounds are run, and whatever the service raises or answers, in the middle of a round
-- too, `requeue_dead_letter` keeps what holds while no message is lost: what pulling, extending,
-- publishing and waiting for a future keep, and acknowledging a message keeps if its data and
-- attributes were published and the wait for their future returned.
pub requeue_dead_letter-keeps :
    {S F : Type 0} (clients : Clients S F) (topic_path : String → String) (queue : String)
    (paths : List String) (num_messages : ℕ) (visibility_timeout : Option ℕ) (fuel : ℕ)
    (P : S → Type 0) (s : S)
    → Keeping clients (topic_path ("hedwig-" <> queue)) P
    → P s
    → P
        (requeue_dead_letter clients topic_path queue paths num_messages visibility_timeout fuel
          s).1
unfolding requeue_dead_letter
requeue_dead_letter-keeps clients topic_path queue paths n timeout fuel P s keeping p =
    and_then-keeps clients (topic_path ("hedwig-" <> queue)) "" timeout P keeping (single paths) _ s
      p
      (λ path e.
        requeue_loop-keeps clients (topic_path ("hedwig-" <> queue)) path timeout P keeping n fuel s
          p)
