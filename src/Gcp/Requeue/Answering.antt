-- ===== src/Gcp/Requeue/Answering.antt =====
-- A Pub/Sub that answers, and what requeueing the messages of one pull does there.
use mathlib.Core.List.{append_assoc, append-nil}
use hedwig_python.Prelude.{
  ℕ, zero, suc, String, ◌≡◌, refl, ap, sym, ◌∙◌, ◌⊎◌, false, Option, none, some, List, [], ◌∷◌,
  ◌++◌, All,
}
use hedwig_python.Gcp.Keywords.{is_given_twice, options_of, attributes_of-no_options, call_publish}
use hedwig_python.Python.Exn.{Result, ok}
use hedwig_python.Python.Value.{Entries, key_eq}
use hedwig_python.Gcp.Requeue.{
  ReceivedMessage, Clients, extend_lease, send, send_and_acknowledge, requeue_message, requeue_all,
}

abbrev pub Content : Type 0
Content = List ℕ × Entries

abbrev pub content : ReceivedMessage → Content
content q = (q.data_, q.attributes)

abbrev pub contents : List ReceivedMessage → List Content
contents [] = []
contents (q ∷ qs) = content q ∷ contents qs

-- No attribute has the name of one of the named parameters of `publish`.
abbrev pub IsSendable : ReceivedMessage → Type 0
IsSendable q = (is_given_twice q.attributes ≡ false) × (options_of q.attributes ≡ [])

-- What a service shows: the messages that wait in the dead letter subscription, in the order in
-- which they are going to be pulled, and what was published to the main topic.
pub record IsShown {S : Type 0} (dead : S → List ReceivedMessage) (published : S → List Content)
    (s : S) (waiting : List ReceivedMessage) (out : List Content) : Type 0 where
  pub waits : dead s ≡ waiting
  pub published_ : published s ≡ out

-- A pull that comes back without messages, at its deadline or before.
abbrev pub FindsNothing : Result (Option (List ReceivedMessage)) → Type 0
FindsNothing found = (found ≡ ok none) ⊎ (found ≡ ok (some []))

-- A service that answers: each call returns, a pull finds some of the messages that wait or nothing,
-- and a message waits until it is acknowledged.
pub record IsAnswering {S F : Type 0} (clients : Clients S F) (topic_path : String)
    (dead : S → List ReceivedMessage) (published : S → List Content) : Type 0 where
  pub pulls :
      (path : String) (n : ℕ) (s : S)
      → FindsNothing (clients.pull path n s).0
        ⊎ ((q : ReceivedMessage) × (qs : List ReceivedMessage) × (rest : List ReceivedMessage)
            × (dead s ≡ q ∷ qs ++ rest)
            × ((clients.pull path n s).0 ≡ ok (some (q ∷ qs))))
  pub pulling :
      (path : String) (n : ℕ) (s : S)
      → IsShown dead published (clients.pull path n s).1 (dead s) (published s)
  pub extends :
      (path ack_id : String) (n : ℕ) (s : S)
      → ((clients.modify_ack_deadline path ack_id n s).0 ≡ ok tt)
        × IsShown dead published
            (clients.modify_ack_deadline path ack_id n s).1
            (dead s)
            (published s)
  pub publishes :
      (data_ : List ℕ) (attributes : Entries) (s : S)
      → (future : F) × ((clients.publish topic_path data_ [] attributes s).0 ≡ ok future)
        × ((clients.result future (clients.publish topic_path data_ [] attributes s).1).0 ≡ ok tt)
        × IsShown dead published
            (clients.result future (clients.publish topic_path data_ [] attributes s).1).1
            (dead s)
            (published s ++ (data_, attributes) ∷ [])
  pub acknowledges :
      (path : String) (q : ReceivedMessage) (rest : List ReceivedMessage) (s : S)
      → dead s ≡ q ∷ rest
      → ((clients.acknowledge path q.ack_id s).0 ≡ ok tt)
        × IsShown dead published (clients.acknowledge path q.ack_id s).1 rest (published s)

module _ {S F : Type 0} (clients : Clients S F) (topic_path path : String) (timeout : Option ℕ)
    (dead : S → List ReceivedMessage) (published : S → List Content)
    (answering : IsAnswering clients topic_path dead published) where
  abbrev pub Shows : S → List ReceivedMessage → List Content → Type 0
  Shows s waiting out = IsShown dead published s waiting out

  extended :
      (t : Option ℕ) (q : ReceivedMessage) (s : S)
      → ((extend_lease clients topic_path path timeout t q s).0 ≡ ok tt)
        × Shows (extend_lease clients topic_path path timeout t q s).1 (dead s) (published s)
  extended none q s = (refl, record { waits = refl; published_ = refl })
  extended (some zero) q s = (refl, record { waits = refl; published_ = refl })
  extended (some (suc n)) q s = answering.extends path q.ack_id (suc n) s

  sent :
      (q : ReceivedMessage) (s : S)
      → IsSendable q
      → ((send clients topic_path path timeout q s).0 ≡ ok tt)
        × Shows
            (send clients topic_path path timeout q s).1
            (dead s)
            (published s ++ content q ∷ [])
  unfolding send call_publish
  sent q s (once, no_options) =
      let (future, e, f, shown) = answering.publishes q.data_ q.attributes s in
      let plain = attributes_of-no_options q.attributes no_options in
      (rw (once, no_options, plain) (rw e f), rw (once, no_options, plain) (rw e shown))

  -- A message that waits in front is moved.
  moved :
      (q : ReceivedMessage) (rest : List ReceivedMessage) (s : S)
      → IsSendable q
      → dead s ≡ q ∷ rest
      → ((requeue_message clients topic_path path timeout q s).0 ≡ ok tt)
        × Shows
            (requeue_message clients topic_path path timeout q s).1
            rest
            (published s ++ content q ∷ [])
  unfolding requeue_message send_and_acknowledge
  moved q rest s good e =
      let (h₁, shown₁) = extended timeout q s in
      let s₁ = (extend_lease clients topic_path path timeout timeout q s).1 in
      let (h₂, shown₂) = sent q s₁ good in
      let s₂ = (send clients topic_path path timeout q s₁).1 in
      let (h₃, shown₃) = answering.acknowledges path q rest s₂ (shown₂.waits ∙ shown₁.waits ∙ e) in
      (
        rw h₁ (rw h₂ (rw h₃ refl)),
        rw h₁ (
            rw h₂ (
              rw h₃ (record {
                waits = shown₃.waits;
                published_ =
                    shown₃.published_
                    ∙ shown₂.published_
                    ∙ ap (λ (out : List Content). out ++ content q ∷ []) shown₁.published_;
              }))),
      )

  pub batch_moved :
      (qs rest : List ReceivedMessage) (s : S)
      → All IsSendable qs
      → dead s ≡ qs ++ rest
      → ((requeue_all clients topic_path path timeout qs s).0 ≡ ok tt)
        × Shows
            (requeue_all clients topic_path path timeout qs s).1
            rest
            (published s ++ contents qs)
  unfolding requeue_all
  batch_moved [] rest s good e =
      (refl, record { waits = e; published_ = sym (append-nil (published s)) })
  batch_moved (q ∷ qs) rest s (first, others) e =
      let (h, shown) = moved q (qs ++ rest) s first e in
      let s₁ = (requeue_message clients topic_path path timeout q s).1 in
      let (h₁, shown₁) = batch_moved qs rest s₁ others shown.waits in
      (
        rw h h₁,
        rw h (record {
          waits = shown₁.waits;
          published_ =
              shown₁.published_
              ∙ ap (λ (out : List Content). out ++ contents qs) shown.published_
              ∙ append_assoc (published s) (content q ∷ []) (contents qs);
        }),
      )

pub contents-append :
    (qs rest : List ReceivedMessage) → contents (qs ++ rest) ≡ contents qs ++ contents rest
contents-append [] rest = refl
contents-append (q ∷ qs) rest = ap (λ out. content q ∷ out) (contents-append qs rest)

pub halves :
    (qs rest : List ReceivedMessage)
    → All IsSendable (qs ++ rest)
    → All IsSendable qs × All IsSendable rest
halves [] rest good = (tt, good)
halves (q ∷ qs) rest (first, others) =
    let (here, there) = halves qs rest others in ((first, here), there)
