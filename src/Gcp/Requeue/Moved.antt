-- ===== src/Gcp/Requeue/Moved.antt =====
-- Requeueing over a Pub/Sub that answers moves the dead letters that are pulled, and ends.
use Prim.Native.String.{◌++◌ as ◌<>◌}
use mathlib.Core.List.{append_assoc, append-nil}
use hedwig_python.Prelude.{
  ℕ, zero, suc, String, ◌<◌, ◌≡◌, refl, ap, sym, subst, ◌∙◌, inl, inr, Bool, true, Option, some,
  List, [], ◌∷◌, ◌++◌, length, length-append, All, arith,
}
use hedwig_python.Python.Action.{Action, and_then}
use hedwig_python.Python.Exn.{Result, ok}
use hedwig_python.Python.Value.{key_eq}
use hedwig_python.Gcp.Requeue.{
  ReceivedMessage, Clients, requeue_all, requeue_or_break, requeue_loop, requeue_dead_letter,
}
use hedwig_python.Gcp.Requeue.Answering.{
  Content, contents, IsSendable, IsShown, FindsNothing, IsAnswering, batch_moved, halves,
  contents-append,
}

-- How requeueing ends: its last pull, in the state `last`, found nothing. The messages `moved` were
-- in front, and are published, in order; the messages `left` wait.
pub record IsMoved {S F : Type 0} (clients : Clients S F) (path : String) (num_messages : ℕ)
    (dead : S → List ReceivedMessage) (published : S → List Content) (s : S) (r : Result Bool × S)
    : Type 0 where
  pub moved : List ReceivedMessage
  pub left : List ReceivedMessage
  pub last : S
  pub split : dead s ≡ moved ++ left
  pub ends : r.0 ≡ ok true
  pub finds_nothing : FindsNothing (clients.pull path num_messages last).0
  pub stops : r.1 ≡ (clients.pull path num_messages last).1
  pub shows : IsShown dead published r.1 left (published s ++ contents moved)

module _ {S F : Type 0} (clients : Clients S F) (topic_path path : String) (timeout : Option ℕ)
    (dead : S → List ReceivedMessage) (published : S → List Content)
    (answering : IsAnswering clients topic_path dead published) where
  abbrev Shows : S → List ReceivedMessage → List Content → Type 0
  Shows s waiting out = IsShown dead published s waiting out

  -- The end of the rounds behind the messages of one pull.
  IsMoved-more :
      (n : ℕ) (s t : S) (qs rest : List ReceivedMessage) (r : Result Bool × S)
      → dead s ≡ qs ++ rest
      → Shows t rest (published s ++ contents qs)
      → IsMoved clients path n dead published t r
      → IsMoved clients path n dead published s r
  IsMoved-more n s t qs rest r split shown more = record {
    moved = qs ++ more.moved;
    left = more.left;
    last = more.last;
    split =
        split
        ∙ ap (λ (l : List ReceivedMessage). qs ++ l) (sym shown.waits ∙ more.split)
        ∙ sym (append_assoc qs more.moved more.left);
    ends = more.ends;
    finds_nothing = more.finds_nothing;
    stops = more.stops;
    shows = record {
      waits = more.shows.waits;
      published_ =
          more.shows.published_
          ∙ ap (λ (out : List Content). out ++ contents more.moved) shown.published_
          ∙ append_assoc (published s) (contents qs) (contents more.moved)
          ∙ ap (λ (out : List Content). published s ++ out) (sym (contents-append qs more.moved));
    };
  }

  -- The loop behind a pull that found nothing.
  IsMoved-nothing :
      (n : ℕ) (s : S) (rest : Action S Bool)
      → FindsNothing (clients.pull path n s).0
      → IsMoved clients path n dead published s (
          and_then
            (clients.pull path n s).0
            (requeue_or_break clients topic_path path timeout rest)
            (clients.pull path n s).1)
  unfolding requeue_or_break
  IsMoved-nothing n s rest nothing = record {
    moved = [];
    left = dead s;
    last = s;
    split = refl;
    ends = elim nothing [ inl e ↦ rw e refl | inr e ↦ rw e refl ];
    finds_nothing = nothing;
    stops = elim nothing [ inl e ↦ rw e refl | inr e ↦ rw e refl ];
    shows = elim nothing [ inl e ↦ rw e shown | inr e ↦ rw e shown ];
  }
    where
      shown : Shows (clients.pull path n s).1 (dead s) (published s ++ [])
      shown =
          let pulling = answering.pulling path n s in
          record {
            waits = pulling.waits;
            published_ = pulling.published_ ∙ sym (append-nil (published s));
          }

  -- The loop behind a pull that found messages.
  IsMoved-found :
      (n : ℕ) (s : S) (next : Action S Bool) (q : ReceivedMessage) (qs rest : List ReceivedMessage)
      → dead s ≡ q ∷ qs ++ rest
      → (clients.pull path n s).0 ≡ ok (some (q ∷ qs))
      → All IsSendable (dead s)
      → ((t : S)
          → dead t ≡ rest
          → All IsSendable rest
          → IsMoved clients path n dead published t (next t))
      → IsMoved clients path n dead published s (
          and_then
            (clients.pull path n s).0
            (requeue_or_break clients topic_path path timeout next)
            (clients.pull path n s).1)
  unfolding requeue_or_break
  IsMoved-found n s next q qs rest split found good again =
      let pulling = answering.pulling path n s in
      let s₁ = (clients.pull path n s).1 in
      let (these, others) = halves (q ∷ qs) rest (subst (All IsSendable) split good) in
      let (h, shown) =
        batch_moved clients topic_path path timeout dead published answering (q ∷ qs) rest s₁ these
          (pulling.waits ∙ split) in
      let t = (requeue_all clients topic_path path timeout (q ∷ qs) s₁).1 in
      let shown' : Shows t rest (published s ++ contents (q ∷ qs)) = record {
        waits = shown.waits;
        published_ =
            shown.published_
            ∙ ap (λ (out : List Content). out ++ contents (q ∷ qs)) pulling.published_;
      } in
      rw found (rw h (IsMoved-more n s t (q ∷ qs) rest _ split shown' (again t shown.waits others)))

  pub requeue_loop-moves :
      (n fuel : ℕ) (s : S)
      → All IsSendable (dead s)
      → length (dead s) < fuel
      → IsMoved clients path n dead published s
          (requeue_loop clients topic_path path timeout n fuel s)
  unfolding requeue_loop
  requeue_loop-moves n zero s good enough = absurd (omega (arith, enough))
  requeue_loop-moves n (suc fuel) s good enough = elim (answering.pulls path n s) [
    | inl nothing ↦
        IsMoved-nothing n s (requeue_loop clients topic_path path timeout n fuel) nothing
    | inr (q, qs, rest, split, found) ↦
        IsMoved-found n s (requeue_loop clients topic_path path timeout n fuel) q qs rest split
          found good
          (λ t waits others.
            requeue_loop-moves n fuel t (subst (All IsSendable) (sym waits) others)
              (omega (arith, enough, ap length split, length-append qs rest, ap length waits)))
  ]

-- Where each call of the clients returns and a message waits until it is acknowledged, and no dead
-- letter has an attribute with the name of a parameter of `publish`: `requeue_dead_letter` with more
-- fuel than dead letters ends, once a pull found nothing. The dead letters that were pulled until
-- then are gone, and their contents were published to the main topic, in their order, behind what
-- was published before; those behind them are left.
pub requeue_dead_letter-moves_letters :
    {S F : Type 0} (clients : Clients S F) (topic_path : String → String) (queue path : String)
    (num_messages : ℕ) (visibility_timeout : Option ℕ) (fuel : ℕ) (dead : S → List ReceivedMessage)
    (published : S → List Content) (s : S)
    → IsAnswering clients (topic_path ("hedwig-" <> queue)) dead published
    → All IsSendable (dead s)
    → length (dead s) < fuel
    → IsMoved clients path num_messages dead published s (
        requeue_dead_letter clients topic_path queue
          (path ∷ [])
          num_messages
          visibility_timeout
          fuel
          s)
unfolding requeue_dead_letter
requeue_dead_letter-moves_letters clients topic_path queue path n timeout fuel dead published s
      answering good enough =
    requeue_loop-moves clients (topic_path ("hedwig-" <> queue)) path timeout dead published
      answering n fuel s good enough
