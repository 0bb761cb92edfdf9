-- ===== src/Gcp/Pull/Delivered.antt =====
-- The generator as a whole: all messages that arrive are yielded, and a consumer settles them.
use hedwig_python.Prelude.{
  ℕ, String, ◌+◌, ◌<◌, ◌≤◌, ◌≡◌, refl, ap, sym, ◌∙◌, Bool, true, Option, List, [], ◌∷◌, ◌++◌,
  length, All, arith,
}
use hedwig_python.Python.Exn.{Result, ok}
use hedwig_python.Consumer.World.{World}
use hedwig_python.Gcp.{MessageWrapper}
use hedwig_python.Gcp.Pull.{
  Turn, Stream, Body, on_service, pull_loop, lease, is_some_path, Subscriber, subscribe_all,
  cancel_all, pull_messages,
}
use hedwig_python.Gcp.Pull.Settled.{
  arrivals, gets, recorded, IsRecording, ahead, recorded-append, pull_loop-records, drain-records,
}

-- The service lets its consumer subscribe and cancel.
pub record IsOpen {S F : Type 0} (subscriber : Subscriber S F) : Type 0 where
  pub subscribes :
      (path : String) (num_messages seconds : ℕ) (s : S)
      → (future : F) × ((subscriber.subscribe path num_messages seconds s).0 ≡ ok future)
  pub cancels : (future : F) (s : S) → (subscriber.cancel future s).0 ≡ ok tt

-- The generator came to its end, behind some of the last turns: all messages of the turns before,
-- and of these, are recorded, in the order of arrival.
pub record IsDelivered {S V : Type 0} (value : MessageWrapper → V)
    (log : World MessageWrapper S → List V) (turns last_turns : List Turn) (st : Stream S)
    (r : Result Bool × Stream S) : Type 0 where
  pub ended : r.0 ≡ ok true
  pub empty : r.1.work_queue ≡ []
  pub before : List Turn
  pub after : List Turn
  pub split : last_turns ≡ before ++ after
  pub all : log r.1.world ≡ recorded value (arrivals turns ++ arrivals before) (log st.world)

module _ {S F V : Type 0} (subscriber : Subscriber S F) (body : Body S)
    (IsGood : MessageWrapper → Type 0) (value : MessageWrapper → V)
    (log : World MessageWrapper S → List V) (recording : IsRecording body IsGood value log)
    (is_open : IsOpen subscriber) where
  -- What calls of the service leave alone.
  record Same (st t : Stream S) : Type 0 where
    queue : t.work_queue ≡ st.work_queue
    kept : log t.world ≡ log st.world

  Same-ahead :
      (st t : Stream S)
      → Same st t
      → ahead body IsGood value log recording t ≡ ahead body IsGood value log recording st
  Same-ahead st t same = rw same.queue (rw same.kept refl)

  subscribe_all-Same :
      (paths : List String) (n seconds : ℕ) (st : Stream S)
      → (futures : List F) × ((subscribe_all subscriber paths n seconds st).0 ≡ ok futures)
        × Same st (subscribe_all subscriber paths n seconds st).1
  unfolding subscribe_all
  subscribe_all-Same [] n seconds st = ([], refl, record { queue = refl; kept = refl })
  subscribe_all-Same (path ∷ paths) n seconds st =
      let (future, e) = is_open.subscribes path n seconds st.world.server in
      let next = (on_service (subscriber.subscribe path n seconds) st).1 in
      let (futures, f, same) = subscribe_all-Same paths n seconds next in
      (
        future ∷ futures,
        rw e (rw f refl),
        rw e (
            rw f (record {
              queue = same.queue;
              kept = same.kept ∙ recording.serves next.world.server st.world;
            })),
      )

  cancel_all-Same :
      (futures : List F) (st : Stream S)
      → ((cancel_all subscriber futures st).0 ≡ ok tt)
        × Same st (cancel_all subscriber futures st).1
  unfolding cancel_all
  cancel_all-Same [] st = (refl, record { queue = refl; kept = refl })
  cancel_all-Same (future ∷ futures) st =
      let next = (on_service (subscriber.cancel future) st).1 in
      let e = is_open.cancels future st.world.server in
      let (f, same) = cancel_all-Same futures next in
      (
        rw e f,
        rw e (record {
          queue = same.queue;
          kept = same.kept ∙ recording.serves next.world.server st.world;
        }),
      )

  pub pull_messages-IsDelivered :
      (paths : List String) (num_messages : ℕ) (visibility_timeout : Option ℕ)
      (turns last_turns : List Turn) (st : Stream S)
      → is_some_path paths ≡ true
      → All IsGood (arrivals turns)
      → All IsGood (arrivals last_turns)
      → length (arrivals turns) + length (arrivals last_turns) < gets last_turns
      → IsDelivered value log turns last_turns st
          (pull_messages subscriber paths num_messages visibility_timeout turns last_turns body st)
  unfolding pull_messages recorded
  pull_messages-IsDelivered paths n timeout turns last_turns st found new last enough =
      let start = record st { work_queue = [] } in
      let (futures, subscribed, same₁) = subscribe_all-Same paths n (lease timeout) start in
      let st₁ = (subscribe_all subscriber paths n (lease timeout) start).1 in
      let (went, along, good, few) =
        pull_loop-records body IsGood value log recording turns st₁ (rw same₁.queue tt) new in
      let st₂ = (pull_loop turns body st₁).1 in
      let (cancelled, same₃) = cancel_all-Same futures st₂ in
      let st₃ = (cancel_all subscriber futures st₂).1 in
      let short : length st₃.work_queue ≤ length (arrivals turns) =
        omega (arith, few, ap length same₁.queue, ap length same₃.queue) in
      let d =
        drain-records body IsGood value log recording last_turns st₃ (rw same₃.queue good) last
          (omega (arith, enough, short)) in
      rw found (
        rw subscribed (
          rw went (
            rw cancelled (record {
              ended = d.ended;
              empty = d.empty;
              before = d.before;
              after = d.after;
              split = d.split;
              all =
                  d.all
                  ∙ ap (recorded value (arrivals d.before)) (
                      Same-ahead st₂ st₃ same₃
                      ∙ along
                      ∙ ap (recorded value (arrivals turns)) (Same-ahead start st₁ same₁))
                  ∙ sym (
                      recorded-append body IsGood value log recording (arrivals turns)
                        (arrivals d.before) (log st.world));
            }))))
