-- ===== src/Gcp/Pull/Settled.antt =====
-- No message of streaming pull is lost, and each is yielded once, in the order of arrival.
use hedwig_python.Prelude.{
  ℕ, suc, String, ◌+◌, ◌<◌, ◌≤◌, ◌≡◌, refl, ap, ◌∙◌, ◌⊎◌, inl, inr, Bool, true, false, List, [],
  ◌∷◌, ◌++◌, length, length-append, All, All-append, arith,
}
use hedwig_python.Python.Exn.{Result, ok}
use hedwig_python.Consumer.World.{World, close}
use hedwig_python.Gcp.{SubscriberMessage, MessageWrapper}
use hedwig_python.Gcp.Pull.{
  Turn, schedule, get, Stream, Body, wrapped, put_message, yield_next, pull_loop, drain,
}

-- The messages that are put into the work queue, and how often the main thread has it.
unfoldable pub arrivals : List Turn → List MessageWrapper
arrivals [] = []
arrivals (schedule path m ∷ turns) = wrapped path m ∷ arrivals turns
arrivals (get reset_at beat_at ∷ turns) = arrivals turns

unfoldable pub gets : List Turn → ℕ
gets [] = 0
gets (schedule path m ∷ turns) = gets turns
gets (get reset_at beat_at ∷ turns) = suc (gets turns)

-- The messages, put in front of a record of them one after another.
unfoldable pub recorded :
    {V : Type 0} → (MessageWrapper → V) → List MessageWrapper → List V → List V
recorded value [] log = log
recorded value (q ∷ qs) log = recorded value qs (value q ∷ log)

-- A body that returns and puts every message, as long as it is a good one, in front of its record,
-- which nothing else touches.
pub record IsRecording {S V : Type 0} (body : Body S) (IsGood : MessageWrapper → Type 0)
    (value : MessageWrapper → V) (log : World MessageWrapper S → List V) : Type 0 where
  pub records :
      (q : MessageWrapper) (w : World MessageWrapper S)
      → IsGood q
      → ((body q w).0 ≡ ok tt) × (log (body q w).1 ≡ value q ∷ log w)
  pub closes :
      (reset_at beat_at : ℕ) (w : World MessageWrapper S) → log (close reset_at beat_at w) ≡ log w
  pub serves : (s : S) (w : World MessageWrapper S) → log (record w { server = s }) ≡ log w

module _ {S V : Type 0} (body : Body S) (IsGood : MessageWrapper → Type 0)
    (value : MessageWrapper → V) (log : World MessageWrapper S → List V)
    (recording : IsRecording body IsGood value log) where
  pub recorded-append :
      (qs rs : List MessageWrapper) (acc : List V)
      → recorded value (qs ++ rs) acc ≡ recorded value rs (recorded value qs acc)
  unfolding recorded
  recorded-append [] rs acc = refl
  recorded-append (q ∷ qs) rs acc = recorded-append qs rs (value q ∷ acc)

  -- The record as it will be when the queue is empty.
  abbrev pub ahead : Stream S → List V
  ahead st = recorded value st.work_queue (log st.world)

  ahead-put_message :
      (path : String) (m : SubscriberMessage) (st : Stream S)
      → ahead (put_message path m st) ≡ value (wrapped path m) ∷ ahead st
  unfolding put_message recorded
  ahead-put_message path m st = recorded-append st.work_queue (wrapped path m ∷ []) (log st.world)

  -- What a turn of the main thread does: it finds the queue empty, or takes a message from it.
  record Turned (st : Stream S) (r : Result Bool × Stream S) : Type 0 where
    same : ahead r.1 ≡ ahead st
    good : All IsGood r.1.work_queue
    outcome :
        ((r.0 ≡ ok true) × (r.1.work_queue ≡ []))
        ⊎ ((r.0 ≡ ok false) × (suc (length r.1.work_queue) ≡ length st.work_queue))

  turned :
      (reset_at beat_at : ℕ) (w : World MessageWrapper S) (queue : List MessageWrapper)
      → All IsGood queue
      → Turned
          (record { world = w; work_queue = queue })
          (yield_next reset_at beat_at body queue (record { world = w; work_queue = queue }))
  unfolding yield_next recorded
  turned reset_at beat_at w [] good = record {
    same = recording.closes reset_at beat_at w;
    good = tt;
    outcome = inl (refl, refl);
  }
  turned reset_at beat_at w (q ∷ queue) (first, others) =
      let (went, put) = recording.records q w first in
      rw went
        (record { same = ap (recorded value queue) put; good = others; outcome = inr (refl, refl) })

  put-good :
      (path : String) (m : SubscriberMessage) (st : Stream S)
      → All IsGood st.work_queue
      → IsGood (wrapped path m)
      → All IsGood (put_message path m st).work_queue
  unfolding put_message
  put-good path m st good new = All-append IsGood st.work_queue (wrapped path m ∷ []) good (new, tt)

  -- The loop until the shutdown event.
  pub pull_loop-records :
      (turns : List Turn) (st : Stream S)
      → All IsGood st.work_queue
      → All IsGood (arrivals turns)
      → ((pull_loop turns body st).0 ≡ ok tt)
        × (ahead (pull_loop turns body st).1 ≡ recorded value (arrivals turns) (ahead st))
        × All IsGood (pull_loop turns body st).1.work_queue
        × (length (pull_loop turns body st).1.work_queue
            ≤ length st.work_queue + length (arrivals turns))
  unfolding pull_loop arrivals recorded
  pull_loop-records [] st good new = (refl, refl, good, omega arith)
  pull_loop-records (schedule path m ∷ turns) st good (first, others) =
      let (went, same, left, few) =
        pull_loop-records turns (put_message path m st) (put-good path m st good first) others in
      (
        went,
        same ∙ ap (recorded value (arrivals turns)) (ahead-put_message path m st),
        left,
        unfold put_message in omega (arith, few, length-append st.work_queue (wrapped path m ∷ [])),
      )
  pull_loop-records (get reset_at beat_at ∷ turns) st good new =
      let t = turned reset_at beat_at st.world st.work_queue good in
      let next = (yield_next reset_at beat_at body st.work_queue st).1 in
      let (went, same, left, few) = pull_loop-records turns next t.good new in
      let on = same ∙ ap (recorded value (arrivals turns)) t.same in
      elim t.outcome [
        | inl (e, empty) ↦ rw e (went, on, left, omega (arith, few, ap length empty))
        | inr (e, taken) ↦ rw e (went, on, left, omega (arith, few, taken))
      ]

  empty_record :
      (qs : List MessageWrapper) (acc before : List V)
      → qs ≡ []
      → recorded value qs acc ≡ before
      → acc ≡ before
  unfolding recorded
  empty_record [] acc before e h = h
  empty_record (q ∷ qs) acc before e h = cc

  -- Draining came to its end behind some of the turns: all messages of these are recorded.
  pub record Drained (turns : List Turn) (st : Stream S) (r : Result Bool × Stream S) : Type 0 where
    pub ended : r.0 ≡ ok true
    pub empty : r.1.work_queue ≡ []
    pub before : List Turn
    pub after : List Turn
    pub split : turns ≡ before ++ after
    pub all : log r.1.world ≡ recorded value (arrivals before) (ahead st)

  put-Drained :
      (path : String) (m : SubscriberMessage) (turns : List Turn) (st : Stream S)
      (r : Result Bool × Stream S)
      → Drained turns (put_message path m st) r
      → Drained (schedule path m ∷ turns) st r
  unfolding arrivals recorded
  put-Drained path m turns st r d = record {
    ended = d.ended;
    empty = d.empty;
    before = schedule path m ∷ d.before;
    after = d.after;
    split = ap (λ ts. schedule path m ∷ ts) d.split;
    all = d.all ∙ ap (recorded value (arrivals d.before)) (ahead-put_message path m st);
  }

  -- With more turns of the main thread than there are messages, draining comes to its end.
  pub drain-records :
      (turns : List Turn) (st : Stream S)
      → All IsGood st.work_queue
      → All IsGood (arrivals turns)
      → length st.work_queue + length (arrivals turns) < gets turns
      → Drained turns st (drain turns body st)
  unfolding drain arrivals gets recorded
  drain-records [] st good new enough = absurd (omega (arith, enough))
  drain-records (schedule path m ∷ turns) st good (first, others) enough =
      put-Drained path m turns st _ (
        drain-records turns (put_message path m st) (put-good path m st good first) others (
          unfold put_message in
          omega (arith, enough, length-append st.work_queue (wrapped path m ∷ []))))
  drain-records (get reset_at beat_at ∷ turns) st good new enough =
      let t = turned reset_at beat_at st.world st.work_queue good in
      let next = (yield_next reset_at beat_at body st.work_queue st).1 in
      elim t.outcome [
        | inl (e, empty) ↦ rw e (record {
          ended = refl;
          empty = empty;
          before = get reset_at beat_at ∷ [];
          after = turns;
          split = refl;
          all = empty_record next.work_queue (log next.world) (ahead st) empty t.same;
        })
        | inr (e, taken) ↦
            let d = drain-records turns next t.good new (omega (arith, enough, taken)) in
            rw e (record {
              ended = d.ended;
              empty = d.empty;
              before = get reset_at beat_at ∷ d.before;
              after = d.after;
              split = ap (λ ts. get reset_at beat_at ∷ ts) d.split;
              all = d.all ∙ ap (recorded value (arrivals d.before)) t.same;
            })
      ]
