-- ===== src/Entry/Shared.antt =====
-- The entry points use the same consumers.
use hedwig_python.Prelude.{
  ℕ, ◌≡◌, refl, sym, ap, ◌∙◌, Bool, true, false, Bool-cases, inl, inr, Option, none, some,
  Option-cases, List, [], ◌∷◌, ◌==◌, ==_iff, ==_refl, bool_eq, arith,
}
use hedwig_python.Prelude.Int.{ℤ}
use hedwig_python.Python.Action.{Action, ◌>>=◌}
use hedwig_python.Python.Dict.{
  get, remove, has_key, IsDict, get-remove, has_key-remove, IsDict-remove, has_key-none,
}
use hedwig_python.Python.Exn.{Result, ok, raise, Result-cases}
use hedwig_python.Python.LruCache.{take, cached_call}
use hedwig_python.Models.{Message, provider_metadata}
use hedwig_python.Entry.{
  Process, Constructors, Methods, Call, lambda, listen, requeue, extend, publishing,
  get_publisher_backend, get_consumer_backend, process_messages_for_lambda_consumer,
  listen_for_messages, requeue_dead_letter, extend_visibility_timeout, given_or_cached, publish,
  after,
}

-- Of three flags two are the same.
among_three : (a b k : Bool) → (b == a) ≡ false → (a == k) ≡ false → (b == k) ≡ false → ⊥
among_three true true k ab ak bk = cc
among_three false false k ab ak bk = cc
among_three true false true ab ak bk = cc
among_three true false false ab ak bk = cc
among_three false true true ab ak bk = cc
among_three false true false ab ak bk = cc

module _ {O : Type 0} where
  -- A cache for flags never has to drop an entry.
  take-entries :
      (k : Bool) (entries : List (Bool × O))
      → IsDict entries
      → has_key k entries ≡ false
      → take 2 entries ≡ entries
  unfolding take has_key
  take-entries k [] once new = refl
  take-entries k (x ∷ []) once new = refl
  take-entries k ((a, x) ∷ (b, y) ∷ rest) once new =
      absurd (among_three a b k (ground arith) (ground arith) (ground arith))

  -- The entry of a key, behind another call's.
  get-behind :
      (dlq k : Bool) (v o : O) (entries others : List (Bool × O))
      → get dlq entries ≡ some o
      → ((k == dlq) ≡ true → some v ≡ get k entries)
      → ((k == dlq) ≡ false → get dlq others ≡ get dlq entries)
      → get dlq ((k, v) ∷ others) ≡ some o
  unfolding get
  get-behind dlq k v o entries others held same other = elim (Bool-cases (k == dlq)) [
    | inl e ↦ rw e (same e ∙ ap (λ (j : Bool). get j entries) ((==_iff k dlq).0 e) ∙ held)
    | inr e ↦ rw e (other e ∙ held)
  ]

module _ {O S : Type 0} where
  -- An object stays in the cache, whatever else is made.
  cached_call-stays :
      (dlq k : Bool) (o : O) (make : Action S O) (entries : List (Bool × O)) (s : S)
      → IsDict entries
      → get dlq entries ≡ some o
      → IsDict (cached_call 2 k make entries s).1.0
        × (get dlq (cached_call 2 k make entries s).1.0 ≡ some o)
  unfolding cached_call has_key get
  cached_call-stays dlq k o make entries s once held = elim (Option-cases (get k entries)) [
    | inr (v, hit) ↦ rw hit (
      (has_key-remove k entries once, IsDict-remove k entries once),
      get-behind dlq k v o entries (remove k entries) held (λ e. sym hit)
          (get-remove k dlq entries),
    )
    | inl missing ↦ rw missing (elim (Result-cases (make s).0) [
      | inr (e, raised) ↦ rw raised (once, held)
      | inl (v, made) ↦ rw made (
          rw (take-entries k entries once (has_key-none k entries missing)) (
            (has_key-none k entries missing, once),
            get-behind dlq k v o entries entries held
                (λ e. absurd (not_missing entries k dlq missing held e)) (λ e. refl),
          ))
    ])
  ]
    where
      not_missing :
          {o : O} (entries : List (Bool × O)) (k dlq : Bool)
          → get k entries ≡ none
          → get dlq entries ≡ some o
          → (k == dlq) ≡ true
          → ⊥
      not_missing entries k dlq missing held e =
          let clash = sym missing ∙ ap (λ (j : Bool). get j entries) ((==_iff k dlq).0 e) ∙ held in
          cc

  -- The first call makes the object, or finds it.
  cached_call-holds :
      (dlq : Bool) (o : O) (make : Action S O) (entries : List (Bool × O)) (s : S)
      → IsDict entries
      → (cached_call 2 dlq make entries s).0 ≡ ok o
      → IsDict (cached_call 2 dlq make entries s).1.0
        × (get dlq (cached_call 2 dlq make entries s).1.0 ≡ some o)
  unfolding cached_call get has_key
  cached_call-holds dlq o make entries s once h = elim (Option-cases (get dlq entries)) [
    | inr (v, hit) ↦ rw hit (
      (has_key-remove dlq entries once, IsDict-remove dlq entries once),
      rw (==_refl dlq) (ap value_of (rw hit at h)),
    )
    | inl missing ↦ elim (Result-cases (make s).0) [
      | inr (e, raised) ↦ absurd (ground arith)
      | inl (v, made) ↦ rw missing (
          rw made (
            rw (take-entries dlq entries once (has_key-none dlq entries missing)) (
              (has_key-none dlq entries missing, once),
              rw (==_refl dlq) (ap value_of (rw (missing, made) at h)),
            )))
    ]
  ]
    where
      value_of : Result O → Option O
      value_of (ok v) = some v
      value_of (raise e) = none

  -- The process holds a consumer, under a flag.
  abbrev pub Holds : Bool → O → Process O S → Type 0
  Holds dlq o w = IsDict w.consumers × (get dlq w.consumers ≡ some o)

  -- What a call does to a process that holds a consumer.
  abbrev pub Keeps : {A : Type 0} → Action (Process O S) A → Type 0
  Keeps m = (dlq : Bool) (o : O) (w : Process O S) → Holds dlq o w → Holds dlq o (m w).1

  Keeps-bind :
      {A B : Type 0} (m : Action (Process O S) A) (f : A → Action (Process O S) B)
      → Keeps m
      → ((a : A) → Keeps (f a))
      → Keeps (m >>= f)
  Keeps-bind m f first next dlq o w holds = elim (Result-cases (m w).0) [
    | inr (e, raised) ↦ rw raised (first dlq o w holds)
    | inl (a, returned) ↦ rw returned (next a dlq o (m w).1 (first dlq o w holds))
  ]

-- The methods of backends keep the consumers that a process holds, as they do if all that they do to
-- the caches is to call entry points.
pub record IsKeeping {O S D P E : Type 0} (methods : Methods O S D P E) : Type 0 where
  pub publishes : (backend : O) (m : Message D P) → Keeps (methods.publish backend m)
  pub fetches :
      (backend : O) (n : ℕ) (timeout : Option ℕ)
      → Keeps (methods.fetch_and_process_messages backend n timeout)
  pub processes : (backend : O) (event : E) → Keeps (methods.process_messages backend event)
  pub requeues :
      (backend : O) (n : ℕ) (timeout : Option ℕ)
      → Keeps (methods.requeue_dead_letter backend n timeout)
  pub extends :
      (backend : O) (seconds : ℤ) (pm : Option P)
      → Keeps (methods.extend_visibility_timeout backend seconds pm)

module _ {O S D P E : Type 0} (constructors : Constructors O S) (methods : Methods O S D P E)
    (keeping : IsKeeping methods) where
  Keeps-get_consumer_backend : (k : Bool) → Keeps (get_consumer_backend constructors k)
  unfolding get_consumer_backend
  Keeps-get_consumer_backend k dlq o w (once, held) =
      cached_call-stays dlq k o (constructors.new_consumer k) w.consumers w.outside once held

  Keeps-given_or_cached :
      (backend : Option O) → Keeps (given_or_cached constructors methods backend)
  unfolding get_publisher_backend
  Keeps-given_or_cached none dlq o w holds = holds
  Keeps-given_or_cached (some backend) dlq o w holds = holds

  after-Holds :
      (calls : List (Call O D P E)) (dlq : Bool) (o : O) (w : Process O S)
      → Holds dlq o w
      → Holds dlq o (after constructors methods calls w)
  unfolding after process_messages_for_lambda_consumer listen_for_messages requeue_dead_letter
      extend_visibility_timeout publish
  after-Holds [] dlq o w holds = holds
  after-Holds (lambda event ∷ calls) dlq o w holds = after-Holds calls dlq o _ (
      Keeps-bind (get_consumer_backend constructors false) _ (Keeps-get_consumer_backend false)
        (λ b. keeping.processes b event) dlq o w holds)
  after-Holds (listen n timeout ∷ calls) dlq o w holds = after-Holds calls dlq o _ (
      Keeps-bind (get_consumer_backend constructors false) _ (Keeps-get_consumer_backend false)
        (λ b. keeping.fetches b n timeout) dlq o w holds)
  after-Holds (requeue n timeout ∷ calls) dlq o w holds = after-Holds calls dlq o _ (
      Keeps-bind (get_consumer_backend constructors true) _ (Keeps-get_consumer_backend true)
        (λ b. keeping.requeues b n timeout) dlq o w holds)
  after-Holds (extend message seconds ∷ calls) dlq o w holds = after-Holds calls dlq o _ (
      Keeps-bind (get_consumer_backend constructors false) _ (Keeps-get_consumer_backend false)
        (λ b. keeping.extends b seconds (provider_metadata message)) dlq o w holds)
  after-Holds (publishing message backend ∷ calls) dlq o w holds = after-Holds calls dlq o _ (
      Keeps-bind (given_or_cached constructors methods backend) _ (Keeps-given_or_cached backend)
        (λ b. keeping.publishes b message) dlq o w holds)

  -- A consumer backend that was made once, for dead letters or not, is the one that every later call
  -- of `get_consumer_backend` with these arguments gives, and none is made again: whatever entry
  -- points the application calls in between, of whatever outcome, where the methods of backends keep
  -- what the caches hold.
  pub get_consumer_backend-stays :
      (calls : List (Call O D P E)) (dlq : Bool) (o : O) (w : Process O S)
      → IsDict w.consumers
      → (get_consumer_backend constructors dlq w).0 ≡ ok o
      → ((get_consumer_backend constructors dlq
            (after constructors methods calls (get_consumer_backend constructors dlq w).1)).0
          ≡ ok o)
        × ((get_consumer_backend constructors dlq (
              after constructors methods calls
                (get_consumer_backend constructors dlq w).1)).1.outside
            ≡ (after constructors methods calls
                (get_consumer_backend constructors dlq w).1).outside)
  unfolding get_consumer_backend cached_call
  get_consumer_backend-stays calls dlq o w once given =
      let held = after-Holds calls dlq o (get_consumer_backend constructors dlq w).1 (
        cached_call-holds dlq o (constructors.new_consumer dlq) w.consumers w.outside once given) in
      (rw held.1 refl, rw held.1 refl)
