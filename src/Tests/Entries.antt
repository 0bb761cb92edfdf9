-- ===== src/Tests/Entries.antt =====
-- Calls of the entry points, where backends are numbered as they are made.
use hedwig_python.Prelude.{ℕ, suc, ◌≡◌, refl, true, false, none, List, [], ◌∷◌, bool_eq}
use hedwig_python.Python.Action.{Action, pure, throw}
use hedwig_python.Python.Dict.{get, remove}
use hedwig_python.Python.Exn.{ok, other_exception}
use hedwig_python.Python.LruCache.{take, cached_call}
use hedwig_python.Entry.{
  Process, Constructors, Methods, Call, lambda, listen, requeue, get_consumer_backend,
  process_messages_for_lambda_consumer, listen_for_messages, requeue_dead_letter, after,
}
use hedwig_python.Entry.Shared.{IsKeeping, get_consumer_backend-stays}

abbrev made : Action ℕ ℕ
made n = (ok n, suc n)

abbrev constructors : Constructors ℕ ℕ
constructors = record { new_publisher = made; new_consumer = λ dlq. made }

-- The listener fails.
abbrev methods : Methods ℕ ℕ ℕ ℕ ℕ
methods = record {
  publish = λ backend m. pure "id-1";
  fetch_and_process_messages = λ backend n timeout. throw other_exception;
  process_messages = λ backend event. pure tt;
  requeue_dead_letter = λ backend n timeout. pure tt;
  extend_visibility_timeout = λ backend seconds pm. pure tt;
}

methods-IsKeeping : IsKeeping methods
methods-IsKeeping = record {
  publishes = λ backend m dlq o w h. h;
  fetches = λ backend n timeout dlq o w h. h;
  processes = λ backend event dlq o w h. h;
  requeues = λ backend n timeout dlq o w h. h;
  extends = λ backend seconds pm dlq o w h. h;
}

abbrev fresh_process : Process ℕ ℕ
fresh_process = record { publishers = []; consumers = []; outside = 7 }

abbrev calls : List (Call ℕ ℕ ℕ ℕ)
calls = requeue 10 none ∷ listen 10 none ∷ lambda 3 ∷ []

-- Two consumers are made.
after_runs :
    after constructors methods calls fresh_process
    ≡ record { publishers = []; consumers = (false, 8) ∷ (true, 7) ∷ []; outside = 9 }
unfolding after requeue_dead_letter listen_for_messages process_messages_for_lambda_consumer
    get_consumer_backend cached_call get remove take
after_runs = refl

first_made : (get_consumer_backend constructors false fresh_process).0 ≡ ok 7
unfolding get_consumer_backend cached_call get
first_made = refl

get_consumer_backend-stays_example :
    ((get_consumer_backend constructors false (
        after constructors methods calls
          (get_consumer_backend constructors false fresh_process).1)).0
      ≡ ok 7)
    × ((get_consumer_backend constructors false (
          after constructors methods calls
            (get_consumer_backend constructors false fresh_process).1)).1.outside
        ≡ (after constructors methods calls
            (get_consumer_backend constructors false fresh_process).1).outside)
get_consumer_backend-stays_example =
    get_consumer_backend-stays constructors methods methods-IsKeeping calls false 7 fresh_process tt
      first_made
