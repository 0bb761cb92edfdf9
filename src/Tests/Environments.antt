-- ===== src/Tests/Environments.antt =====
-- Environment variables, the discovery of the project, and publishing to Pub/Sub, in a process with
-- one variable.
use hedwig_python.Prelude.{
  ℕ, String, ◌≡◌, refl, ap, true, Option, none, some, List, [], ◌∷◌, length, string_eq, pair_eq,
}
use hedwig_python.Python.Action.{Action, pure}
use hedwig_python.Python.Dict.{get, has_key, put, remove}
use hedwig_python.Python.Exn.{Result, ok, raise, other_exception}
use hedwig_python.Python.Value.{key_eq}
use hedwig_python.Validator.{text}
use hedwig_python.Publisher.{Routing, here}
use hedwig_python.Environ.{Variables, Process, override_env}
use hedwig_python.Environ.Restored.{override_env-restores}
use hedwig_python.Gcp.Credentials.{
  Cloud, Names, is_set, get_google_cloud_project, seed_credentials, auto_discover_project,
}
use hedwig_python.Gcp.Credentials.Project.{get_google_cloud_project-settles}
use hedwig_python.Gcp.Publishing.{Client, Held, publish_and_wait}
use hedwig_python.Gcp.Publishing.Sent.{publish_and_wait-Keeps}
use hedwig_python.Tests.Codecs.{trip}

abbrev before : Variables
before = ("HOME", "/root") ∷ []

-- Reads a variable; without it, there is an error.
abbrev read_key : Action (Process ℕ) String
read_key w = elim (get "KEY" w.environ) [ none ↦ (raise other_exception, w) | some v ↦ (ok v, w) ]

abbrev start : Process ℕ
start = record { environ = before; rest = 0 }

override_env_runs : override_env "KEY" "k" read_key start ≡ (ok "k", start)
unfolding override_env get has_key put remove
override_env_runs = refl

override_env-restores_example : override_env "KEY" "k" read_key start ≡ (
  (read_key (record start { environ = put "KEY" "k" before })).0,
  record (read_key (record start { environ = put "KEY" "k" before })).1 { environ = before },
)
override_env-restores_example = override_env-restores "KEY" "k" read_key start keeps
  where
    keeps : (w : Process ℕ) → (read_key w).1.environ ≡ w.environ
    keeps w = by_value (get "KEY" w.environ)
      where
        by_value :
            (o : Option String)
            → (elim o as (λ _. Result String × Process ℕ) [
              | none ↦ (raise other_exception, w)
              | some v ↦ (ok v, w)
            ]).1.environ
              ≡ w.environ
        by_value none = refl
        by_value (some v) = refl

abbrev names : Names
names = record { credentials = "GOOGLE_APPLICATION_CREDENTIALS"; project = "GOOGLE_CLOUD_PROJECT" }

-- The project of the credentials; each look counts.
abbrev discover : Variables → Action ℕ (Option String)
discover variables n = (ok (get "GOOGLE_APPLICATION_CREDENTIALS" variables), n)

abbrev undiscovered : Process (Cloud ℕ)
undiscovered = record { environ = before; rest = record { project = none; outside = 0 } }

abbrev found : Process (Cloud ℕ)
found = record { environ = before; rest = record { project = some "key.json"; outside = 0 } }

discovery_runs :
    get_google_cloud_project names (some "key.json") discover undiscovered
    ≡ (ok (some "key.json"), found)
unfolding get_google_cloud_project seed_credentials auto_discover_project override_env get has_key
    put remove
discovery_runs = refl

get_google_cloud_project-settles_example :
    (is_set (some "key.json") ≡ true)
    × (get_google_cloud_project names
          (some "key.json")
          discover
          (get_google_cloud_project names (some "key.json") discover undiscovered).1
        ≡ (
          ok (some "key.json"),
          (get_google_cloud_project names (some "key.json") discover undiscovered).1,
        ))
get_google_cloud_project-settles_example =
    get_google_cloud_project-settles names (some "key.json") discover undiscovered (some "key.json")
      (ap (λ r. r.0) discovery_runs)

-- A service that keeps what is published: its topics.
abbrev Service : Type 0
Service = List String

abbrev client : Client Service ℕ
client = record {
  create = λ variables. pure tt;
  topic_path = λ project topic. topic;
  publish = λ topic data_ options attributes s. (ok (length s), topic ∷ s);
  result = λ future. pure "1";
}

abbrev discover_none : Variables → Action Service (Option String)
discover_none variables = pure (some "project")

abbrev process : Process (Cloud (Held Service))
process = record {
  environ = before;
  rest = record { project = none; outside = record { is_created = true; service = [] } };
}

abbrev routing : Routing
routing = (("trip", "1.*"), here "trips") ∷ []

publish_and_wait-Keeps_example :
    (publish_and_wait names
      (some "key.json")
      discover_none
      client
      (λ v. "?")
      (λ k. "?")
      routing
      trip
      (text "first")
      []
      process).1.environ
    ≡ before
publish_and_wait-Keeps_example =
    publish_and_wait-Keeps names (some "key.json") discover_none client (λ v. "?") (λ k. "?")
      routing trip (text "first") [] process
