-- ===== src/Gcp/Credentials.antt =====
-- The credentials and the project of hedwig/backends/gcp.py.
pub mod Project
use hedwig_python.Prelude.{
  String, Bool, true, false, Option, none, some, ◌==◌, string_eq, if◌then◌else◌, not,
}
use hedwig_python.Python.Action.{Action, pure, throw, lift, and_then, ◌>>=◌, ◌>>◌}
use hedwig_python.Python.Exn.{Result, ok, raise, guard, assertion_error}
use hedwig_python.Environ.{Variables, Process, override_env}

-- `project` is settings.GOOGLE_CLOUD_PROJECT, and `S` the state of the rest.
pub record Cloud (S : Type 0) : Type 0 where
  pub project : Option String
  pub outside : S

-- bool(setting)
abbrev pub is_set : Option String → Bool
is_set none = false
is_set (some s) = not (s == "")

-- One `if` statement with its `enter_context`.
abbrev pub seeded :
    {S A : Type 0} → String → Option String → Action (Process S) A → Action (Process S) A
seeded env none body = body
seeded env (some value) body = if value == "" then body else override_env env value body

-- google.auth.environment_vars
pub record Names : Type 0 where
  pub credentials : String
  pub project : String

-- `credentials` is settings.GOOGLE_APPLICATION_CREDENTIALS.
module _ {S : Type 0} (names : Names) (credentials : Option String) where
  unfoldable pub seed_credentials :
      {A : Type 0} → Action (Process (Cloud S)) A → Action (Process (Cloud S)) A
  unfolding override_env
  seed_credentials body w =
      seeded names.credentials credentials (seeded names.project w.rest.project body) w

  -- `default` is google.auth.default, which reads the environment and gives the project.
  module _ (default : Variables → Action S (Option String)) where
    abbrev pub google_auth_default : Action (Process (Cloud S)) (Option String)
    google_auth_default w =
        let r = default w.environ w.rest.outside in
        (r.0, record w { rest = record { project = w.rest.project; outside = r.1 } })

    abbrev pub set_project : Option String → Action (Process (Cloud S)) (Unit {0})
    set_project project w =
        if is_set project
        then (ok tt, record w { rest = record { project = project; outside = w.rest.outside } })
        else (raise assertion_error, w)

    unfoldable pub auto_discover_project : Action (Process (Cloud S)) (Unit {0})
    auto_discover_project w =
        if is_set w.rest.project then (ok tt, w) else (google_auth_default >>= set_project) w

    -- The setting, read at the end.
    abbrev pub read_project : Action (Process (Cloud S)) (Option String)
    read_project w = (ok w.rest.project, w)

    unfoldable pub get_google_cloud_project : Action (Process (Cloud S)) (Option String)
    unfolding seed_credentials auto_discover_project
    get_google_cloud_project w =
        if is_set w.rest.project
        then (ok w.rest.project, w)
        else (seed_credentials auto_discover_project >> read_project) w
