-- ===== src/Environ.antt =====
-- `override_env` of hedwig/backends/utils.py, on a process with its environment variables.
pub mod Restored
use hedwig_python.Prelude.{
  String, Bool, true, false, Option, none, some, List, string_eq, if◌then◌else◌,
}
use hedwig_python.Python.Action.{Action}
use hedwig_python.Python.Dict.{get, has_key, put, remove}
use hedwig_python.Python.Exn.{Result, ok, raise, key_error}

abbrev pub Variables : Type 0
Variables = List (String × String)

-- os.environ, beside the state `S` of everything else.
pub record Process (S : Type 0) : Type 0 where
  pub environ : Variables
  pub rest : S

-- del os.environ[env]
unfoldable pub unset : {S : Type 0} → String → Action (Process S) (Unit {0})
unset env w =
    if has_key env w.environ
    then (ok tt, record w { environ = remove env w.environ })
    else (raise key_error, w)

-- The body of the `finally` clause.
abbrev pub restore : {S : Type 0} → String → Option String → Action (Process S) (Unit {0})
restore env none w = unset env w
restore env (some orig_value) w = (ok tt, record w { environ = put env orig_value w.environ })

-- What the `finally` clause raises takes the place of what the body returned or raised.
abbrev pub unless_raised : {A : Type 0} → Result (Unit {0}) → Result A → Result A
unless_raised (ok _) r = r
unless_raised (raise e) r = raise e

-- with override_env(env, value): body
unfoldable pub override_env :
    {S A : Type 0} → String → String → Action (Process S) A → Action (Process S) A
unfolding unset
override_env env value body w =
    let r = body (record w { environ = put env value w.environ }) in
    let restored = restore env (get env w.environ) r.1 in (unless_raised restored.0 r.0, restored.1)
