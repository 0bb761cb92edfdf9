-- ===== src/Settings.antt =====
-- `_LazySettings` of hedwig/conf/__init__.py, and hedwig/testing/config.py.
pub mod Import
pub mod Defaults
pub mod Sources
pub mod Fresh
pub mod Cached
use hedwig_python.Prelude.{
  String, Bool, true, false, not, Option, none, some, List, [], ◌∷◌, ◌==◌, string_eq, if◌then◌else◌,
}
use hedwig_python.Python.Action.{Action, pure, lift, modify, and_then, ◌>>=◌, ◌>>◌}
use hedwig_python.Python.Dict.{has_key}
use hedwig_python.Python.Exn.{
  Result, ok, raise, guard, import_error, attribute_error, assertion_error,
}
use hedwig_python.Settings.Import.{Setting, Attributes}
use hedwig_python.Settings.Defaults.{defaults}
use hedwig_python.Settings.Sources.{Source, Startup, configured, chosen, setting_value}

-- The object. `cached` are the attributes of settings that are set on it. The rest are the results
-- that functions under `lru_cache` hold.
pub record LazySettings (O : Type 0) : Type 0 where
  pub user_settings : Option (Source O)
  pub cached : String → Option (Setting O)
  pub callbacks : List O
  pub publisher_backends : List O
  pub consumer_backends : List O
  pub validators : List O

module _ {O : Type 0} where
  unfoldable pub configure_with_object : Source O → Action (LazySettings O) (Unit {0})
  configure_with_object obj s =
      (lift (guard (not (configured s.user_settings)) assertion_error)
          >> modify (λ s. record s { user_settings = some obj }))
        s

  -- setattr(self, attr, val) and delattr(self, attr)
  abbrev pub set_to : String → Option (Setting O) → LazySettings O → LazySettings O
  set_to attr val s = record s { cached = λ name. if name == attr then val else s.cached name }

  unfoldable pub delete_all : Attributes O → LazySettings O → LazySettings O
  delete_all [] s = s
  delete_all ((attr, val) ∷ attributes) s = delete_all attributes (set_to attr none s)

  unfoldable pub clear_cache : LazySettings O → LazySettings O
  unfolding delete_all
  clear_cache s = record (delete_all defaults s) {
    callbacks = [];
    publisher_backends = [];
    consumer_backends = [];
    validators = [];
  }

  -- hedwig.testing.config.unconfigure
  unfoldable pub unconfigure : LazySettings O → LazySettings O
  unfolding clear_cache
  unconfigure s = record (clear_cache s) { user_settings = none }

module _ {O : Type 0} (startup : Startup O) where
  abbrev pub assigned : Result (Option (Source O)) → Action (Option (Source O)) (Unit {0})
  assigned (raise e) user_settings = (raise e, user_settings)
  assigned (ok new) user_settings = (guard (configured new) import_error, new)

  -- What becomes of `_user_settings`.
  abbrev pub settled : Action (Option (Source O)) (Unit {0})
  settled user_settings =
      if configured user_settings
      then (ok tt, user_settings)
      else assigned (chosen startup startup.settings_module user_settings) user_settings

  unfoldable pub ensure_configured : Action (LazySettings O) (Unit {0})
  ensure_configured s = let r = settled s.user_settings in (r.0, record s { user_settings = r.1 })

  -- __getattr__
  unfoldable pub getattr : String → Action (LazySettings O) (Setting O)
  unfolding ensure_configured setting_value
  getattr attr = do
    ensure_configured
    lift (guard (has_key attr (defaults {O = O})) attribute_error)
    val ← λ s. (setting_value startup attr s.user_settings, s)
    modify (set_to attr (some val))
    pure val

  -- settings.<attr>: an attribute that is set on the object, or what `__getattr__` gives.
  abbrev pub or_getattr : String → Option (Setting O) → Action (LazySettings O) (Setting O)
  or_getattr attr (some val) = pure val
  or_getattr attr none = getattr attr

  unfoldable pub lookup : String → Action (LazySettings O) (Setting O)
  unfolding getattr
  lookup attr s = or_getattr attr (s.cached attr) s

  -- One after the other, with what each gives.
  unfoldable pub lookup_all :
      List String → LazySettings O → List (Result (Setting O)) × LazySettings O
  unfolding lookup
  lookup_all [] s = ([], s)
  lookup_all (attr ∷ attrs) s =
      let r = lookup attr s in let others = lookup_all attrs r.1 in (r.0 ∷ others.0, others.1)
