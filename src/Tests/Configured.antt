-- ===== src/Tests/Configured.antt =====
-- Settings of hedwig/conf/__init__.py that are looked up.
use hedwig_python.Prelude.{
  ℕ, String, ◌≡◌, refl, ap, Bool-cases, inl, inr, none, some, List, [], ◌∷◌, map, ◌==◌, ==_iff,
  string_eq, if◌then◌else◌,
}
use hedwig_python.Python.Dict.{get, has_key}
use hedwig_python.Python.Exn.{ok, raise, guard, from_option, import_error, attribute_error, ◌>>◌}
use hedwig_python.Text.Utf8.{char_of}
use hedwig_python.Settings.{
  LazySettings, clear_cache, unconfigure, configure_with_object, delete_all, ensure_configured,
  getattr, lookup, lookup_all,
}
use hedwig_python.Settings.Import.{
  text_value, callable_value, none_value, number_value, Attributes, import_string,
  import_module_attr, rsplit_dot,
}
use hedwig_python.Settings.Defaults.{defaults, import_strings}
use hedwig_python.Settings.Sources.{Source, as_dict, as_object, Startup, lower, setting_value}
use hedwig_python.Settings.Cached.{IsKnown, reconfigured, lookup_all-clear_cache}

abbrev installed : List (String × Attributes ℕ)
installed =
    ("hedwig.conf", ("noop_hook", callable_value 1) ∷ [])
    ∷ ("app.hooks", ("beat", callable_value 2) ∷ [])
    ∷ []

abbrev startup : Startup ℕ
startup = record {
  import_module = λ path. from_option import_error (get path installed);
  settings_module = none;
  django_settings = none;
  flask_config = none;
}

-- A setting was cached before the user's settings were changed.
abbrev stale : LazySettings ℕ
stale = record {
  user_settings = some (as_dict (("hedwig_queue", text_value "trips") ∷ []));
  cached = λ attr. if attr == "HEDWIG_QUEUE" then some (text_value "old") else none;
  callbacks = [];
  publisher_backends = [];
  consumer_backends = [];
  validators = [];
}

abbrev attrs : List String
attrs = "HEDWIG_QUEUE" ∷ "HEDWIG_HEARTBEAT_HOOK" ∷ "AWS_READ_TIMEOUT_S" ∷ "HEDWIG_TOPIC" ∷ []

abbrev beating : Source ℕ
beating = as_object (("HEDWIG_HEARTBEAT_HOOK", text_value "app.hooks.beat") ∷ [])

lookup_all_runs :
    ((lookup_all startup attrs (clear_cache stale)).0
      ≡ ok (text_value "trips")
        ∷ ok (callable_value 1)
        ∷ ok (number_value 2)
        ∷ raise attribute_error
        ∷ [])
    × ((lookup_all startup attrs stale).0
        ≡ ok (text_value "old")
          ∷ ok (callable_value 1)
          ∷ ok (number_value 2)
          ∷ raise attribute_error
          ∷ [])
    × ((lookup_all startup attrs (reconfigured beating stale)).0
        ≡ ok none_value ∷ ok (callable_value 2) ∷ ok (number_value 2) ∷ raise attribute_error ∷ [])
unfolding lookup_all lookup getattr ensure_configured setting_value lower get has_key defaults
    import_strings import_string import_module_attr rsplit_dot clear_cache delete_all unconfigure
    configure_with_object char_of
lookup_all_runs = (refl, refl, refl)

stale-IsKnown : IsKnown stale
unfolding has_key defaults
stale-IsKnown attr unknown = elim (Bool-cases (attr == "HEDWIG_QUEUE")) [
  | inl same ↦
      let e = (==_iff attr "HEDWIG_QUEUE").0 same in
      let clash = ap (λ (n : String). has_key n (defaults {O = ℕ})) e in cc
  | inr other ↦ rw other refl
]

lookup_all-clear_cache_example :
    ((lookup_all startup attrs (clear_cache stale)).0
      ≡ map (λ attr. (getattr startup attr stale).0) attrs)
    × ((lookup_all startup attrs (reconfigured beating stale)).0
        ≡ map
            (λ attr.
              guard (has_key attr (defaults {O = ℕ})) attribute_error
              >> setting_value startup attr (some beating))
            attrs)
    × IsKnown (lookup_all startup attrs stale).1
lookup_all-clear_cache_example =
    lookup_all-clear_cache startup beating stale attrs stale-IsKnown refl
