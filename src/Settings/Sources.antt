-- ===== src/Settings/Sources.antt =====
-- Where hedwig/conf/__init__.py takes a setting from, and its value.
use hedwig_python.Prelude.{
  ◌+◌, Char, code, String, Bool, true, false, ◌&&◌, Option, none, some, [], ◌∷◌, ◌==◌, leb,
  string_eq, if◌then◌else◌,
}
use hedwig_python.Text.Utf8.{char_of}
use hedwig_python.Python.Dict.{get, or_else}
use hedwig_python.Python.Exn.{Result, ok, from_option, key_error, ◌>>=◌}
use hedwig_python.Settings.Import.{Setting, Attributes, import_string, import_dict, import_list}
use hedwig_python.Settings.Defaults.{
  defaults, import_strings, import_dict_values, import_list_values, among,
}

-- The user's settings: a dictionary, or a module or another object.
pub data Source (O : Type 0) : Type 0 where
  as_dict : Attributes O → Source O
  as_object : Attributes O → Source O

-- What the program finds where it is started: importlib's `import_module`, the environment variable
-- SETTINGS_MODULE, and the settings of Django and of Flask, if they can be imported.
pub record Startup (O : Type 0) : Type 0 where
  pub import_module : String → Result (Attributes O)
  pub settings_module : Option String
  pub django_settings : Option (Attributes O)
  pub flask_config : Option (Attributes O)

abbrev lower_char : Char → Char
lower_char c = elim (char_of (code c + 32)) [
  | none ↦ c
  | some d ↦ if leb b'A' (code c) && leb (code c) b'Z' then d else c
]

-- attr.lower(), for a text of ASCII
unfoldable pub lower : String → String
lower String.[] = ""
lower (String.◌∷◌ c s) = String.◌∷◌ (lower_char c) (lower s)

module _ {O : Type 0} where
  -- bool(self._user_settings)
  abbrev pub configured : Option (Source O) → Bool
  configured none = false
  configured (some (as_dict [])) = false
  configured (some (as_dict (a ∷ attributes))) = true
  configured (some (as_object attributes)) = true

  -- `none` is a RuntimeError.
  abbrev pub get_setting_from_object : String → Option (Source O) → Option (Setting O)
  get_setting_from_object attr none = none
  get_setting_from_object attr (some (as_dict attributes)) =
      or_else (get attr attributes) (get (lower attr) attributes)
  get_setting_from_object attr (some (as_object attributes)) =
      or_else (get attr attributes) (get (lower attr) attributes)

-- The settings of a framework, if there is one.
abbrev pub by_framework :
    {O : Type 0}
    → Option (Attributes O)
    → Option (Attributes O)
    → Option (Source O)
    → Option (Source O)
by_framework (some django) flask user_settings = some (as_object django)
by_framework none (some flask) user_settings = some (as_dict flask)
by_framework none none user_settings = user_settings

module _ {O : Type 0} (startup : Startup O) where
  abbrev pub framework_settings : Option (Source O) → Option (Source O)
  framework_settings = by_framework startup.django_settings startup.flask_config

  -- The branches of `_ensure_configured`, for the value of SETTINGS_MODULE.
  abbrev pub chosen : Option String → Option (Source O) → Result (Option (Source O))
  chosen none user_settings = ok (framework_settings user_settings)
  chosen (some settings_module) user_settings =
      if settings_module == ""
      then ok (framework_settings user_settings)
      else (startup.import_module settings_module >>= λ attributes.
          ok (some (as_object attributes)))

  -- The user's value, or the default, with the names in it imported.
  abbrev pub coerce_if : Bool → (Setting O → Result (Setting O)) → Setting O → Result (Setting O)
  coerce_if true coerce val = coerce val
  coerce_if false coerce val = ok val

  abbrev pub coerced : String → Setting O → Result (Setting O)
  coerced attr val = do
    val ← coerce_if (among attr import_strings) (import_string startup.import_module) val
    val ← coerce_if (among attr import_dict_values) (import_dict startup.import_module) val
    coerce_if (among attr import_list_values) (import_list startup.import_module) val

  abbrev pub user_or_default : String → Option (Source O) → Option (Setting O)
  user_or_default attr user_settings =
      or_else (get_setting_from_object attr user_settings) (get attr defaults)

  unfoldable pub setting_value : String → Option (Source O) → Result (Setting O)
  setting_value attr user_settings =
      from_option key_error (user_or_default attr user_settings) >>= coerced attr
