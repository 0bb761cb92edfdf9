-- ===== src/Settings/Import.antt =====
-- hedwig/backends/import_utils.py, and the values of settings, of which hedwig/conf/__init__.py
-- imports some by their names.
use hedwig_python.Prelude.{
  ℕ, zero, suc, Char, code, String, Bool, true, false, ◌≡◌, refl, Option, none, some, List, ◌==◌,
  nat_eq, string_eq, if◌then◌else◌,
}
use hedwig_python.Python.Dict.{get}
use hedwig_python.Python.Exn.{
  Result, ok, raise, from_option, import_error, attribute_error, type_error, ◌>>=◌,
}

-- The values of settings. A list may be a tuple; the keys of a dictionary are pairs of texts, as those
-- of HEDWIG_CALLBACKS are. Functions, classes and other objects are of the type `O`; the others are
-- true, and are not iterable.
mutual
  pub data Setting (O : Type 0) : Type 0 where
    none_value : Setting O
    text_value : String → Setting O
    number_value : ℕ → Setting O
    flag_value : Bool → Setting O
    callable_value : O → Setting O
    object_value : O → Setting O
    list_value : Members O → Setting O
    dict_value : Entries O → Setting O

  pub data Members (O : Type 0) : Type 0 where
    no_members : Members O
    member : Setting O → Members O → Members O

  pub data Entries (O : Type 0) : Type 0 where
    no_entries : Entries O
    entry : String × String → Setting O → Entries O → Entries O

-- The attributes of a module or of another object.
abbrev pub Attributes : Type 0 → Type 0
Attributes O = List (String × Setting O)

abbrev in_path : Char → String × String → String × String
in_path c (module_path, class_name) = (String.◌∷◌ c module_path, class_name)

abbrev or_at_dot : Char → String → Option (String × String) → Option (String × String)
or_at_dot c s (some found) = some (in_path c found)
or_at_dot c s none = if code c == b'.' then some ("", s) else none

-- dotted_path.rsplit('.', 1), if it has two parts
unfoldable pub rsplit_dot : String → Option (String × String)
rsplit_dot String.[] = none
rsplit_dot (String.◌∷◌ c s) = or_at_dot c s (rsplit_dot s)

-- `import_module` is importlib's.
module _ {O : Type 0} (import_module : String → Result (Attributes O)) where
  unfoldable pub import_module_attr : String → Result (Setting O)
  unfolding rsplit_dot
  import_module_attr dotted_path = do
    (module_path, class_name) ← from_option import_error (rsplit_dot dotted_path)
    attributes ← import_module module_path
    from_option import_error (get class_name attributes)

  -- _LazySettings._import_string; a false value is not defined, and other values have no `rsplit`.
  unfoldable pub import_string : Setting O → Result (Setting O)
  unfolding import_module_attr
  import_string (callable_value f) = ok (callable_value f)
  import_string (text_value dotted_path) = import_module_attr dotted_path
  import_string none_value = raise import_error
  import_string (number_value zero) = raise import_error
  import_string (number_value (suc n)) = raise attribute_error
  import_string (flag_value false) = raise import_error
  import_string (flag_value true) = raise attribute_error
  import_string (object_value o) = raise attribute_error
  import_string (list_value no_members) = raise import_error
  import_string (list_value (member v vs)) = raise attribute_error
  import_string (dict_value no_entries) = raise import_error
  import_string (dict_value (entry k v vs)) = raise attribute_error

  unfoldable pub import_entries : Entries O → Result (Entries O)
  unfolding import_string
  import_entries no_entries = ok no_entries
  import_entries (entry k v entries) = do
    imported ← import_string v
    others ← import_entries entries
    ok (entry k imported others)

  -- {k: self._import_string(v) for k, v in val.items()}
  abbrev pub import_dict : Setting O → Result (Setting O)
  import_dict (dict_value entries) = import_entries entries >>= λ imported. ok (dict_value imported)
  import_dict _ = raise attribute_error

  unfoldable pub import_members : Members O → Result (Members O)
  unfolding import_string
  import_members no_members = ok no_members
  import_members (member v members) = do
    imported ← import_string v
    others ← import_members members
    ok (member imported others)

  -- A text is iterated by its characters, a dictionary by its keys.
  abbrev pub letters : String → Members O
  letters String.[] = no_members
  letters (String.◌∷◌ c s) = member (text_value (String.◌∷◌ c "")) (letters s)

  abbrev pub dict_keys : Entries O → Members O
  dict_keys no_entries = no_members
  dict_keys (entry k v entries) =
      member (list_value (member (text_value k.0) (member (text_value k.1) no_members)))
        (dict_keys entries)

  abbrev pub iterated : Setting O → Result (Members O)
  iterated (list_value members) = ok members
  iterated (text_value s) = ok (letters s)
  iterated (dict_value entries) = ok (dict_keys entries)
  iterated _ = raise type_error

  -- [self._import_string(v) for v in val]
  unfoldable pub import_list : Setting O → Result (Setting O)
  unfolding import_members
  import_list val = do
    members ← iterated val
    imported ← import_members members
    ok (list_value imported)

rsplit_dot_tests :
    (rsplit_dot "hedwig.conf.noop_hook" ≡ some ("hedwig.conf", "noop_hook"))
    × (rsplit_dot "hook" ≡ none)
    × (rsplit_dot "hook." ≡ some ("hook", ""))
unfolding rsplit_dot
rsplit_dot_tests = (refl, refl, refl)
