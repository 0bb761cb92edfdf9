-- ===== src/Python/Plain.antt =====
-- The values that survive a trip through JSON text: no objects of other types, and dictionaries
-- with texts for keys, each once.
use hedwig_python.Prelude.{Bool, true, false, ◌&&◌, not}
use hedwig_python.Python.Dict.{has_key}
use hedwig_python.Python.Value.{
  name, other_key, Value, null, bool, int, opaque, str, strict_version, list, dict, Items, nil,
  cons, Fields, end, field, to_entries, key_eq,
}

unfoldable mutual
  pub plain : Value → Bool
  plain null = true
  plain (bool b) = true
  plain (int z) = true
  plain (opaque n) = false
  plain (str s) = true
  plain (strict_version v) = false
  plain (list xs) = plain_items xs
  plain (dict fs) = plain_fields fs

  pub plain_items : Items → Bool
  plain_items nil = true
  plain_items (cons x xs) = plain x && plain_items xs

  pub plain_fields : Fields → Bool
  plain_fields end = true
  plain_fields (field (name k) v fs) =
      not (has_key (name k) (to_entries fs)) && plain v && plain_fields fs
  plain_fields (field (other_key n) v fs) = false
