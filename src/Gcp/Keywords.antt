-- ===== src/Gcp/Keywords.antt =====
-- The call `publish(topic_path, data=..., **attrs)` of hedwig/backends/gcp.py, as Python binds its
-- arguments to the parameters of `publish(self, topic, data, ordering_key, retry, timeout, **attrs)`.
use hedwig_python.Prelude.{
  ◌≡◌, refl, ap, Bool, not, ◌||◌, [], ◌∷◌, ◌==◌, if◌then◌else◌, Bool-cases, inl, inr,
}
use hedwig_python.Python.Action.{Action, lift, ◌>>◌}
use hedwig_python.Python.Dict.{has_key}
use hedwig_python.Python.Exn.{guard, type_error}
use hedwig_python.Python.Value.{Key, name, Entries, key_eq}

-- A keyword for a parameter that the call gives already.
abbrev pub is_given_twice : Entries → Bool
is_given_twice attrs =
    has_key (name "self") attrs || has_key (name "topic") attrs || has_key (name "data") attrs

-- A keyword for one of the other named parameters.
abbrev pub is_option : Key → Bool
is_option k = k == name "ordering_key" || k == name "retry" || k == name "timeout"

-- What is passed as options of the call, and what is left as the message's attributes.
unfoldable pub options_of : Entries → Entries
options_of [] = []
options_of ((k, v) ∷ attrs) = if is_option k then (k, v) ∷ options_of attrs else options_of attrs

unfoldable pub attributes_of : Entries → Entries
attributes_of [] = []
attributes_of ((k, v) ∷ attrs) =
    if is_option k then attributes_of attrs else (k, v) ∷ attributes_of attrs

-- The call, where `publish` has its topic and data.
unfoldable pub call_publish :
    {S F : Type 0} → (Entries → Entries → Action S F) → Entries → Action S F
call_publish publish attrs = do
  lift (guard (not (is_given_twice attrs)) type_error)
  publish (options_of attrs) (attributes_of attrs)

-- Without options all of them are attributes.
pub attributes_of-no_options :
    (attrs : Entries) → options_of attrs ≡ [] → attributes_of attrs ≡ attrs
unfolding options_of attributes_of
attributes_of-no_options [] h = refl
attributes_of-no_options ((k, v) ∷ attrs) h = elim (Bool-cases (is_option k)) [
  | inl e ↦ cc
  | inr e ↦ rw e (ap (λ (m : Entries). (k, v) ∷ m) (attributes_of-no_options attrs (rw e at h)))
]
