-- ===== src/Publisher/Headers.antt =====
-- Which headers a published message has.
use hedwig_python.Prelude.{◌≡◌, refl, sym, ◌∙◌, ap, Option, none, some, [], ◌∷◌}
use hedwig_python.Python.Dict.{get, IsDict, or_else, get-update}
use hedwig_python.Python.Value.{Key, Entries, key_eq}
use hedwig_python.Models.{Message, headers}
use hedwig_python.Publisher.{Publishing, with_defaults, with_tracing, tracing}

or_else-none : {V : Type 0} (o : Option V) → or_else o none ≡ o
or_else-none none = refl
or_else-none (some v) = refl

module _ {D P S : Type 0} (p : Publishing D P S) where
  get-with_defaults :
      (k : Key) (m : Message D P) (defaults : Entries)
      → IsDict (headers m)
      → get k (headers (with_defaults p m defaults)) ≡ or_else (get k (headers m)) (get k defaults)
  unfolding with_defaults
  get-with_defaults k m [] once = sym (unfold get in or_else-none (get k (headers m)))
  get-with_defaults k m (e ∷ defaults) once = get-update k (e ∷ defaults) (headers m) once

  -- A header of the message that is sent: tracing headers win over the message's own, and these
  -- win over the default headers.
  pub get-published :
      (k : Key) (m : Message D P) (defaults : Entries)
      → IsDict (headers m)
      → IsDict (tracing p (with_defaults p m defaults))
      → get k (headers (with_tracing p (with_defaults p m defaults)))
        ≡ or_else
            (get k (tracing p (with_defaults p m defaults)))
            (or_else (get k (headers m)) (get k defaults))
  unfolding with_tracing
  get-published k m defaults once traced =
      get-update k (headers (with_defaults p m defaults)) (tracing p (with_defaults p m defaults))
        traced
      ∙ ap (or_else (get k (tracing p (with_defaults p m defaults))))
          (get-with_defaults k m defaults once)
