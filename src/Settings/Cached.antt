-- ===== src/Settings/Cached.antt =====
-- The cache of `_LazySettings` of hedwig/conf/__init__.py: what it holds, and clearing it.
use hedwig_python.Prelude.{
  String, ◌≡◌, refl, sym, ap, ◌∙◌, true, false, Bool-cases, Option, none, some, Option-cases, inl,
  inr, List, [], ◌∷◌, map, arith, ◌==◌, ==_iff, string_eq, if◌then◌else◌,
}
use hedwig_python.Python.Dict.{has_key}
use hedwig_python.Python.Exn.{
  ok, guard, attribute_error, Result-cases, >>=-eq-ok, guard-eq-ok, ◌>>◌,
}
use hedwig_python.Settings.{
  LazySettings, set_to, delete_all, clear_cache, unconfigure, configure_with_object, settled,
  getattr, lookup, lookup_all,
}
use hedwig_python.Settings.Import.{Setting, Attributes}
use hedwig_python.Settings.Defaults.{defaults}
use hedwig_python.Settings.Sources.{Source, Startup, configured, setting_value}
use hedwig_python.Settings.Fresh.{
  fresh, kept, after, getattr-fresh, lookup_all-fresh, nothing-Agrees,
}

map-same {ℓ κ} :
    {A : Type ℓ} {B : Type κ} (f g : A → B)
    → ((a : A) → f a ≡ g a)
    → (xs : List A) → map f xs ≡ map g xs
map-same f g same [] = refl
map-same f g same (x ∷ xs) = rw (same x) (rw (map-same f g same xs) refl)

-- Only names of settings are cached.
abbrev pub IsKnown : {O : Type 0} → LazySettings O → Type 0
IsKnown {O} s = (attr : String) → has_key attr (defaults {O = O}) ≡ false → s.cached attr ≡ none

module _ {O : Type 0} (startup : Startup O) where
  fresh-name :
      (attr : String) (user_settings : Option (Source O)) {val : Setting O}
      → fresh startup attr user_settings ≡ ok val
      → has_key attr (defaults {O = O}) ≡ true
  fresh-name attr user_settings h =
      let (u, _, rest) = >>=-eq-ok (settled startup user_settings).0 _ h in
      let (v, checked, _) =
        >>=-eq-ok (guard (has_key attr (defaults {O = O})) attribute_error) _ rest in
      guard-eq-ok (has_key attr (defaults {O = O})) attribute_error checked

  kept-IsKnown :
      (attr : String) (user_settings : Option (Source O)) (s : LazySettings O)
      → IsKnown s
      → IsKnown (kept startup attr (fresh startup attr user_settings) s)
  kept-IsKnown attr user_settings s known other unknown =
      elim (Result-cases (fresh startup attr user_settings)) [
        | inr (e, h) ↦ rw h (known other unknown)
        | inl (val, h) ↦ rw h (elim (Bool-cases (other == attr)) [
          | inl same ↦
              let is_name = fresh-name attr user_settings h in
              let e = (==_iff other attr).0 same in
              let clash = ap (λ (n : String). has_key n (defaults {O = O})) e in cc
          | inr differs ↦ rw differs (known other unknown)
        ])
      ]

  lookup-IsKnown :
      (attr : String) (s : LazySettings O) → IsKnown s → IsKnown (lookup startup attr s).1
  unfolding lookup
  lookup-IsKnown attr s known = elim (Option-cases (s.cached attr)) [
    | inr (val, c) ↦ rw c known
    | inl missing ↦ rw missing (
        rw (getattr-fresh startup attr s)
          (kept-IsKnown attr s.user_settings (after startup s) known))
  ]

  pub lookup_all-IsKnown :
      (attrs : List String) (s : LazySettings O)
      → IsKnown s
      → IsKnown (lookup_all startup attrs s).1
  unfolding lookup_all
  lookup_all-IsKnown [] s known = known
  lookup_all-IsKnown (attr ∷ attrs) s known =
      lookup_all-IsKnown attrs (lookup startup attr s).1 (lookup-IsKnown attr s known)

module _ {O : Type 0} where
  cached-delete_all :
      (attributes : Attributes O) (s : LazySettings O) (attr : String)
      → (delete_all attributes s).cached attr
        ≡ (if has_key attr attributes then none else s.cached attr)
  unfolding delete_all has_key
  cached-delete_all [] s attr = refl
  cached-delete_all ((name, val) ∷ attributes) s attr =
      cached-delete_all attributes (set_to name none s) attr
      ∙ ground (arith, ==_iff attr name, ==_iff name attr)

  user_settings-delete_all :
      (attributes : Attributes O) (s : LazySettings O)
      → (delete_all attributes s).user_settings ≡ s.user_settings
  unfolding delete_all
  user_settings-delete_all [] s = refl
  user_settings-delete_all ((name, val) ∷ attributes) s =
      user_settings-delete_all attributes (set_to name none s)

  nothing_cached :
      (s : LazySettings O) → IsKnown s → (attr : String) → (clear_cache s).cached attr ≡ none
  unfolding clear_cache
  nothing_cached s known attr =
      cached-delete_all defaults s attr ∙ elim (Bool-cases (has_key attr (defaults {O = O}))) [
        | inl is_setting ↦ rw is_setting refl
        | inr other ↦ rw other (known attr other)
      ]

  abbrev pub reconfigured : Source O → LazySettings O → LazySettings O
  reconfigured obj s = (configure_with_object obj (unconfigure s)).1

  -- For an object that has only names of settings cached, which lookups keep so: lookups after
  -- `clear_cache`, one after the other, give what each would give that finds nothing cached; and
  -- lookups after `unconfigure` and `configure_with_object`, with settings that are not empty, give
  -- the values of these settings, or of the defaults, and AttributeError for any other name.
  pub lookup_all-clear_cache :
      (startup : Startup O) (obj : Source O) (s : LazySettings O) (attrs : List String)
      → IsKnown s
      → configured (some obj) ≡ true
      → ((lookup_all startup attrs (clear_cache s)).0
          ≡ map (λ attr. (getattr startup attr s).0) attrs)
        × ((lookup_all startup attrs (reconfigured obj s)).0
            ≡ map
                (λ attr.
                  guard (has_key attr (defaults {O = O})) attribute_error
                  >> setting_value startup attr (some obj))
                attrs)
        × IsKnown (lookup_all startup attrs s).1
  unfolding clear_cache unconfigure configure_with_object
  lookup_all-clear_cache startup obj s attrs known is_configured = (
    lookup_all-fresh startup s.user_settings attrs (clear_cache s) (
          nothing-Agrees startup s.user_settings (clear_cache s)
            (ap (settled startup) (user_settings-delete_all defaults s)) (nothing_cached s known))
        ∙ map-same _ _ (λ attr. sym (ap (λ r. r.0) (getattr-fresh startup attr s))) attrs,
    lookup_all-fresh startup (some obj) attrs (reconfigured obj s)
          (nothing-Agrees startup (some obj) (reconfigured obj s) refl (nothing_cached s known))
        ∙ map-same _ _ (λ attr. rw is_configured refl) attrs,
    lookup_all-IsKnown startup attrs s known,
  )
