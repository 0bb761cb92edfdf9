-- ===== src/Settings/Fresh.antt =====
-- The values that are looked up on `_LazySettings` of hedwig/conf/__init__.py, and its cache.
use hedwig_python.Prelude.{
  String, ◌≡◌, refl, sym, ap, ◌∙◌, subst, Bool, Bool-cases, Option, none, some, Option-cases, inl,
  inr, List, [], ◌∷◌, map, ◌==◌, ==_iff, string_eq, if◌then◌else◌,
}
use hedwig_python.Python.Dict.{has_key}
use hedwig_python.Python.Exn.{
  Result, ok, raise, guard, attribute_error, key_error, from_option, Result-cases, ok-inj, ◌>>=◌,
  ◌>>◌,
}
use hedwig_python.Settings.{
  LazySettings, set_to, settled, ensure_configured, getattr, lookup, lookup_all,
}
use hedwig_python.Settings.Import.{Setting, Attributes}
use hedwig_python.Settings.Defaults.{defaults}
use hedwig_python.Settings.Sources.{
  Source, as_object, Startup, configured, by_framework, framework_settings, chosen, setting_value,
}

module _ {O : Type 0} (startup : Startup O) where
  -- What a lookup gives where nothing is cached.
  abbrev pub fresh_of : String → Result (Unit {0}) × Option (Source O) → Result (Setting O)
  fresh_of attr r =
      r.0
      >> (guard (has_key attr (defaults {O = O})) attribute_error >> setting_value startup attr r.1)

  abbrev pub fresh : String → Option (Source O) → Result (Setting O)
  fresh attr user_settings = fresh_of attr (settled startup user_settings)

  abbrev pub kept : String → Result (Setting O) → LazySettings O → LazySettings O
  kept attr (ok val) s = set_to attr (some val) s
  kept attr (raise e) s = s

  abbrev pub after : LazySettings O → LazySettings O
  after s = record s { user_settings = (settled startup s.user_settings).1 }

  pub getattr-fresh :
      (attr : String) (s : LazySettings O)
      → getattr startup attr s
        ≡ (fresh attr s.user_settings, kept attr (fresh attr s.user_settings) (after s))
  unfolding getattr ensure_configured
  getattr-fresh attr s = elim (Result-cases (settled startup s.user_settings).0) [
    | inr (e, h) ↦ rw h refl
    | inl (u, h) ↦ rw h (elim (Bool-cases (has_key attr (defaults {O = O}))) [
      | inr unknown ↦ rw unknown refl
      | inl known ↦
          rw known
            (elim (Result-cases (setting_value startup attr (settled startup s.user_settings).1)) [
              | inr (e, k) ↦ rw k refl
              | inl (val, k) ↦ rw k refl
            ])
    ])
  ]

  framework_again :
      (django flask : Option (Attributes O)) (user_settings : Option (Source O))
      → by_framework django flask (by_framework django flask user_settings)
        ≡ by_framework django flask user_settings
  framework_again (some django) flask user_settings = refl
  framework_again none (some flask) user_settings = refl
  framework_again none none user_settings = refl

  again :
      (user_settings new : Option (Source O))
      → ok (framework_settings startup user_settings) ≡ ok new
      → ok (framework_settings startup new) ≡ ok new
  again user_settings new h =
      ap (λ u. ok (framework_settings startup u)) (sym (ok-inj h))
      ∙ ap ok (framework_again startup.django_settings startup.flask_config user_settings)
      ∙ h

  -- A source that was chosen is chosen again.
  chosen_again :
      (settings_module : Option String) (user_settings new : Option (Source O))
      → chosen startup settings_module user_settings ≡ ok new
      → chosen startup settings_module new ≡ ok new
  chosen_again none user_settings new h = again user_settings new h
  chosen_again (some settings_module) user_settings new h =
      elim (Bool-cases (settings_module == "")) [
        | inl empty ↦
            rw empty (again user_settings new (subst (λ b. Chosen b user_settings) empty h))
        | inr given ↦ rw given (subst (λ b. Chosen b user_settings) given h)
      ]
    where
      Chosen : Bool → Option (Source O) → Type 0
      Chosen is_empty u =
          (if is_empty
            then ok (framework_settings startup u)
            else (startup.import_module settings_module >>= λ attributes.
                ok (some (as_object attributes))))
          ≡ ok new

  pub settled_again :
      (user_settings : Option (Source O))
      → settled startup (settled startup user_settings).1 ≡ settled startup user_settings
  settled_again user_settings = elim (Bool-cases (configured user_settings)) [
    | inl is_configured ↦ rw is_configured (rw is_configured refl)
    | inr not_configured ↦
        rw not_configured
          (elim (Result-cases (chosen startup startup.settings_module user_settings)) [
            | inr (e, h) ↦ rw h (rw not_configured (rw h refl))
            | inl (new, h) ↦ rw h (elim (Bool-cases (configured new)) [
              | inl is_configured ↦ rw is_configured refl
              | inr still_not ↦ rw still_not (
                  rw (chosen_again startup.settings_module user_settings new h) (rw still_not refl))
            ])
          ])
  ]

  abbrev pub Looked : Bool → Setting O → Setting O → Option (Setting O) → Type 0
  Looked same val new old = (if same then some val else old) ≡ some new

  -- A state of the object in which the cache holds what a lookup from `user_settings` gives.
  abbrev pub Agrees : Option (Source O) → LazySettings O → Type 0
  Agrees user_settings s =
      (settled startup s.user_settings ≡ settled startup user_settings)
      × ((attr : String) (val : Setting O)
          → s.cached attr ≡ some val
          → fresh attr user_settings ≡ ok val)

  pub nothing-Agrees :
      (user_settings : Option (Source O)) (s : LazySettings O)
      → settled startup s.user_settings ≡ settled startup user_settings
      → ((attr : String) → s.cached attr ≡ none)
      → Agrees user_settings s
  nothing-Agrees user_settings s same empty =
      (same, λ attr val cached. let missing = empty attr in cc)

  Agrees-kept :
      (user_settings : Option (Source O)) (attr : String) (s : LazySettings O)
      → Agrees user_settings s
      → Agrees user_settings (kept attr (fresh attr user_settings) s)
  Agrees-kept user_settings attr s agrees = elim (Result-cases (fresh attr user_settings)) [
    | inr (e, h) ↦ rw h agrees
    | inl (val, h) ↦ rw h (
      agrees.0,
      λ other new c. elim (Bool-cases (other == attr)) [
        | inl same ↦
            ap (λ (name : String). fresh name user_settings) ((==_iff other attr).0 same)
            ∙ h
            ∙ ap (from_option key_error) (subst (λ b. Looked b val new (s.cached other)) same c)
        | inr differs ↦
            agrees.1 other new (subst (λ b. Looked b val new (s.cached other)) differs c)
      ],
    )
  ]

  lookup-fresh :
      (user_settings : Option (Source O)) (attr : String) (s : LazySettings O)
      → Agrees user_settings s
      → ((lookup startup attr s).0 ≡ fresh attr user_settings)
        × Agrees user_settings (lookup startup attr s).1
  unfolding lookup
  lookup-fresh user_settings attr s agrees = elim (Option-cases (s.cached attr)) [
    | inr (val, c) ↦ rw c (sym (agrees.1 attr val c), agrees)
    | inl missing ↦ rw missing (
        rw (getattr-fresh attr s) (
          rw (ap (fresh_of attr) agrees.0) (
            refl,
            Agrees-kept user_settings attr (after s)
                (settled_again s.user_settings ∙ agrees.0, agrees.1),
          )))
  ]

  pub lookup_all-fresh :
      (user_settings : Option (Source O)) (attrs : List String) (s : LazySettings O)
      → Agrees user_settings s
      → (lookup_all startup attrs s).0 ≡ map (λ attr. fresh attr user_settings) attrs
  unfolding lookup_all
  lookup_all-fresh user_settings [] s agrees = refl
  lookup_all-fresh user_settings (attr ∷ attrs) s agrees =
      let first = lookup-fresh user_settings attr s agrees in
      rw first.0 (rw (lookup_all-fresh user_settings attrs (lookup startup attr s).1 first.1) refl)
