-- ===== src/Gcp/Credentials/Project.antt =====
-- What `get_google_cloud_project` leaves behind.
use hedwig_python.Prelude.{
  String, ◌≡◌, refl, true, Option, none, some, ◌==◌, string_eq, Bool-cases, inl, inr,
}
use hedwig_python.Python.Action.{Action}
use hedwig_python.Python.Exn.{ok, ok-inj, Result-cases}
use hedwig_python.Environ.{Variables, Process, override_env}
use hedwig_python.Environ.Restored.{override_env-restores}
use hedwig_python.Gcp.Credentials.{
  Cloud, is_set, seeded, Names, seed_credentials, auto_discover_project, set_project,
  get_google_cloud_project,
}

-- A step that leaves the environment as it was.
abbrev pub Keeps : {S A : Type 0} → Action (Process S) A → Type 0
Keeps {S} m = (w : Process S) → (m w).1.environ ≡ w.environ

-- One that returns only with a project.
abbrev Finds : {S A : Type 0} → Action (Process (Cloud S)) A → Type 0
Finds {S} {A} m =
    (w : Process (Cloud S)) (a : A) → (m w).0 ≡ ok a → is_set (m w).1.rest.project ≡ true

module _ {S A : Type 0} where
  Keeps-override_env :
      (env value : String) (body : Action (Process S) A)
      → Keeps body
      → Keeps (override_env env value body)
  Keeps-override_env env value body keeps w = rw (override_env-restores env value body w keeps) refl

  pub Keeps-seeded :
      (env : String) (value : Option String) (body : Action (Process S) A)
      → Keeps body
      → Keeps (seeded env value body)
  Keeps-seeded env none body keeps w = keeps w
  Keeps-seeded env (some value) body keeps w = elim (Bool-cases (value == "")) [
    | inl e ↦ rw e (keeps w)
    | inr e ↦ rw e (Keeps-override_env env value body keeps w)
  ]

module _ {S A : Type 0} where
  Finds-override_env :
      (env value : String) (body : Action (Process (Cloud S)) A)
      → Keeps body
      → Finds body
      → Finds (override_env env value body)
  Finds-override_env env value body keeps finds w a =
      rw (override_env-restores env value body w keeps) (finds _ a)

  Finds-seeded :
      (env : String) (value : Option String) (body : Action (Process (Cloud S)) A)
      → Keeps body
      → Finds body
      → Finds (seeded env value body)
  Finds-seeded env none body keeps finds w a = finds w a
  Finds-seeded env (some value) body keeps finds w a = elim (Bool-cases (value == "")) [
    | inl e ↦ rw e (finds w a)
    | inr e ↦ rw e (Finds-override_env env value body keeps finds w a)
  ]

module _ {S : Type 0} (names : Names) (credentials : Option String)
    (default : Variables → Action S (Option String)) where
  Keeps-set_project : (p : Option String) → Keeps (set_project names credentials default p)
  Keeps-set_project p w = elim (Bool-cases (is_set p)) [ inl e ↦ rw e refl | inr e ↦ rw e refl ]

  Keeps-auto_discover_project : Keeps (auto_discover_project names credentials default)
  unfolding auto_discover_project
  Keeps-auto_discover_project w = elim (Bool-cases (is_set w.rest.project)) [
    | inl e ↦ rw e refl
    | inr e ↦ rw e (elim (Result-cases (default w.environ w.rest.outside).0) [
      | inl (p, f) ↦ rw f (Keeps-set_project p _)
      | inr (x, f) ↦ rw f refl
    ])
  ]

  Finds-set_project : (p : Option String) → Finds (set_project names credentials default p)
  Finds-set_project p w a = elim (Bool-cases (is_set p)) [
    | inl e ↦ rw e (λ h. e)
    | inr e ↦ rw e (λ h. cc)
  ]

  Finds-auto_discover_project : Finds (auto_discover_project names credentials default)
  unfolding auto_discover_project
  Finds-auto_discover_project w a = elim (Bool-cases (is_set w.rest.project)) [
    | inl e ↦ rw e (λ h. e)
    | inr e ↦ rw e (elim (Result-cases (default w.environ w.rest.outside).0) [
      | inl (p, f) ↦ rw f (Finds-set_project p _ a)
      | inr (x, f) ↦ rw f (λ h. cc)
    ])
  ]

  -- The block that discovers the project.
  abbrev discovery : Action (Process (Cloud S)) (Unit {0})
  discovery = seed_credentials names credentials (auto_discover_project names credentials default)

  Keeps-discovery : Keeps discovery
  unfolding seed_credentials
  Keeps-discovery w =
      Keeps-seeded names.credentials credentials _
        (Keeps-seeded names.project w.rest.project _ Keeps-auto_discover_project) w

  Finds-discovery : Finds discovery
  unfolding seed_credentials
  Finds-discovery w a =
      Finds-seeded names.credentials credentials _
        (Keeps-seeded names.project w.rest.project _ Keeps-auto_discover_project)
        (Finds-seeded names.project w.rest.project _ Keeps-auto_discover_project
          Finds-auto_discover_project)
        w a

-- Whatever the discovery of the project does, and be there credentials or not, the environment
-- variables are as before.
pub get_google_cloud_project-restores :
    {S : Type 0} (names : Names) (credentials : Option String)
    (default : Variables → Action S (Option String)) (w : Process (Cloud S))
    → (get_google_cloud_project names credentials default w).1.environ ≡ w.environ
unfolding get_google_cloud_project
get_google_cloud_project-restores names credentials default w =
    elim (Bool-cases (is_set w.rest.project)) [
      | inl e ↦ rw e refl
      | inr e ↦ rw e (elim (Result-cases (discovery names credentials default w).0) [
        | inl (u, f) ↦ rw f (Keeps-discovery names credentials default w)
        | inr (x, f) ↦ rw f (Keeps-discovery names credentials default w)
      ])
    ]

-- A project that was returned is no empty text, and the next call returns the same one and does
-- nothing else: it is not discovered again.
pub get_google_cloud_project-settles :
    {S : Type 0} (names : Names) (credentials : Option String)
    (default : Variables → Action S (Option String)) (w : Process (Cloud S)) (p : Option String)
    → (get_google_cloud_project names credentials default w).0 ≡ ok p
    → (is_set p ≡ true)
      × (get_google_cloud_project names credentials default
            (get_google_cloud_project names credentials default w).1
          ≡ (ok p, (get_google_cloud_project names credentials default w).1))
unfolding get_google_cloud_project
get_google_cloud_project-settles {S} names credentials default w p =
    elim (Bool-cases (is_set w.rest.project)) [
      | inl e ↦ rw e (λ h. settled w p e h)
      | inr e ↦ rw e (elim (Result-cases (discovery names credentials default w).0) [
        | inl (u, f) ↦ rw f (λ h. settled _ p (Finds-discovery names credentials default w u f) h)
        | inr (x, f) ↦ rw f (λ h. cc)
      ])
    ]
  where
    settled :
        (v : Process (Cloud S)) (q : Option String)
        → is_set v.rest.project ≡ true
        → ok v.rest.project ≡ ok q
        → (is_set q ≡ true) × (get_google_cloud_project names credentials default v ≡ (ok q, v))
    settled v q e h = rw (← ok-inj h) (e, rw e refl)
