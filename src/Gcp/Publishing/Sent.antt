-- ===== src/Gcp/Publishing/Sent.antt =====
-- Publishing to Pub/Sub leaves the environment alone.
use hedwig_python.Prelude.{String, ◌≡◌, refl, ◌∙◌, Bool, true, false, Option, if◌then◌else◌}
use hedwig_python.Python.Action.{Action, and_then, lift, ◌>>=◌}
use hedwig_python.Python.Exn.{Result, ok, raise}
use hedwig_python.Python.Value.{Key, Value, Entries, key_eq}
use hedwig_python.Models.{Message}
use hedwig_python.Validator.{Payload}
use hedwig_python.Publisher.{Topic, here, elsewhere, Routing, topic}
use hedwig_python.Environ.{Variables, Process}
use hedwig_python.Gcp.Credentials.{Cloud, Names, seed_credentials}
use hedwig_python.Gcp.Credentials.Project.{Keeps, Keeps-seeded, get_google_cloud_project-restores}
use hedwig_python.Gcp.Publishing.{
  Client, Held, create_client, publisher, project_of, get_topic_path, publish_to_topic,
  publish_over_pubsub, publish_and_wait, default_project,
}

module _ {S : Type 0} where
  Keeps-and_then :
      {A B : Type 0} (r : Result A) (next : A → Action (Process S) B)
      → ((a : A) → Keeps (next a))
      → Keeps (and_then r next)
  Keeps-and_then (ok a) next keeps w = keeps a w
  Keeps-and_then (raise e) next keeps w = refl

  Keeps-bind :
      {A B : Type 0} (m : Action (Process S) A) (next : A → Action (Process S) B)
      → Keeps m
      → ((a : A) → Keeps (next a))
      → Keeps (m >>= next)
  Keeps-bind m next keeps go w = Keeps-and_then (m w).0 next go (m w).1 ∙ keeps w

module _ {S F : Type 0} (names : Names) (credentials : Option String)
    (default : Variables → Action S (Option String)) (client : Client S F) where
  Keeps-publisher : Keeps (publisher names credentials default client)
  unfolding publisher seed_credentials
  Keeps-publisher w = chosen w.rest.outside.is_created
    where
      chosen :
          (b : Bool)
          → (if b
              then (ok tt, w)
              else seed_credentials names credentials
                  (create_client names credentials default client)
                  w).1.environ
            ≡ w.environ
      chosen true = refl
      chosen false =
          Keeps-seeded names.credentials credentials _
            (Keeps-seeded names.project w.rest.project _ (λ v. refl)) w

  Keeps-project_of : (t : Topic) → Keeps (project_of names credentials default client t)
  Keeps-project_of (here t) w =
      get_google_cloud_project-restores names credentials
        (default_project names credentials default client) w
  Keeps-project_of (elsewhere t project) w = refl

  Keeps-get_topic_path :
      {D P : Type 0} (routing : Routing) (message : Message D P)
      → Keeps (get_topic_path names credentials default client routing message)
  unfolding get_topic_path
  Keeps-get_topic_path routing message =
      Keeps-bind (lift (topic routing message)) _ (λ w. refl)
        (λ t.
          Keeps-bind (project_of names credentials default client t) _ (Keeps-project_of t)
            (λ project.
              Keeps-bind (publisher names credentials default client) _ Keeps-publisher
                (λ u w. refl)))

-- Whatever is published, and whatever the service and the discovery of the project do: after
-- publishing, and waiting for it, the environment variables are as before, with the credentials gone
-- that the client was made with.
pub publish_and_wait-Keeps :
    {S F D P : Type 0} (names : Names) (credentials : Option String)
    (default : Variables → Action S (Option String)) (client : Client S F) (show : Value → String)
    (show_key : Key → String) (routing : Routing) (message : Message D P) (payload : Payload)
    (attributes : Entries) (w : Process (Cloud (Held S)))
    → (publish_and_wait names credentials default client show show_key routing message payload
        attributes w).1.environ
      ≡ w.environ
unfolding publish_and_wait publish_over_pubsub publish_to_topic
publish_and_wait-Keeps names credentials default client show show_key routing message payload
      attributes =
    Keeps-bind _ _
      (Keeps-bind (get_topic_path names credentials default client routing message) _
        (Keeps-get_topic_path names credentials default client routing message)
        (λ topic_path.
          Keeps-bind (publisher names credentials default client) _
            (Keeps-publisher names credentials default client) (λ u w. refl)))
      (λ future w. refl)
