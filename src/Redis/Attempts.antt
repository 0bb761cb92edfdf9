-- ===== src/Redis/Attempts.antt =====
-- A message that was delivered too often does not reach the loop.
use hedwig_python.Prelude.{
  ℕ, ◌≤◌, ◌*◌, ◌≡◌, refl, ◌∙◌, ap, String, Option, List, [], ◌∷◌, ltb, Bool-cases, inl, inr, arith,
}
use hedwig_python.Python.Action.{Action, and_then, ◌>>=◌}
use hedwig_python.Python.Exn.{Result, ok, raise, index_error, from_option}
use hedwig_python.Consumer.World.{World, on_server, close}
use hedwig_python.Redis.{Bytes, utf8, RedisMessage}
use hedwig_python.Redis.Pull.{
  Entry, Client, Config, Body, route, process_raw_messages, claim_all, process_lists,
  process_streams, claim_and_read, pull_messages,
}

-- Two blocks whose first steps do the same, and whose rests do, do the same.
and_then-same :
    {S A B : Type 0} (r : Result A) (f g : A → Action S B) (s : S)
    → ((a : A) (s' : S) → f a s' ≡ g a s')
    → and_then r f s ≡ and_then r g s
and_then-same (ok a) f g s h = h a s
and_then-same (raise e) f g s h = refl

bind-same :
    {S A B : Type 0} (m m' : Action S A) (f g : A → Action S B) (s : S)
    → m s ≡ m' s
    → ((a : A) (s' : S) → f a s' ≡ g a s')
    → (m >>= f) s ≡ (m' >>= g) s
bind-same m m' f g s e h = and_then-same (m s).0 f g (m s).1 h ∙ ap (λ r. and_then r.0 g r.1) e

module _ {S : Type 0} (client : Client S) (config : Config) (body other : Body S)
    (alike : (q : RedisMessage) (w : World RedisMessage S)
      → q.delivery_attempt ≤ config.max_delivery_attempts
      → body q w ≡ other q w) where
  route-same :
      (stream : Bytes) (e : Entry) (n : ℕ) (w : World RedisMessage S)
      → route client config stream e n body w ≡ route client config stream e n other w
  unfolding route
  route-same stream (id, fields) n w = elim (Bool-cases (ltb config.max_delivery_attempts n)) [
    | inl h ↦ rw h refl
    | inr h ↦ rw h (alike _ w (ground arith))
  ]

  process_raw_messages-same :
      (stream : Bytes) (es : List Entry) (w : World RedisMessage S)
      → process_raw_messages client config stream es body w
        ≡ process_raw_messages client config stream es other w
  unfolding process_raw_messages
  process_raw_messages-same stream [] w = refl
  process_raw_messages-same stream (e ∷ es) w =
      and_then-same (on_server (client.times_delivered stream e.0) w).0 _ _ _ (λ found w₁.
        and_then-same (from_option index_error found) _ _ w₁ (λ n w₂.
          bind-same (route client config stream e n body) (route client config stream e n other) _ _
            w₂ (route-same stream e n w₂) (λ _ w₃. process_raw_messages-same stream es w₃)))

  claim_all-same :
      (streams : List String) (n : ℕ) (w : World RedisMessage S)
      → claim_all client config streams n body w ≡ claim_all client config streams n other w
  unfolding claim_all
  claim_all-same [] n w = refl
  claim_all-same (stream ∷ streams) n w =
      and_then-same
        (on_server (client.xautoclaim stream (config.visibility_timeout_s * 1000) n) w).0 _ _ _
        (λ es w₁.
          bind-same (process_raw_messages client config (utf8 stream) es body)
            (process_raw_messages client config (utf8 stream) es other) _ _ w₁
            (process_raw_messages-same (utf8 stream) es w₁) (λ _ w₂. claim_all-same streams n w₂))

  process_lists-same :
      (stream : Bytes) (lists : List (List Entry)) (w : World RedisMessage S)
      → process_lists client config stream lists body w
        ≡ process_lists client config stream lists other w
  unfolding process_lists
  process_lists-same stream [] w = refl
  process_lists-same stream (es ∷ rest) w =
      bind-same (process_raw_messages client config stream es body)
        (process_raw_messages client config stream es other) _ _ w
        (process_raw_messages-same stream es w) (λ _ w₁. process_lists-same stream rest w₁)

  process_streams-same :
      (found : List (Bytes × List (List Entry))) (w : World RedisMessage S)
      → process_streams client config found body w ≡ process_streams client config found other w
  unfolding process_streams
  process_streams-same [] w = refl
  process_streams-same ((stream, lists) ∷ rest) w =
      bind-same (process_lists client config stream lists body)
        (process_lists client config stream lists other) _ _ w (process_lists-same stream lists w)
        (λ _ w₁. process_streams-same rest w₁)

  claim_and_read-same :
      (n : ℕ) (w : World RedisMessage S)
      → claim_and_read client config n body w ≡ claim_and_read client config n other w
  unfolding claim_and_read
  claim_and_read-same n w =
      bind-same (claim_all client config config.streams n body)
        (claim_all client config config.streams n other) _ _ w (claim_all-same config.streams n w)
        (λ _ w₁.
          and_then-same (on_server (client.xreadgroup config.streams n) w₁).0 _ _ _
            (λ found w₂. process_streams-same found w₂))

-- Two loops that do the same with messages that were delivered HEDWIG_MAX_DELIVERY_ATTEMPTS times at
-- most do the same with all that `pull_messages` yields, whatever the server answers.
pub pull_messages-attempts :
    {S : Type 0} (client : Client S) (config : Config) (body other : Body S) (num_messages : ℕ)
    (visibility_timeout : Option ℕ) (reset_at beat_at : ℕ) (w : World RedisMessage S)
    → ((q : RedisMessage) (w' : World RedisMessage S)
        → q.delivery_attempt ≤ config.max_delivery_attempts
        → body q w' ≡ other q w')
    → pull_messages client config num_messages visibility_timeout reset_at beat_at body w
      ≡ pull_messages client config num_messages visibility_timeout reset_at beat_at other w
unfolding pull_messages
pull_messages-attempts client config body other n timeout reset_at beat_at w alike =
    and_then-same _ _ _ w (λ _ w₁.
      ap (λ r. (r.0, close reset_at beat_at r.1))
        (claim_and_read-same client config body other alike n w₁))
