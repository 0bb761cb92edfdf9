-- ===== src/Consumer/Handler.antt =====
-- `message_handler` and `_build_message` of hedwig/backends/base.py, with `Message.callback` and
-- `Message.exec_callback` of hedwig/models.py. Logging, and the new name of the trace's span, change
-- nothing that is modelled.
use hedwig_python.Prelude.{◌≡◌, refl, ◌∙◌, inl, inr, Option, none, some, pair_eq}
use hedwig_python.Python.Dict.{get}
use hedwig_python.Python.Exn.{Result, ok, raise, callback_not_found, validation_error, ◌>>=◌, ◌>>◌}
use hedwig_python.Python.Value.{Entries}
use hedwig_python.Models.{Message, major_version}
use hedwig_python.Callback.{
  Function, Registry, check_signature, version_pattern, find_by_message, call,
}
use hedwig_python.Callback.Signature.{check_signature_exact}
use hedwig_python.Validator.{Payload}

-- except CallbackNotFound: raise ValidationError
abbrev pub as_validation_error {ℓ} : {A : Type ℓ} → Result A → Result A
as_validation_error (raise callback_not_found) = raise validation_error
as_validation_error r = r

module _ {D P : Type 0} (callbacks : Registry (Message D P)) where
  unfoldable pub callback : Message D P → Result (Function (Message D P))
  callback m = as_validation_error (find_by_message callbacks m.type (major_version m))

  unfoldable pub exec_callback : Message D P → Result (Unit {0})
  unfolding callback call
  exec_callback m = do fn ← callback m; call fn m

  module _ (deserialize : Payload → Entries → Option P → Result (Message D P)) where
    unfoldable pub build_message : Payload → Entries → Option P → Result (Message D P)
    unfolding callback
    build_message payload attributes provider_metadata = do
      message ← deserialize payload attributes provider_metadata
      fn ← callback message
      ok message

    unfoldable pub message_handler : Payload → Entries → Option P → Result (Unit {0})
    unfolding build_message exec_callback
    message_handler payload attributes provider_metadata = do
      message ← build_message payload attributes provider_metadata
      exec_callback message

  -- What a decoded message leads to: without a callback for its type and major version it is
  -- invalid; a callback of the wrong signature is a fault of the configuration; any other is run.
  abbrev pub routed : Message D P → Option (Function (Message D P)) → Result (Unit {0})
  routed m none = raise validation_error
  routed m (some fn) = check_signature fn.parameters >> fn.run m

  checked :
      (m : Message D P) (o : Option (Function (Message D P)))
      → get (m.type, version_pattern (major_version m)) callbacks ≡ o
      → (callback m >>= λ fn. callback m >>= λ fn'. call fn' m) ≡ routed m o
  unfolding callback find_by_message call
  checked m none e = rw e
  checked m (some fn) e = elim ((check_signature_exact fn.parameters).1) [
    | inl good ↦ rw e (rw good refl)
    | inr bad ↦ rw e (rw bad refl)
  ]

  -- Every outcome of `message_handler`.
  pub message_handler_outcome :
      (deserialize : Payload → Entries → Option P → Result (Message D P)) (payload : Payload)
      (attributes : Entries) (pm : Option P)
      → message_handler deserialize payload attributes pm ≡ (
          deserialize payload attributes pm >>= λ m.
          routed m (get (m.type, version_pattern (major_version m)) callbacks))
  unfolding message_handler
  message_handler_outcome deserialize payload attributes pm =
      by_result (deserialize payload attributes pm)
    where
      step :
          (m : Message D P) (r : Result (Function (Message D P)))
          → (r >>= λ fn. ok m) >>= (λ m'. callback m' >>= λ fn. call fn m')
            ≡ (r >>= λ fn. callback m >>= λ fn'. call fn' m)
      step m (ok fn) = refl
      step m (raise e) = refl

      by_result :
          (r : Result (Message D P))
          → ((r >>= λ m. callback m >>= λ fn. ok m) >>= λ m. callback m >>= λ fn. call fn m)
            ≡ (r >>= λ m. routed m (get (m.type, version_pattern (major_version m)) callbacks))
      by_result (ok m) = step m (callback m) ∙ checked m _ refl
      by_result (raise e) = refl
