-- ===== src/Python/Action.antt =====
-- Methods that change an object and may raise: the state comes back beside an exception too.
use hedwig_python.Python.Exn.{Exn, Result, ok, raise}

abbrev pub Action {ℓ} : Type ℓ → Type ℓ → Type ℓ
Action S A = S → Result A × S

abbrev pub pure {ℓ} : {S A : Type ℓ} → A → Action S A
pure a s = (ok a, s)

abbrev pub throw {ℓ} : {S A : Type ℓ} → Exn → Action S A
throw e s = (raise e, s)

abbrev pub lift {ℓ} : {S A : Type ℓ} → Result A → Action S A
lift r s = (r, s)

abbrev pub modify : {S : Type 0} → (S → S) → Action S (Unit {0})
modify f s = (ok tt, f s)

-- The rest of a block, after a step that returned or raised.
abbrev pub and_then {ℓ} : {S A B : Type ℓ} → Result A → (A → Action S B) → Action S B
and_then (ok a) f s = f a s
and_then (raise e) f s = (raise e, s)

infixl 5 ◌>>=◌ ◌>>◌
abbrev pub ◌>>=◌ {ℓ} : {S A B : Type ℓ} → Action S A → (A → Action S B) → Action S B
◌>>=◌ m f s = and_then (m s).0 f (m s).1

abbrev pub ◌>>◌ {ℓ} : {S A B : Type ℓ} → Action S A → Action S B → Action S B
m >> k = m >>= λ _. k

-- try: m  except e: handler e
abbrev pub caught {ℓ} : {S A : Type ℓ} → Result A → (Exn → Action S A) → Action S A
caught (ok a) handler s = (ok a, s)
caught (raise e) handler s = handler e s

abbrev pub catch {ℓ} : {S A : Type ℓ} → Action S A → (Exn → Action S A) → Action S A
catch m handler s = caught (m s).0 handler (m s).1

-- try: m  finally: last, where `last` does not raise
abbrev pub finally_do : {S A : Type 0} → Action S A → (S → S) → Action S A
finally_do m last s = ((m s).0, last (m s).1)
