-- ===== src/Environ/Restored.antt =====
-- A block under `override_env` leaves the environment as it was.
use hedwig_python.Prelude.{
  String, ◌≡◌, refl, false, some, [], ◌∷◌, string_eq, ==_refl, arith, Option-cases, inl, inr,
}
use hedwig_python.Python.Action.{Action}
use hedwig_python.Python.Dict.{
  get, has_key, put, remove, has_key-none, put-fresh, remove-snoc, has_key-put,
}
use hedwig_python.Python.Exn.{ok}
use hedwig_python.Environ.{Variables, Process, unset, restore, override_env}

put-put : (k v w : String) (d : Variables) → put k v (put k w d) ≡ put k v d
unfolding put
put-put k v w [] = rw (==_refl k) refl
put-put k v w ((j, u) ∷ d) = ground (arith, put-put k v w d)

put-same : (k v : String) (d : Variables) → get k d ≡ some v → put k v d ≡ d
unfolding get put
put-same k v [] h = cc
put-same k v ((j, u) ∷ d) h = ground (arith, put-same k v d)

remove-put : (k v : String) (d : Variables) → has_key k d ≡ false → remove k (put k v d) ≡ d
remove-put k v d h = rw (put-fresh k v d h) (remove-snoc k v d h)

module _ {S : Type 0} (env value : String) (before : Variables) where
  restored :
      (w : Process S)
      → w.environ ≡ put env value before
      → restore env (get env before) w ≡ (ok tt, record w { environ = before })
  unfolding unset
  restored w e = elim (Option-cases (get env before)) [
    | inl h ↦ rw h (
        rw e (
          rw (has_key-put env env value before)
            (rw (==_refl env) (rw (remove-put env value before (has_key-none env before h)) refl))))
    | inr (v, h) ↦ rw h (rw e (rw (put-put env v value before) (rw (put-same env v before h) refl)))
  ]

-- A body that changes no environment variable runs with the variable set, and what it returns or
-- raises is the outcome; after it all variables are as before, set or not.
pub override_env-restores :
    {S A : Type 0} (env value : String) (body : Action (Process S) A) (w : Process S)
    → ((v : Process S) → (body v).1.environ ≡ v.environ)
    → override_env env value body w ≡ (
      (body (record w { environ = put env value w.environ })).0,
      record (body (record w { environ = put env value w.environ })).1 { environ = w.environ },
    )
unfolding override_env
override_env-restores env value body w keeps =
    let inside = record w { environ = put env value w.environ } in
    rw (restored env value w.environ (body inside).1 (keeps inside)) refl
