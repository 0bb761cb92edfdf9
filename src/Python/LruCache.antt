-- ===== src/Python/LruCache.antt =====
-- `functools.lru_cache`: the entries of a cache, the one that was used last first. `room` is one less
-- than its `maxsize`.
use hedwig_python.Prelude.{ℕ, zero, suc, Option, none, some, List, [], ◌∷◌, Eq}
use hedwig_python.Python.Action.{Action}
use hedwig_python.Python.Dict.{get, remove}
use hedwig_python.Python.Exn.{Result, ok, raise}

unfoldable pub take {ℓ} : {A : Type ℓ} → ℕ → List A → List A
take zero xs = []
take (suc n) [] = []
take (suc n) (x ∷ xs) = x ∷ take n xs

abbrev pub kept : {K V : Type 0} → ℕ → K → Result V → List (K × V) → List (K × V)
kept room k (ok v) entries = (k, v) ∷ take room entries
kept room k (raise x) entries = entries

module _ {K V : Type 0} ⦃e : Eq K⦄ (room : ℕ) where
  abbrev pub hit_or_miss :
      {S : Type 0} → K → Option V → Action S V → List (K × V) → S → Result V × (List (K × V) × S)
  hit_or_miss k (some v) make entries s = (ok v, ((k, v) ∷ remove k entries, s))
  hit_or_miss k none make entries s = let r = make s in (r.0, (kept room k r.0 entries, r.1))

  -- A call with the arguments `k`; without an entry, the function is `make`.
  unfoldable pub cached_call :
      {S : Type 0} → K → Action S V → List (K × V) → S → Result V × (List (K × V) × S)
  cached_call k make entries s = hit_or_miss k (get k entries) make entries s
