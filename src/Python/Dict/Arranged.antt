-- ===== src/Python/Dict/Arranged.antt =====
-- Two dictionaries with the same entries, in whatever order.
use hedwig_python.Prelude.{
  ◌≡◌, refl, false, none, some, List, [], ◌∷◌, All, Eq, ◌==◌, ==_iff, ==_refl, subst, sym, ◌∙◌,
  Bool-cases, inl, inr,
}
use hedwig_python.Python.Dict.{get, has_key, IsDict, get-none}

some_inj {ℓ} : {A : Type ℓ} {v w : A} → some w ≡ some v → w ≡ v
some_inj h = cc

none_not_some {ℓ} : {A : Type ℓ} (w : A) → ¬ (none ≡ some w)
none_not_some w h = cc

module _ {ℓ} {K V : Type ℓ} ⦃e : Eq K⦄ where
  pub record IsArranged (found m : List (K × V)) : Type ℓ where
    pub once : IsDict found
    pub same : (k : K) → get k found ≡ get k m

  abbrev IsAt : List (K × V) → K × V → Type ℓ
  IsAt m (k, v) = get k m ≡ some v

  -- What is found holds of its entry.
  pub found-All :
      (P : K × V → Type ℓ) (m : List (K × V)) (k : K) (v : V)
      → All P m
      → get k m ≡ some v
      → P (k, v)
  unfolding get
  found-All P [] k v h e = cc
  found-All P ((j, w) ∷ m) k v (first, others) h = elim (Bool-cases (j == k)) [
    | inl q ↦
        let value : w ≡ v = some_inj (rw q at h) in
        let key : j ≡ k = (==_iff j k).0 q in rw (← key) (rw (← value) first)
    | inr q ↦ found-All P m k v others (rw q at h)
  ]

  lift :
      (k : K) (v : V) (m rest : List (K × V))
      → has_key k m ≡ false
      → All (IsAt m) rest
      → All (IsAt ((k, v) ∷ m)) rest
  unfolding get
  lift k v m [] new h = tt
  lift k v m ((j, w) ∷ rest) new (first, others) = elim (Bool-cases (k == j)) [
    | inl q ↦
        let absent : get j m ≡ none =
          subst (λ i. get i m ≡ none) ((==_iff k j).0 q) (get-none k m new) in
        absurd (none_not_some w (sym absent ∙ first))
    | inr q ↦ (rw q first, lift k v m rest new others)
  ]

  -- The entries of a dictionary are found at their keys.
  all_at : (m : List (K × V)) → IsDict m → All (IsAt m) m
  unfolding get
  all_at [] once = tt
  all_at ((k, v) ∷ m) (new, once) = (rw (==_refl k) refl, lift k v m m new (all_at m once))

  -- What holds of all entries holds of them in any order.
  pub All-IsArranged :
      (P : K × V → Type ℓ) (found m : List (K × V)) → IsArranged found m → All P m → All P found
  All-IsArranged P found m a h = holds found (all_at found a.once)
    where
      holds : (rest : List (K × V)) → All (IsAt found) rest → All P rest
      holds [] at = tt
      holds ((k, v) ∷ rest) (first, others) =
          (found-All P m k v h (sym (a.same k) ∙ first), holds rest others)
