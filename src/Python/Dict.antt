-- ===== src/Python/Dict.antt =====
-- Python's `dict`: an association list in insertion order, each key once.
pub mod Arranged
use hedwig_python.Prelude.{
  ◌≡◌, refl, Bool, false, ◌||◌, Option, none, some, List, [], ◌∷◌, ◌++◌, arith, Eq, ◌==◌, ==_iff,
  ==_refl, Bool-cases, inl, inr, if◌then◌else◌, ap, ◌∙◌, sym,
}
use mathlib.Core.List.{append-nil, append_assoc}

-- What stands behind `new` in d.update(new), where `new` has nothing.
abbrev pub or_else {ℓ} : {V : Type ℓ} → Option V → Option V → Option V
or_else (some v) other = some v
or_else none other = other

module _ {ℓ κ} {K : Type ℓ} {V : Type κ} ⦃e : Eq K⦄ where
  -- d.get(k)
  unfoldable pub get : K → List (K × V) → Option V
  get k [] = none
  get k ((j, v) ∷ m) = if j == k then some v else get k m

  -- k in d
  unfoldable pub has_key : K → List (K × V) → Bool
  has_key k [] = false
  has_key k ((j, v) ∷ m) = j == k || has_key k m

  -- d[k] = v: in place, or at the end
  unfoldable pub put : K → V → List (K × V) → List (K × V)
  put k v [] = (k, v) ∷ []
  put k v ((j, w) ∷ m) = if j == k then (j, v) ∷ m else (j, w) ∷ put k v m

  -- d.pop(k, None), without the value
  unfoldable pub remove : K → List (K × V) → List (K × V)
  remove k [] = []
  remove k ((j, v) ∷ m) = if j == k then m else (j, v) ∷ remove k m

  -- d.update(new); {**d, **new}
  unfoldable pub update : List (K × V) → List (K × V) → List (K × V)
  update d [] = d
  update d ((k, v) ∷ new) = update (put k v d) new

  -- Each key once.
  abbrev pub IsDict : List (K × V) → Type 0
  IsDict [] = Unit
  IsDict ((k, v) ∷ m) = (has_key k m ≡ false) × IsDict m

  -- No key of the second dictionary is one of the first.
  abbrev pub IsFresh : List (K × V) → List (K × V) → Type 0
  IsFresh d [] = Unit
  IsFresh d ((k, v) ∷ m) = (has_key k d ≡ false) × IsFresh d m

  pub get-put :
      (k j : K) (v : V) (m : List (K × V))
      → get j (put k v m) ≡ (if k == j then some v else get j m)
  unfolding get put
  get-put k j v [] = refl
  get-put k j v ((i, w) ∷ m) = ground (arith, ==_iff k j, ==_iff i k, ==_iff i j, get-put k j v m)

  pub has_key-append :
      (k : K) (d m : List (K × V)) → has_key k (d ++ m) ≡ (has_key k d || has_key k m)
  unfolding has_key
  has_key-append k [] m = refl
  has_key-append k ((j, v) ∷ d) m = ground (arith, has_key-append k d m)

  pub put-fresh :
      (k : K) (v : V) (d : List (K × V)) → has_key k d ≡ false → put k v d ≡ d ++ (k, v) ∷ []
  unfolding has_key put
  put-fresh k v [] h = refl
  put-fresh k v ((j, w) ∷ d) h = ground (arith, put-fresh k v d)

  pub IsFresh-nil : (m : List (K × V)) → IsFresh [] m
  unfolding has_key
  IsFresh-nil [] = tt
  IsFresh-nil ((k, v) ∷ m) = (refl, IsFresh-nil m)

  IsFresh-snoc :
      (k : K) (v : V) (d m : List (K × V))
      → has_key k m ≡ false
      → IsFresh d m
      → IsFresh (d ++ (k, v) ∷ []) m
  unfolding has_key
  IsFresh-snoc k v d [] h f = tt
  IsFresh-snoc k v d ((j, w) ∷ m) h f = (
    rw (has_key-append j d ((k, v) ∷ [])) (ground (arith, ==_iff j k, ==_iff k j, f.0)),
    IsFresh-snoc k v d m (ground arith) f.1,
  )

  -- New keys go to the end, in their order.
  pub update-fresh : (d m : List (K × V)) → IsDict m → IsFresh d m → update d m ≡ d ++ m
  unfolding update
  update-fresh d [] u f = sym (append-nil d)
  update-fresh d ((k, v) ∷ m) u f = rw (put-fresh k v d f.0) (
      update-fresh (d ++ (k, v) ∷ []) m u.1 (IsFresh-snoc k v d m u.0 f.1)
      ∙ append_assoc d ((k, v) ∷ []) m)

  pub get-append_left :
      (k : K) (v : V) (d m : List (K × V)) → get k d ≡ some v → get k (d ++ m) ≡ some v
  unfolding get
  get-append_left k v [] m h = cc
  get-append_left k v ((j, w) ∷ d) m h = ground (arith, get-append_left k v d m)

  pub get-none : (k : K) (m : List (K × V)) → has_key k m ≡ false → get k m ≡ none
  unfolding has_key get
  get-none k [] h = refl
  get-none k ((j, v) ∷ m) h = ground (arith, get-none k m)

  pub has_key-none : (k : K) (m : List (K × V)) → get k m ≡ none → has_key k m ≡ false
  unfolding get has_key
  has_key-none k [] h = refl
  has_key-none k ((j, v) ∷ m) h = ground (arith, has_key-none k m)

  -- The new entries win.
  pub get-update :
      (k : K) (d m : List (K × V)) → IsDict m → get k (update d m) ≡ or_else (get k m) (get k d)
  unfolding get update
  get-update k d [] u = refl
  get-update k d ((j, v) ∷ m) u = ground (
    arith,
    ==_iff j k,
    get-update k (put j v d) m u.1,
    get-put j k v d,
    ap (λ (x : K). get x m),
    get-none j m u.0,
  )

  pub remove-absent : (k : K) (m : List (K × V)) → has_key k m ≡ false → remove k m ≡ m
  unfolding has_key remove
  remove-absent k [] h = refl
  remove-absent k ((j, v) ∷ m) h = ground (arith, remove-absent k m)

  -- A new key at the end, which is taken out again.
  pub remove-snoc :
      (k : K) (v : V) (m : List (K × V)) → has_key k m ≡ false → remove k (m ++ (k, v) ∷ []) ≡ m
  unfolding has_key remove
  remove-snoc k v [] h = rw (==_refl k) refl
  remove-snoc k v ((j, w) ∷ m) h = ground (arith, remove-snoc k v m)

  pub get-snoc :
      (k : K) (v : V) (m : List (K × V)) → has_key k m ≡ false → get k (m ++ (k, v) ∷ []) ≡ some v
  unfolding has_key get
  get-snoc k v [] h = rw (==_refl k) refl
  get-snoc k v ((j, w) ∷ m) h = ground (arith, get-snoc k v m)

  pub IsFresh-single :
      (k : K) (v : V) (m : List (K × V)) → has_key k m ≡ false → IsFresh ((k, v) ∷ []) m
  unfolding has_key
  IsFresh-single k v [] h = tt
  IsFresh-single k v ((j, w) ∷ m) h =
      (ground (arith, ==_iff j k, ==_iff k j), IsFresh-single k v m (ground arith))

  pub has_key-put :
      (k j : K) (v : V) (m : List (K × V)) → has_key j (put k v m) ≡ (k == j || has_key j m)
  unfolding has_key put
  has_key-put k j v [] = refl
  has_key-put k j v ((i, w) ∷ m) =
      ground (arith, ==_iff k j, ==_iff i k, ==_iff i j, has_key-put k j v m)

  pub IsDict-put : (k : K) (v : V) (m : List (K × V)) → IsDict m → IsDict (put k v m)
  unfolding has_key put
  IsDict-put k v [] u = (refl, tt)
  IsDict-put k v ((j, w) ∷ m) (new, once) = elim (Bool-cases (j == k)) [
    | inl e ↦ rw e (new, once)
    | inr e ↦
        rw e (ground (arith, has_key-put k j v m, ==_iff j k, ==_iff k j), IsDict-put k v m once)
  ]

  pub IsDict-append : (d m : List (K × V)) → IsDict d → IsDict m → IsFresh d m → IsDict (d ++ m)
  unfolding has_key
  IsDict-append [] m u w f = w
  IsDict-append ((j, v) ∷ d) m (new, u) w f = (
    rw (has_key-append j d m) (rw new (not_among j d m f)),
    IsDict-append d m u w (tail_fresh m f),
  )
    where
      not_among : (j : K) (d m : List (K × V)) → IsFresh ((j, v) ∷ d) m → has_key j m ≡ false
      not_among j d [] f = refl
      not_among j d ((i, w) ∷ m) f =
          ground (arith, ==_iff j i, ==_iff i j, f.0, not_among j d m f.1)

      tail_fresh : (m : List (K × V)) → IsFresh ((j, v) ∷ d) m → IsFresh d m
      tail_fresh [] f = tt
      tail_fresh ((i, w) ∷ m) f = (ground (arith, f.0), tail_fresh m f.1)

  pub get-append_right :
      (k : K) (d m : List (K × V)) → has_key k d ≡ false → get k (d ++ m) ≡ get k m
  unfolding has_key get
  get-append_right k [] m h = refl
  get-append_right k ((j, v) ∷ d) m h = ground (arith, get-append_right k d m)

  -- A key of the second dictionary is none of the first.
  pub has_key-fresh :
      (k : K) (v : V) (d m : List (K × V)) → IsFresh d m → get k m ≡ some v → has_key k d ≡ false
  unfolding get
  has_key-fresh k v d [] f h = cc
  has_key-fresh k v d ((j, w) ∷ m) f h = ground (arith, ==_iff j k, f.0, has_key-fresh k v d m f.1)

  pub IsDict-update : (d m : List (K × V)) → IsDict d → IsDict (update d m)
  unfolding update
  IsDict-update d [] u = u
  IsDict-update d ((k, v) ∷ m) u = IsDict-update (put k v d) m (IsDict-put k v d u)

  pub get-remove : (k j : K) (m : List (K × V)) → (k == j) ≡ false → get j (remove k m) ≡ get j m
  unfolding get remove
  get-remove k j [] h = refl
  get-remove k j ((i, v) ∷ m) h =
      ground (arith, ==_iff i k, ==_iff i j, ==_iff k j, get-remove k j m)

  pub has_key-remove : (k : K) (m : List (K × V)) → IsDict m → has_key k (remove k m) ≡ false
  unfolding has_key remove
  has_key-remove k [] u = refl
  has_key-remove k ((j, v) ∷ m) u = ground (arith, ==_iff j k, u.0, has_key-remove k m u.1)

  has_key-remove_other :
      (k j : K) (m : List (K × V)) → has_key j m ≡ false → has_key j (remove k m) ≡ false
  unfolding has_key remove
  has_key-remove_other k j [] h = refl
  has_key-remove_other k j ((i, v) ∷ m) h = ground (arith, has_key-remove_other k j m)

  pub IsDict-remove : (k : K) (m : List (K × V)) → IsDict m → IsDict (remove k m)
  unfolding remove
  IsDict-remove k [] u = tt
  IsDict-remove k ((j, v) ∷ m) (new, once) = elim (Bool-cases (j == k)) [
    | inl e ↦ rw e once
    | inr e ↦ rw e (has_key-remove_other k j m new, IsDict-remove k m once)
  ]
