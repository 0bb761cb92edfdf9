-- ===== src/Validator/Headers.antt =====
-- `_verify_headers` of hedwig/validators/base.py.
use hedwig_python.Prelude.{
  String, ◌≡◌, refl, ◌↔◌, Bool, true, false, ◌&&◌, not, [], ◌∷◌, arith, All, ◌⊎◌, inl, inr,
}
use hedwig_python.Python.Exn.{Result, ok, raise, validation_error, guard, ◌>>◌}
use hedwig_python.Python.Value.{Key, name, other_key, Value, Entries, is_str}
use hedwig_python.Text.Prefix.{starts_with}

abbrev pub reserved : String
reserved = "hedwig_"

-- isinstance(k, str)
abbrev pub is_name : Key → Bool
is_name (name s) = true
is_name (other_key n) = false

-- k.startswith("hedwig_"); an object that is not a `str` has no such method, and is not asked here
abbrev pub is_reserved : Key → Bool
is_reserved (name s) = starts_with s reserved
is_reserved (other_key n) = false

unfoldable pub verify_headers : Entries → Result (Unit {0})
verify_headers [] = ok tt
verify_headers ((k, v) ∷ rest) =
    let others = verify_headers rest in
    do
      guard (is_name k && is_str v) validation_error
      guard (not (is_reserved k)) validation_error
      others

-- An attribute of text to text.
abbrev pub IsText : Key × Value → Type 0
IsText (k, v) = (is_name k ≡ true) × (is_str v ≡ true)

-- A header that may be sent: text to text, outside the reserved namespace.
abbrev pub IsSane : Key × Value → Type 0
IsSane (k, v) = (is_name k ≡ true) × (is_str v ≡ true) × (is_reserved k ≡ false)

pub verify_headers_iff : (m : Entries) → (verify_headers m ≡ ok tt) ↔ All IsSane m
unfolding verify_headers
verify_headers_iff [] = (λ _. tt, λ _. refl)
verify_headers_iff ((k, v) ∷ rest) =
    let (to, from) = verify_headers_iff rest in
    (λ h. ground (arith, to), λ (here, there). ground (arith, from there))

verify_headers_cases :
    (m : Entries) → (verify_headers m ≡ ok tt) ⊎ (verify_headers m ≡ raise validation_error)
unfolding verify_headers
verify_headers_cases [] = inl refl
verify_headers_cases ((k, v) ∷ rest) = ground (arith, verify_headers_cases rest)

pub verify_headers_error :
    (m : Entries) → ¬ All IsSane m → verify_headers m ≡ raise validation_error
verify_headers_error m h = elim (verify_headers_cases m) [
  | inl passed ↦ absurd (h ((verify_headers_iff m).0 passed))
  | inr failed ↦ failed
]

-- `_verify_headers` returns exactly on sane headers, and raises ValidationError on all others.
pub verify_headers_exact :
    (m : Entries)
    → ((verify_headers m ≡ ok tt) ↔ All IsSane m)
      × (¬ All IsSane m → verify_headers m ≡ raise validation_error)
verify_headers_exact m = (verify_headers_iff m, verify_headers_error m)
