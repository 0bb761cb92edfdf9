-- ===== src/Validator/Attributes/Marked.antt =====
-- A transport's own mark among the attributes changes nothing of what is decoded.
use hedwig_python.Prelude.{
  String, ◌≡◌, refl, ap, ◌∙◌, Bool, true, false, Option, none, some, List, [], ◌∷◌, ◌==◌, string_eq,
  ==_iff, arith, All, Bool-cases, inl, inr,
}
use hedwig_python.Python.Dict.{get, put, get-put}
use hedwig_python.Python.Exn.{guard, validation_error, ◌>>◌}
use hedwig_python.Python.Value.{name, other_key, Value, Entries, is_str, key_eq}
use hedwig_python.Text.Prefix.{starts_with}
use hedwig_python.Validator.Headers.{reserved}
use hedwig_python.Validator.Attributes.{
  check_required, required, custom_headers, decode_meta_attributes,
}

custom_headers-put :
    (k : String) (v : Value) (m : Entries)
    → starts_with k reserved ≡ true
    → custom_headers (put (name k) v m) ≡ custom_headers m
unfolding custom_headers put
custom_headers-put k v [] r = rw r refl
custom_headers-put k v ((other_key n, w) ∷ m) r = refl
custom_headers-put k v ((name j, w) ∷ m) r = elim (Bool-cases (j == k)) [
  | inl e ↦
      let r' : starts_with j reserved ≡ true =
        ground (arith, ==_iff j k, e, r, ap (λ (x : String). starts_with x reserved)) in
      rw e (rw r' refl)
  | inr e ↦ rw e (rw (custom_headers-put k v m r) refl)
]

module _ (v : Value) (m : Entries) where
  abbrev marked : Entries
  marked = put (name "hedwig_encoding") v m

  abbrev IsOther : String → Type 0
  IsOther s = ("hedwig_encoding" == s) ≡ false

  other : (s : String) → IsOther s → get (name s) marked ≡ get (name s) m
  other s h = get-put (name "hedwig_encoding") (name s) v m ∙ rw h refl

  check_required-marked :
      (names : List String)
      → All IsOther names
      → check_required names marked ≡ check_required names m
  unfolding check_required
  check_required-marked [] h = refl
  check_required-marked (s ∷ names) (first, others) =
      ap
        (λ (o : Option Value).
          guard (elim o [ none ↦ false | some w ↦ is_str w ]) validation_error
          >> check_required names marked)
        (other s first)
      ∙ rw (check_required-marked names others) refl

  -- The mark of a transport that encodes changes nothing of what is decoded.
  pub decode_meta_attributes-marked :
      (setting : Bool) → decode_meta_attributes setting marked ≡ decode_meta_attributes setting m
  unfolding decode_meta_attributes starts_with
  decode_meta_attributes-marked setting = rw (custom_headers-put "hedwig_encoding" v m refl) (
      rw (check_required-marked required (refl, (refl, (refl, (refl, (refl, tt)))))) (
        rw (other "hedwig_format_version" refl) (
          rw (other "hedwig_id" refl) (
            rw (other "hedwig_message_timestamp" refl)
              (rw (other "hedwig_publisher" refl) (rw (other "hedwig_schema" refl) refl))))))
