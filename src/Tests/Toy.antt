-- ===== src/Tests/Toy.antt =====
-- A concrete library for the JSON validator: it prints and reads two values.
use hedwig_python.Prelude.{
  String, ◌≡◌, refl, Bool, true, false, ◌&&◌, Option, none, some, arith, ◌==◌, ==_iff, ap, nat_eq,
  string_eq, if◌then◌else◌, inl, inr, Bool-cases,
}
use hedwig_python.Prelude.Int.{ℤ, pos, negsuc}
use hedwig_python.Python.Exn.{Result, ok, raise, type_error}
use hedwig_python.Python.Value.{Key, Value, int, str, dict, Fields, end, field, key_eq}
use hedwig_python.JsonSchema.{Library}
use hedwig_python.JsonSchema.RoundTrip.{IsJson}

unfoldable pub int_beq : ℤ → ℤ → Bool
int_beq (pos m) (pos n) = m == n
int_beq (negsuc m) (negsuc n) = m == n
int_beq _ _ = false

int_beq_sound : (y z : ℤ) → int_beq y z ≡ true → y ≡ z
unfolding int_beq
int_beq_sound (pos m) (pos n) h = ap pos ((==_iff m n).0 h)
int_beq_sound (negsuc m) (negsuc n) h = ap negsuc ((==_iff m n).0 h)
int_beq_sound (pos m) (negsuc n) h = cc
int_beq_sound (negsuc m) (pos n) h = cc

unfoldable mutual
  unfolding int_beq

  -- Equality of texts, numbers and what is built from them; other objects equal nothing.
  pub same : Value → Value → Bool
  same (int y) (int z) = int_beq y z
  same (str s) (str t) = s == t
  same (dict fs) (dict gs) = same_fields fs gs
  same _ _ = false

  pub same_fields : Fields → Fields → Bool
  same_fields end end = true
  same_fields (field j v fs) (field k w gs) = j == k && (same v w && same_fields fs gs)
  same_fields _ _ = false

fields_eq :
    {j k : Key} {v w : Value} {fs gs : Fields}
    → j ≡ k
    → v ≡ w
    → fs ≡ gs
    → field j v fs ≡ field k w gs
fields_eq p q r = cc

pub both : (p q : Bool) → (p && q) ≡ true → (p ≡ true) × (q ≡ true)
both p q h = ground arith

mutual
  unfolding same same_fields

  pub same_sound : (v w : Value) → same v w ≡ true → v ≡ w
  same_sound (int y) (int z) h = ap int (int_beq_sound y z h)
  same_sound (str s) (str t) h = ap str ((==_iff s t).0 h)
  same_sound (dict fs) (dict gs) h = ap dict (same_fields_sound fs gs h)
  same_sound _ _ h = cc

  same_fields_sound : (fs gs : Fields) → same_fields fs gs ≡ true → fs ≡ gs
  same_fields_sound end end h = refl
  same_fields_sound (field j v fs) (field k w gs) h =
      let (key, rest) = both (j == k) (same v w && same_fields fs gs) h in
      let (here, there) = both (same v w) (same_fields fs gs) rest in
      fields_eq ((==_iff j k).0 key) (same_sound v w here) (same_fields_sound fs gs there)
  same_fields_sound end (field k w gs) h = cc
  same_fields_sound (field k w gs) end h = cc

-- The library for two values and their texts.
module _ (first second : Value) where
  unfoldable pub dumps : Value → Result String
  unfolding same same_fields int_beq
  dumps v =
      if same v first then ok "first" else if same v second then ok "second" else raise type_error

  unfoldable pub loads : String → Option Value
  loads s = if s == "first" then some first else if s == "second" then some second else none

  loads-dumps : (v : Value) (s : String) → dumps v ≡ ok s → loads s ≡ some v
  unfolding dumps loads
  loads-dumps v s h = elim (Bool-cases (same v first)) [
    | inl p ↦ let e : s ≡ "first" = ground (arith, p, h) in rw (e, same_sound v first p) refl
    | inr p ↦ elim (Bool-cases (same v second)) [
      | inl q ↦ let e : s ≡ "second" = ground (arith, p, q, h) in rw (e, same_sound v second q) refl
      | inr q ↦ ground (arith, p, q)
    ]
  ]

  abbrev pub toy : (Value → Value → Bool) → (String → Option Value) → Library
  toy valid resolve = record {
    loads = loads;
    dumps = dumps;
    container_valid = λ v. true;
    valid = valid;
    resolve = resolve;
    show = λ v. "?";
  }

  pub toy-IsJson :
      (valid : Value → Value → Bool) (resolve : String → Option Value) → IsJson (toy valid resolve)
  toy-IsJson valid resolve = record { loads-dumps = λ v s p h. loads-dumps v s h }
