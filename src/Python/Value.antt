-- ===== src/Python/Value.antt =====
-- Values of a dynamic language: what headers, attributes and message data may hold.
use hedwig_python.Prelude.{
  ℕ, zero, String, ◌≡◌, refl, ◌↔◌, Bool, true, false, List, [], ◌∷◌, arith, Eq, ◌==◌, nat_eq,
  string_eq, ==_iff,
}
use hedwig_python.Prelude.Int.{ℤ, pos}
use hedwig_python.Text.IntLiteral.{int_str}
use hedwig_python.Version.{StrictVersion, version_str}

-- The key of a dictionary: a `str`, or some other hashable object, known by a number.
pub data Key : Type 0 where
  name : String → Key
  other_key : ℕ → Key

abbrev pub key_beq : Key → Key → Bool
key_beq (name s) (name t) = s == t
key_beq (name s) (other_key n) = false
key_beq (other_key m) (name t) = false
key_beq (other_key m) (other_key n) = m == n

pub key_beq_iff : (a b : Key) → (key_beq a b ≡ true) ↔ (a ≡ b)
key_beq_iff (name s) (name t) = ground (arith, ==_iff s t)
key_beq_iff (name s) (other_key n) = ground arith
key_beq_iff (other_key m) (name t) = ground arith
key_beq_iff (other_key m) (other_key n) = ground (arith, ==_iff m n)

instance abbrev pub key_eq : Eq Key
key_eq = record { same_key = key_beq; same_key_iff = key_beq_iff }

-- Dictionaries and lists inside values are data types of their own, since a type cannot hold a
-- library list of itself.
mutual
  pub data Value : Type 0 where
    null : Value
    bool : Bool → Value
    int : ℤ → Value
    -- a float, a Decimal, a UUID, bytes, or any other object, known by a number
    opaque : ℕ → Value
    str : String → Value
    strict_version : StrictVersion → Value
    list : Items → Value
    dict : Fields → Value

  pub data Items : Type 0 where
    nil : Items
    cons : Value → Items → Items

  pub data Fields : Type 0 where
    end : Fields
    field : Key → Value → Fields → Fields

abbrev pub Entries : Type 0
Entries = List (Key × Value)

abbrev pub to_entries : Fields → Entries
to_entries end = []
to_entries (field k v fs) = (k, v) ∷ to_entries fs

abbrev pub of_entries : Entries → Fields
of_entries [] = end
of_entries ((k, v) ∷ m) = field k v (of_entries m)

pub to_entries-of_entries : (m : Entries) → to_entries (of_entries m) ≡ m
to_entries-of_entries [] = refl
to_entries-of_entries ((k, v) ∷ m) = rw (to_entries-of_entries m)

-- Whether a test of `v` passes. Other objects are taken to be true.
abbrev pub is_truthy : Value → Bool
is_truthy null = false
is_truthy (bool b) = b
is_truthy (int (pos zero)) = false
is_truthy (str String.[]) = false
is_truthy (list nil) = false
is_truthy (dict end) = false
is_truthy _ = true

-- isinstance(v, str)
abbrev pub is_str : Value → Bool
is_str (str s) = true
is_str _ = false

-- isinstance(v, dict)
abbrev pub is_dict : Value → Bool
is_dict (dict fs) = true
is_dict _ = false

-- str(v). What Python prints for an object other than these is given by `other`.
unfoldable pub to_str : (Value → String) → Value → String
to_str other (str s) = s
to_str other (int z) = int_str z
to_str other (strict_version v) = version_str v
to_str other null = "None"
to_str other (bool true) = "True"
to_str other (bool false) = "False"
to_str other v = other v
